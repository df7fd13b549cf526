-- ===== src/App/Main/Balance.antt =====
-- The entities of the participants over a program of lwrcl/apps, and its path.
use rcl_like_wrapper_for_fas.Base.{
  ℕ, ◌≡◌, ◌∙◌, ◌⊎◌, inl, inr, [], ◌∷◌, refl, Bool, true, false, Option, none, some, List, ◌++◌,
  if◌then◌else◌, arith,
}
use Prim.Native.String.{String}
use rcl_like_wrapper_for_fas.Endpoint.{Entity, Call, Result, ok, threw}
use rcl_like_wrapper_for_fas.Node.Ownership.{destroy}
use rcl_like_wrapper_for_fas.Node.Ownership.Counts.{
  taken, given_back, taken-append, given_back-append,
}
use rcl_like_wrapper_for_fas.App.{Config, Init, init}
use rcl_like_wrapper_for_fas.App.Life.{init-balance}
use rcl_like_wrapper_for_fas.App.Main.{
  directory, Exit, exits, uncaught, dangles, ended, destroy_executor, stop_nodes, Ran, unwind,
  after_init, Part, configured, with_node, add_node, spun, no_executable, failed, main,
  executor_main,
}

-- What was created or found has been deleted, unless an exception ended the program.
unfoldable pub IsBalanced : Entity → Ran → Type 0
IsBalanced e r = (n : ℕ) → r.exit ≡ exits n → taken e r.calls ≡ given_back e r.calls

uncaught-ne-exits : (n : ℕ) → uncaught ≡ exits n → ⊥
uncaught-ne-exits n h = ground arith

dangles-ne-exits : (n : ℕ) → dangles ≡ exits n → ⊥
dangles-ne-exits n h = ground arith

module _ (e : Entity) where
  unwind_balance :
      (x : Exit) (n : ℕ) (is bs ds : List Call)
      → x ≡ exits n
      → taken e (is ++ ds) ≡ given_back e (is ++ ds)
      → taken e bs ≡ given_back e bs
      → taken e (is ++ (bs ++ unwind x ds)) ≡ given_back e (is ++ (bs ++ unwind x ds))
  unfolding unwind
  unwind_balance uncaught n is bs ds h j k = absurd (uncaught-ne-exits n h)
  unwind_balance dangles n is bs ds h j k = absurd (dangles-ne-exits n h)
  unwind_balance (exits m) n is bs ds h j k = omega (
    arith,
    j,
    k,
    taken-append e is ds,
    given_back-append e is ds,
    taken-append e is (bs ++ ds),
    given_back-append e is (bs ++ ds),
    taken-append e bs ds,
    given_back-append e bs ds,
  )

  pub after_init-IsBalanced :
      (r : Result Bool) (i : Init) (rest : Ran)
      → taken e (i.calls ++ destroy i.owner) ≡ given_back e (i.calls ++ destroy i.owner)
      → IsBalanced e rest
      → IsBalanced e (after_init r i rest)
  unfolding after_init IsBalanced
  after_init-IsBalanced (ok true) i rest h k n j =
      unwind_balance rest.exit n i.calls rest.calls (destroy i.owner) j h (k n j)
  after_init-IsBalanced (ok false) i rest h k n j = h
  after_init-IsBalanced (threw x) i rest h k n j = absurd (uncaught-ne-exits n j)

  pub failed-IsBalanced : IsBalanced e failed
  unfolding failed IsBalanced
  failed-IsBalanced n h = refl

  configured-IsBalanced :
      (part : Part) (config : Option Config) (rest : Ran)
      → IsBalanced e rest
      → IsBalanced e (configured part config rest)
  unfolding configured
  configured-IsBalanced part none rest k = failed-IsBalanced
  configured-IsBalanced part (some c) rest k =
      let i = init part.class part.participant c in
      after_init-IsBalanced i.ended i rest (init-balance e part.class part.participant c) k

  with_node-IsBalanced :
      (part : Part) (config : Option Config) (rest : Ran)
      → IsBalanced e rest
      → IsBalanced e (with_node part config rest)
  unfolding with_node
  with_node-IsBalanced part config rest k =
      elim (part.made) as (λ b. IsBalanced e (if b then configured part config rest else failed)) [
        | true ↦ configured-IsBalanced part config rest k
        | false ↦ failed-IsBalanced
      ]

  pub spun-IsBalanced : IsBalanced e spun
  unfolding IsBalanced
  spun-IsBalanced n h = refl

-- Where a program of one node exits, whether it has spun or `init` has failed, its participant has
-- been given back each entity as often as it was created or found.
main-balance :
    (e : Entity) (load : List ℕ → String → Option Config) (part : Part) (exe : Option (List ℕ))
    (n : ℕ)
    → (main load part exe).exit ≡ exits n
    → taken e (main load part exe).calls ≡ given_back e (main load part exe).calls
unfolding main no_executable IsBalanced
main-balance e load part none n h = refl
main-balance e load part (some path) n h =
    with_node-IsBalanced e part (load (directory path) "config/config.yaml") spun
      (spun-IsBalanced e) n h

-- What a part of `main` ends with: an exception, a failure before what follows, or what follows.
EndsAs : Ran → Ran → Type 0
EndsAs rest r =
    (r.exit ≡ uncaught)
    ⊎ (((r.exit ≡ exits 1) × (r.added ≡ [])) ⊎ ((r.exit ≡ rest.exit) × (r.added ≡ rest.added)))

after_init-EndsAs : (x : Result Bool) (i : Init) (rest : Ran) → EndsAs rest (after_init x i rest)
unfolding after_init EndsAs
after_init-EndsAs (ok true) i rest = inr (inr (refl, refl))
after_init-EndsAs (ok false) i rest = inr (inl (refl, refl))
after_init-EndsAs (threw x) i rest = inl refl

configured-EndsAs :
    (part : Part) (config : Option Config) (rest : Ran) → EndsAs rest (configured part config rest)
unfolding configured failed EndsAs
configured-EndsAs part none rest = inl refl
configured-EndsAs part (some c) rest =
    let i = init part.class part.participant c in after_init-EndsAs i.ended i rest

with_node-EndsAs :
    (part : Part) (config : Option Config) (rest : Ran) → EndsAs rest (with_node part config rest)
unfolding with_node failed EndsAs
with_node-EndsAs part config rest =
    elim (part.made) as (λ b. EndsAs rest (if b then configured part config rest else failed)) [
      | true ↦ configured-EndsAs part config rest
      | false ↦ inl refl
    ]

-- An exception; no node added and a failure; or the first node added, and any other end.
Ends : Ran → Type 0
Ends r =
    (r.exit ≡ uncaught)
    ⊎ (((r.exit ≡ exits 1) × (r.added ≡ []))
        ⊎ ((n : ℕ) × (more : List ℕ) × (r.exit ≡ exits n) × (r.added ≡ 1 ∷ more)))

second_node :
    (part : Part) (config : Option Config)
    → ((with_node part config (add_node 2 spun)).exit ≡ uncaught)
      ⊎ ((n : ℕ) × ((with_node part config (add_node 2 spun)).exit ≡ exits n))
unfolding add_node EndsAs
second_node part config = elim (with_node-EndsAs part config (add_node 2 spun)) [
  | inl u ↦ inl u
  | inr (inl (x, _)) ↦ inr (1, x)
  | inr (inr (x, _)) ↦ inr (0, x)
]

both_nodes :
    (part1 part2 : Part) (config1 config2 : Option Config)
    → Ends (with_node part1 config1 (add_node 1 (with_node part2 config2 (add_node 2 spun))))
unfolding add_node EndsAs Ends
both_nodes part1 part2 config1 config2 =
    let rest = with_node part2 config2 (add_node 2 spun) in
    elim (with_node-EndsAs part1 config1 (add_node 1 rest)) [
      | inl u ↦ inl u
      | inr (inl failure) ↦ inr (inl failure)
      | inr (inr (x, a)) ↦ elim (second_node part2 config2) [
        | inl u ↦ inl (x ∙ u)
        | inr (n, y) ↦ inr (inr (n, rest.added, x ∙ y, a))
      ]
    ]

destroy_executor-result :
    (e : Entity) (r : Ran)
    → IsBalanced e r
    → Ends r
    → ((destroy_executor r).exit ≡ uncaught)
      ⊎ ((taken e r.calls ≡ given_back e r.calls)
          × ((((destroy_executor r).exit ≡ exits 1) × (r.added ≡ []))
              ⊎ ((more : List ℕ) × ((destroy_executor r).exit ≡ dangles) × (r.added ≡ 1 ∷ more))))
unfolding destroy_executor ended stop_nodes IsBalanced Ends
destroy_executor-result e r b (inl u) = inl (rw u refl)
destroy_executor-result e r b (inr (inl (x, a))) = inr (b 1 x, inl (rw (x, a) refl, a))
destroy_executor-result e r b (inr (inr (n, more, x, a))) =
    inr (b n x, inr (more, rw (x, a) refl, a))

rest-IsBalanced :
    (e : Entity) (part : Part) (config : Option Config)
    → IsBalanced e (add_node 1 (with_node part config (add_node 2 spun)))
unfolding add_node IsBalanced
rest-IsBalanced e part config = with_node-IsBalanced e part config (add_node 2 spun) (λ k j. refl)

-- How a program of two nodes ends: by an exception that nothing catches; by the status 1, before
-- a node was added; or, once the first node was added, by the destructor of the executor, which
-- calls `stop_spin` of a destroyed node. In the second and third case the participants have been given
-- back each entity as often as it was created or found.
pub executor_main-balance :
    (e : Entity) (load : List ℕ → String → Option Config) (part1 part2 : Part)
    (exe : Option (List ℕ))
    → let r = executor_main load part1 part2 exe in
      (r.exit ≡ uncaught)
      ⊎ ((taken e r.calls ≡ given_back e r.calls)
          × (((r.exit ≡ exits 1) × (r.added ≡ []))
              ⊎ ((more : List ℕ) × (r.exit ≡ dangles) × (r.added ≡ 1 ∷ more))))
unfolding executor_main no_executable
executor_main-balance e load part1 part2 none = inr (refl, inl (refl, refl))
executor_main-balance e load part1 part2 (some path) =
    let config1 = load (directory path) "config/config1.yaml" in
    let config2 = load (directory path) "config/config2.yaml" in
    destroy_executor-result e _
      (with_node-IsBalanced e part1 config1 (add_node 1 (with_node part2 config2 (add_node 2 spun)))
        (rest-IsBalanced e part2 config2))
      (both_nodes part1 part2 config1 config2)
