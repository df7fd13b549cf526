-- ===== src/Executor/Multi/Stop.antt =====
-- `spin` of a MultiThreadedExecutor beside `stop_spin` in another thread.
use rcl_like_wrapper_for_fas.Base.{
  ℕ, Bool, true, false, some, List, [], ◌∷◌, ◌≡◌, refl, All, arith, contains, ◌⊎◌, inl, inr, subst,
  ◌∙◌,
}
use rcl_like_wrapper_for_fas.Executor.Multi.{
  spinner, before, joining, System, Step, spin_locks, thread_returns, spin_returns, stop_locks,
  stop_returns, flag_rises, node_stops, outside_step, Reach, here, next,
}

-- `spin` has the lock and waits for its threads; every node is open and the flag is down.
pub record IsSpinning (s : System) : Type 0 where
  pub owned : s.owner ≡ some spinner
  pub spins : s.spin ≡ joining
  pub waits : s.stop ≡ before
  pub lowered : s.global_stop_flag ≡ false
  pub opened : (a : ℕ) → s.closed a ≡ false
  pub working : (a : ℕ) → s.finished a ≡ false

-- The same, but for the nodes that were closed from outside.
record IsHeld (s : System) (o : List ℕ) : Type 0 where
  owned : s.owner ≡ some spinner
  spins : s.spin ≡ joining
  waits : s.stop ≡ before
  lowered : s.global_stop_flag ≡ false
  opened : (a : ℕ) → s.closed a ≡ true → contains o a ≡ true
  working : (a : ℕ) → s.finished a ≡ true → contains o a ≡ true

abbrev Covers : List ℕ → List ℕ → Type 0
Covers o nodes = All (λ a. contains o a ≡ true) nodes

Covers-finished :
    (o : List ℕ) (finished : ℕ → Bool) (nodes : List ℕ)
    → ((a : ℕ) → finished a ≡ true → contains o a ≡ true)
    → All (λ a. finished a ≡ true) nodes
    → Covers o nodes
Covers-finished o finished [] h k = tt
Covers-finished o finished (a ∷ rest) h k = (h a k.0, Covers-finished o finished rest h k.1)

Covers-cons : (b : ℕ) (o nodes : List ℕ) → Covers o nodes → Covers (b ∷ o) nodes
Covers-cons b o [] h = tt
Covers-cons b o (a ∷ rest) h = (ground (arith, h.0), Covers-cons b o rest h.1)

Step-nodes : {s t : System} → Step s t → t.nodes ≡ s.nodes
Step-nodes (spin_locks e f) = refl
Step-nodes (thread_returns a e f) = refl
Step-nodes (spin_returns e f) = refl
Step-nodes (stop_locks e f) = refl
Step-nodes (stop_returns e) = refl
Step-nodes flag_rises = refl
Step-nodes (node_stops a) = refl

Step-Covers :
    {s t : System} (st : Step s t) (o nodes : List ℕ)
    → Covers o nodes
    → Covers (outside_step st o) nodes
Step-Covers (spin_locks e f) o nodes h = h
Step-Covers (thread_returns a e f) o nodes h = h
Step-Covers (spin_returns e f) o nodes h = h
Step-Covers (stop_locks e f) o nodes h = h
Step-Covers (stop_returns e) o nodes h = h
Step-Covers flag_rises o nodes h = h
Step-Covers (node_stops a) o nodes h = Covers-cons a o nodes h

Step-flag : {s t : System} → Step s t → s.global_stop_flag ≡ true → t.global_stop_flag ≡ true
Step-flag (spin_locks e f) h = h
Step-flag (thread_returns a e f) h = h
Step-flag (spin_returns e f) h = h
Step-flag (stop_locks e f) h = h
Step-flag (stop_returns e) h = h
Step-flag flag_rises h = refl
Step-flag (node_stops a) h = h

-- What may end the wait: a signal, or a close of every node from outside.
abbrev pub IsReleased : System → List ℕ → List ℕ → Type 0
IsReleased t o nodes = (t.global_stop_flag ≡ true) ⊎ All (λ a. contains o a ≡ true) nodes

Step-IsReleased :
    {s t : System} (st : Step s t) (o nodes : List ℕ)
    → IsReleased s o nodes
    → IsReleased t (outside_step st o) nodes
Step-IsReleased st o nodes (inl up) = inl (Step-flag st up)
Step-IsReleased st o nodes (inr all) = inr (Step-Covers st o nodes all)

Step-IsHeld :
    {s t : System} (st : Step s t) (o : List ℕ)
    → IsHeld s o
    → IsHeld t (outside_step st o) ⊎ IsReleased t (outside_step st o) s.nodes
Step-IsHeld (spin_locks e f) o h = absurd (ground arith)
Step-IsHeld {s} (thread_returns a e f) o h = inl (record {
  owned = h.owned;
  spins = h.spins;
  waits = h.waits;
  lowered = h.lowered;
  opened = h.opened;
  working = λ b k. ground (arith, f, h.lowered, h.opened a, h.working b);
})
Step-IsHeld {s} (spin_returns e f) o h =
    inr (inr (Covers-finished o s.finished s.nodes h.working f))
Step-IsHeld (stop_locks e f) o h = absurd (ground arith)
Step-IsHeld (stop_returns e) o h = absurd (ground arith)
Step-IsHeld flag_rises o h = inr (inl refl)
Step-IsHeld (node_stops a) o h = inl (record {
  owned = h.owned;
  spins = h.spins;
  waits = h.waits;
  lowered = h.lowered;
  opened = λ b k. ground (arith, h.opened b);
  working = λ b k. ground (arith, h.working b);
})

Reach-IsHeld :
    {s t : System} {o : List ℕ}
    → IsSpinning s
    → Reach s t o
    → (t.nodes ≡ s.nodes) × (IsHeld t o ⊎ IsReleased t o s.nodes)
Reach-IsHeld h here = (
  refl,
  inl (record {
    owned = h.owned;
    spins = h.spins;
    waits = h.waits;
    lowered = h.lowered;
    opened = λ a k. ground (arith, h.opened a);
    working = λ a k. ground (arith, h.working a);
  }),
)
Reach-IsHeld {s} h (next {t} {u} {o} r st) =
    let (same, before_step) = Reach-IsHeld h r in
    (
      Step-nodes st ∙ same,
      elim before_step [
        | inl held ↦ elim (Step-IsHeld st o held) [
          | inl held' ↦ inl held'
          | inr free ↦ inr (subst (IsReleased u (outside_step st o)) same free)
        ]
        | inr free ↦ inr (Step-IsReleased st o s.nodes free)
      ],
    )

-- `stop_spin` cannot stop a `spin` that has begun: from a state in which `spin` waits for its
-- threads over open nodes and the global flag is down, `spin` still waits and `stop_spin` still has
-- not got the lock, until the flag is raised or every node of the executor has been closed by
-- something other than the executor.
pub Reach-stop :
    {s t : System} {o : List ℕ}
    → IsSpinning s
    → Reach s t o
    → ((t.spin ≡ joining) × (t.stop ≡ before)) ⊎ IsReleased t o s.nodes
Reach-stop h r = elim ((Reach-IsHeld h r).1) [
  | inl held ↦ inl (held.spins, held.waits)
  | inr free ↦ inr free
]
