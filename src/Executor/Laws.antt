-- ===== src/Executor/Laws.antt =====
-- What the executors' operations do to the list, to the nodes and to the mutex.
use rcl_like_wrapper_for_fas.Base.{
  ℕ, zero, suc, ◌≡◌, ◌≢◌, refl, Bool, true, false, Option, none, some, List, [], ◌∷◌, ◌++◌, ◌==◌,
  not, ◌||◌, ◌&&◌, if◌then◌else◌, update, arith,
}
use rcl_like_wrapper_for_fas.Channel.{close}
use rcl_like_wrapper_for_fas.Outcome.{done, deadlock, >>=-eq-done}
use rcl_like_wrapper_for_fas.Node.{Node, Program}
use rcl_like_wrapper_for_fas.Node as node
use rcl_like_wrapper_for_fas.Executor.{Executor, lock, unlock, same, erase_all, stop_nodes}
use rcl_like_wrapper_for_fas.Executor.Single

-- Is the node at this address among these pointers?
abbrev pub holds : List (Option ℕ) → ℕ → Bool
holds [] a = false
holds (none ∷ ps) a = holds ps a
holds (some b ∷ ps) a = if b == a then true else holds ps a

abbrev pub NoNull : List (Option ℕ) → Type 0
NoNull [] = Unit
NoNull (none ∷ ps) = ⊥
NoNull (some a ∷ ps) = NoNull ps

pub holds-append_one :
    (ps : List (Option ℕ)) (a b : ℕ)
    → holds (ps ++ (some a ∷ [])) b ≡ (if a == b then true else holds ps b)
holds-append_one [] a b = refl
holds-append_one (none ∷ ps) a b = holds-append_one ps a b
holds-append_one (some c ∷ ps) a b = ground (arith, holds-append_one ps a b)

holds-erase_all :
    (ps : List (Option ℕ)) (a b : ℕ)
    → holds (erase_all (some a) ps) b ≡ (if a == b then false else holds ps b)
unfolding erase_all same
holds-erase_all [] a b = ground arith
holds-erase_all (none ∷ ps) a b = holds-erase_all ps a b
holds-erase_all (some c ∷ ps) a b = ground (arith, holds-erase_all ps a b)

NoNull-append_one : (ps : List (Option ℕ)) (a : ℕ) → NoNull ps → NoNull (ps ++ (some a ∷ []))
NoNull-append_one [] a h = tt
NoNull-append_one (none ∷ ps) a h = h
NoNull-append_one (some b ∷ ps) a h = NoNull-append_one ps a h

NoNull-erase_all : (p : Option ℕ) (ps : List (Option ℕ)) → NoNull ps → NoNull (erase_all p ps)
unfolding erase_all same
NoNull-erase_all p [] h = tt
NoNull-erase_all p (none ∷ ps) h = absurd h
NoNull-erase_all none (some b ∷ ps) h = NoNull-erase_all none ps h
NoNull-erase_all (some a) (some b ∷ ps) h = ground (arith, NoNull-erase_all (some a) ps h)

module _ {M : Type 0} where
  -- The loop of `stop_spin` closes the channels of the listed nodes and touches nothing else.
  stop_nodes_lem :
      (ps : List (Option ℕ)) (store : ℕ → Node M) (a : ℕ)
      → stop_nodes ps store a ≡ (if holds ps a then node.stop_spin (store a) else store a)
  unfolding stop_nodes node.stop_spin close
  stop_nodes_lem [] store a = refl
  stop_nodes_lem (none ∷ ps) store a = stop_nodes_lem ps store a
  stop_nodes_lem (some b ∷ ps) store a =
      ground (arith, stop_nodes_lem ps (update store b (node.stop_spin (store b))) a)

module _ {M W : Type 0} where
  -- `add_node` on an unlocked executor returns: the list holds the added node beside the old ones,
  -- still no null pointer, and nothing else changes.
  add_node_lem :
      (p : Option ℕ) (x : Executor M W)
      → x.locked ≡ false
      → (ps : List (Option ℕ)) × (Single.add_node p x ≡ done (record x { nodes = ps }))
        × ((b : ℕ) → holds ps b ≡ (same p (some b) || holds x.nodes b))
        × (NoNull x.nodes → NoNull ps)
  unfolding Single.add_node lock unlock same
  add_node_lem none x h = (x.nodes, ground arith, λ b. refl, λ n. n)
  add_node_lem (some a) x h = (
    x.nodes ++ (some a ∷ []),
    ground arith,
    λ b. ground (arith, holds-append_one x.nodes a b),
    λ n. NoNull-append_one x.nodes a n,
  )

  -- `remove_node` on an unlocked executor returns: the list holds the old nodes without the removed
  -- one, however often it was there, still no null pointer, and nothing else changes.
  remove_node_lem :
      (p : Option ℕ) (x : Executor M W)
      → x.locked ≡ false
      → (ps : List (Option ℕ)) × (Single.remove_node p x ≡ done (record x { nodes = ps }))
        × ((b : ℕ) → holds ps b ≡ (not (same p (some b)) && holds x.nodes b))
        × (NoNull x.nodes → NoNull ps)
  unfolding Single.remove_node lock unlock same
  remove_node_lem none x h = (x.nodes, ground arith, λ b. refl, λ n. n)
  remove_node_lem (some a) x h = (
    erase_all (some a) x.nodes,
    ground arith,
    λ b. ground (arith, holds-erase_all x.nodes a b),
    λ n. NoNull-erase_all (some a) x.nodes n,
  )

  -- `stop_spin` on an unlocked executor returns, unlocked, with the channel of every listed node
  -- closed and every other node as it was.
  pub stop_spin_lem :
      (x : Executor M W)
      → x.locked ≡ false
      → (store : ℕ → Node M) × (Single.stop_spin x ≡ done (record x { store = store }))
        × ((a : ℕ) → store a ≡ (if holds x.nodes a then node.stop_spin (x.store a) else x.store a))
  unfolding Single.stop_spin lock unlock
  stop_spin_lem x h = (stop_nodes x.nodes x.store, ground arith, stop_nodes_lem x.nodes x.store)

  -- `shutdown` never returns: it holds the mutex when it calls `stop_spin`, which locks it again.
  shutdown-deadlock : (x : Executor M W) → Single.shutdown x ≡ deadlock
  unfolding Single.shutdown Single.stop_spin lock unlock
  shutdown-deadlock x = ground arith

  -- While the global flag stays down `spin` does not return, whatever the nodes' channels are and
  -- whatever other threads do between its rounds, calls of `stop_spin` among it.
  pub spin-no_return :
      (p : Program M W) (fuel : ℕ) (flag : ℕ → Bool) (others : ℕ → Executor M W → Executor M W)
      → ((k : ℕ) → flag k ≡ false)
      → (rounds k : ℕ) (x y : Executor M W) → Single.spin p fuel flag others rounds k x ≢ done y
  unfolding Single.spin
  spin-no_return p fuel flag others low zero k x y e = cc
  spin-no_return p fuel flag others low (suc rounds) k x y e =
      let (x', round, rest) =
        >>=-eq-done (Single.spin_round p fuel (others k x)) _ (rw (low k) at e) in
      spin-no_return p fuel flag others low rounds (suc k) x' y rest
