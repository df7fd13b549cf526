-- ===== src/Executor.antt =====
-- The state that both executors of lwrcl/libraries/src/lwrcl/src/lwrcl.cpp work on: their list of
-- `Node *`, their mutex as the executor's own thread sees it, and the nodes that exist, by
-- address. The loops over the list that the two classes share.
pub mod Single
pub mod Multi
pub mod Laws
pub mod Tests
use rcl_like_wrapper_for_fas.Base.{
  ℕ, Bool, true, false, Option, none, some, List, [], ◌∷◌, ◌++◌, ◌==◌, not, filter, update,
  if◌then◌else◌,
}
use rcl_like_wrapper_for_fas.Outcome.{Outcome, done, deadlock, fault, exhausted, ◌>>=◌}
use rcl_like_wrapper_for_fas.Node.{Node, Program, stop_spin}
use rcl_like_wrapper_for_fas.Node.SpinSome
use rcl_like_wrapper_for_fas.Node.SpinSome.{Result}

-- `none` is the null pointer. Every pointer in use points to a live node: `Registry` is about
-- those that do not.
pub record Executor (M W : Type 0) : Type 0 where
  pub nodes : List (Option ℕ)
  pub locked : Bool
  pub store : ℕ → Node M
  pub world : W

unfoldable pub same : Option ℕ → Option ℕ → Bool
same none none = true
same none (some b) = false
same (some a) none = false
same (some a) (some b) = a == b

-- `nodes_.erase(std::remove(nodes_.begin(), nodes_.end(), node), nodes_.end())`
unfoldable pub erase_all : Option ℕ → List (Option ℕ) → List (Option ℕ)
erase_all node = filter (λ p. not (same p node))

module _ {M : Type 0} where
  -- The loop of `stop_spin`.
  unfoldable pub stop_nodes : List (Option ℕ) → (ℕ → Node M) → ℕ → Node M
  stop_nodes [] store = store
  stop_nodes (none ∷ ps) store = stop_nodes ps store
  stop_nodes (some a ∷ ps) store = stop_nodes ps (update store a (stop_spin (store a)))

module _ {M W : Type 0} where
  -- `std::lock_guard<std::mutex> lock(mutex_)`, and its end.
  unfoldable pub lock : Executor M W → Outcome (Executor M W)
  lock x = if x.locked then deadlock else done (record x { locked = true })

  unfoldable pub unlock : Executor M W → Outcome (Executor M W)
  unlock x = done (record x { locked = false })

  -- The loop of `spin_some`, with fuel for each node's own.
  unfoldable pub after_node : Executor M W → ℕ → Result (Node M × W) → Outcome (Executor M W)
  after_node x a (SpinSome.returned (n, w)) =
      done (record x { store = update x.store a n; world = w })
  after_node x a SpinSome.fault = fault
  after_node x a SpinSome.exhausted = exhausted

  unfoldable pub spin_nodes :
      Program M W → ℕ → List (Option ℕ) → Executor M W → Outcome (Executor M W)
  unfolding after_node
  spin_nodes p fuel [] x = done x
  spin_nodes p fuel (none ∷ ps) x = spin_nodes p fuel ps x
  spin_nodes p fuel (some a ∷ ps) x = do
    x' ← after_node x a (SpinSome.spin_some p fuel (x.store a) x.world)
    spin_nodes p fuel ps x'
