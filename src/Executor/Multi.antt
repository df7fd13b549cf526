-- ===== src/Executor/Multi.antt =====
-- `MultiThreadedExecutor` of lwrcl/libraries/src/lwrcl/src/lwrcl.cpp: the calls that one thread
-- makes, and, as a step relation, `spin` in one thread beside `stop_spin` in another.
pub mod Stop
use rcl_like_wrapper_for_fas.Base.{
  ℕ, Bool, true, false, ◌||◌, Option, none, some, List, [], ◌∷◌, ◌++◌, ◌≡◌, refl, update, All,
  arith, contains, ◌⊎◌, inl, inr, subst, ◌∙◌,
}
use rcl_like_wrapper_for_fas.Outcome.{Outcome, deadlock, ◌>>=◌}
use rcl_like_wrapper_for_fas.Node.{Program}
use rcl_like_wrapper_for_fas.Executor.{Executor, lock, unlock, erase_all, stop_nodes, spin_nodes}

module _ {M W : Type 0} where
  unfoldable pub add_node : Option ℕ → Executor M W → Outcome (Executor M W)
  add_node none x = do x' ← lock x; unlock x'
  add_node (some node) x = do
    x' ← lock x
    unlock (record x' { nodes = x'.nodes ++ (some node ∷ []) })

  unfoldable pub remove_node : Option ℕ → Executor M W → Outcome (Executor M W)
  remove_node none x = do x' ← lock x; unlock x'
  remove_node (some node) x = do
    x' ← lock x
    unlock (record x' { nodes = erase_all (some node) x'.nodes })

  -- `stop_spin` of an executor that does not spin: its threads have been joined, so that the second
  -- loop finds nothing to join.
  unfoldable pub stop_spin : Executor M W → Outcome (Executor M W)
  stop_spin x = do x' ← lock x; unlock (record x' { store = stop_nodes x'.nodes x'.store })

  -- The destructor.
  abbrev destroy : Executor M W → Outcome (Executor M W)
  destroy x = stop_spin x

  unfoldable pub shutdown : Executor M W → Outcome (Executor M W)
  shutdown x = do x' ← lock x; x'' ← stop_spin x'; unlock x''

  unfoldable pub spin_some : Program M W → ℕ → Executor M W → Outcome (Executor M W)
  spin_some p fuel x = do x' ← lock x; x'' ← spin_nodes p fuel x'.nodes x'; unlock x''

  -- `shutdown` never returns: it holds the mutex when it calls `stop_spin`, which locks it again.
  multi_shutdown-deadlock : (x : Executor M W) → shutdown x ≡ deadlock
  unfolding shutdown stop_spin lock unlock
  multi_shutdown-deadlock x = ground arith

-- The two threads.
pub data Caller : Type 0 where
  spinner stopper : Caller

-- Where a call stands: before its lock, behind it in the joins, or returned.
pub data Call : Type 0 where
  before joining returned : Call

-- The channels of the executor's nodes, the threads that have returned from `Node::spin`, the
-- global flag, the owner of `mutex_`, and the two calls.
pub record System : Type 0 where
  pub nodes : List ℕ
  pub closed : ℕ → Bool
  pub finished : ℕ → Bool
  pub global_stop_flag : Bool
  pub owner : Option Caller
  pub spin : Call
  pub stop : Call

abbrev pub close_all : List ℕ → (ℕ → Bool) → ℕ → Bool
close_all [] closed = closed
close_all (a ∷ rest) closed = close_all rest (update closed a true)

-- A node's thread returns from `Node::spin` once the node's channel is closed or the global flag is
-- up. `node_stops` is a close from outside the executor: a call of the node's `stop_spin` or
-- `shutdown` by a callback or by the signal handler, whose first step, `flag_rises`, is to raise the
-- flag.
pub data Step (s : System) : System → Type 0 where
  spin_locks :
      s.spin ≡ before → s.owner ≡ none → Step s (record s { owner = some spinner; spin = joining })
  thread_returns :
      (a : ℕ)
      → s.spin ≡ joining
      → (s.closed a || s.global_stop_flag) ≡ true
      → Step s (record s { finished = update s.finished a true })
  spin_returns :
      s.spin ≡ joining
      → All (λ a. s.finished a ≡ true) s.nodes
      → Step s (record s { owner = none; spin = returned })
  stop_locks :
      s.stop ≡ before
      → s.owner ≡ none
      → Step s
          (record s { owner = some stopper; closed = close_all s.nodes s.closed; stop = joining })
  stop_returns : s.stop ≡ joining → Step s (record s { owner = none; stop = returned })
  flag_rises : Step s (record s { global_stop_flag = true })
  node_stops : (a : ℕ) → Step s (record s { closed = update s.closed a true })

-- The node that a step closes from outside.
abbrev pub outside_step : {s t : System} → Step s t → List ℕ → List ℕ
outside_step (node_stops a) o = a ∷ o
outside_step _ o = o

-- A run, with the nodes that were closed from outside in it.
pub data Reach (s : System) : System → List ℕ → Type 0 where
  here : Reach s s []
  next : {t u : System} {o : List ℕ} → Reach s t o → (st : Step t u) → Reach s u (outside_step st o)
