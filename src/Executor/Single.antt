-- ===== src/Executor/Single.antt =====
-- `SingleThreadedExecutor` of lwrcl/libraries/src/lwrcl/src/lwrcl.cpp.
use rcl_like_wrapper_for_fas.Base.{
  ℕ, zero, suc, Bool, Option, none, some, [], ◌∷◌, ◌++◌, if◌then◌else◌,
}
use rcl_like_wrapper_for_fas.Outcome.{Outcome, done, exhausted, ◌>>=◌}
use rcl_like_wrapper_for_fas.Node.{Program}
use rcl_like_wrapper_for_fas.Executor.{Executor, lock, unlock, erase_all, stop_nodes, spin_nodes}

module _ {M W : Type 0} where
  unfoldable pub add_node : Option ℕ → Executor M W → Outcome (Executor M W)
  add_node none x = do x' ← lock x; unlock x'
  add_node (some node) x = do
    x' ← lock x
    unlock (record x' { nodes = x'.nodes ++ (some node ∷ []) })

  unfoldable pub remove_node : Option ℕ → Executor M W → Outcome (Executor M W)
  remove_node none x = do x' ← lock x; unlock x'
  remove_node (some node) x = do
    x' ← lock x
    unlock (record x' { nodes = erase_all (some node) x'.nodes })

  unfoldable pub stop_spin : Executor M W → Outcome (Executor M W)
  stop_spin x = do x' ← lock x; unlock (record x' { store = stop_nodes x'.nodes x'.store })

  -- The destructor.
  abbrev destroy : Executor M W → Outcome (Executor M W)
  destroy x = stop_spin x

  unfoldable pub shutdown : Executor M W → Outcome (Executor M W)
  shutdown x = do x' ← lock x; x'' ← stop_spin x'; unlock x''

  unfoldable pub spin_some : Program M W → ℕ → Executor M W → Outcome (Executor M W)
  spin_some p fuel x = do x' ← lock x; x'' ← spin_nodes p fuel x'.nodes x'; unlock x''

  -- One round of `spin`: the body of its loop, which holds the lock and sleeps at its end.
  unfoldable pub spin_round : Program M W → ℕ → Executor M W → Outcome (Executor M W)
  unfolding spin_some
  spin_round p fuel x = spin_some p fuel x

  -- `spin` for `rounds` rounds at most. `flag k` is what the test before round `k` reads of
  -- `global_stop_flag`, and `others k` what other threads do between that test and the lock.
  unfoldable pub spin :
      Program M W
      → ℕ
      → (ℕ → Bool)
      → (ℕ → Executor M W → Executor M W)
      → (rounds k : ℕ) → Executor M W
      → Outcome (Executor M W)
  spin p fuel flag others zero k x = exhausted
  spin p fuel flag others (suc rounds) k x =
      let next = (do
        x' ← spin_round p fuel (others k x)
        spin p fuel flag others rounds (suc k) x') in
      if flag k then done x else next
