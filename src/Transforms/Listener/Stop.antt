-- ===== src/Transforms/Listener/Stop.antt =====
-- When the destructor of TransformListener (transform_listener.cpp) returns.
use rcl_like_wrapper_for_fas.Base.{ℕ, suc, ◌≡◌, ◌≢◌, refl, Bool, true, false}
use rcl_like_wrapper_for_fas.Outcome.{done, >>=-eq-done}
use rcl_like_wrapper_for_fas.Node.{Program}
use rcl_like_wrapper_for_fas.Executor.{Executor}
use rcl_like_wrapper_for_fas.Executor.Single
use rcl_like_wrapper_for_fas.Executor.Laws.{spin-no_return, stop_spin_lem}
use rcl_like_wrapper_for_fas.Transforms.Listener.{destroy}

module _ {M W : Type 0} (p : Program M W) where
  -- With a thread, the destructor never returns while the global stop flag is down, although it stops
  -- the spinning of the listener's node first.
  pub destroy-no_return :
      (fuel : ℕ) (flag : ℕ → Bool) (others : ℕ → Executor M W → Executor M W)
      → ((j : ℕ) → flag j ≡ false)
      → (rounds k : ℕ) (x y : Executor M W) → destroy p fuel flag others rounds k true x ≢ done y
  unfolding destroy
  destroy-no_return fuel flag others low rounds k x y e =
      let (x', stopped, rest) = >>=-eq-done (Single.stop_spin x) _ e in
      spin-no_return p fuel flag others low rounds k x' y rest

  -- It returns if the executor is unlocked and the flag is up when the thread next tests it.
  destroy-returns :
      (fuel : ℕ) (flag : ℕ → Bool) (others : ℕ → Executor M W → Executor M W) (rounds k : ℕ)
      (x : Executor M W)
      → flag k ≡ true
      → x.locked ≡ false
      → (y : Executor M W) × (destroy p fuel flag others (suc rounds) k true x ≡ done y)
  unfolding destroy Single.spin
  destroy-returns fuel flag others rounds k x up free =
      let (store, e, _) = stop_spin_lem x free in
      (record x { store = store }, rw e (rw (up, Single.spin) refl))
