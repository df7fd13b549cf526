-- ===== src/Node/Spin/Delivery/Keeps.antt =====
-- What every function of the user keeps holds of their world over any schedule.
use rcl_like_wrapper_for_fas.Base.{
  ℕ, ◌≡◌, refl, sym, subst, ◌⊎◌, inl, inr, none, some, List, [], ◌∷◌, arith,
}
use rcl_like_wrapper_for_fas.Channel.{close, is_closed, consume}
use rcl_like_wrapper_for_fas.Subscriber.{subscription, timer}
use rcl_like_wrapper_for_fas.Node.{Node, Program, Reaction, invoke, invoke_buffer, after_message}
use rcl_like_wrapper_for_fas.Node.Spin.{
  System, Pc, testing, consuming, closing, ended, invoking, spin_move,
}
use rcl_like_wrapper_for_fas.Node.Spin.Delivery.{Act, spin, raise, event, act, run}

module _ {M W : Type 0} (p : Program M W) (P : W → Type 0) where
  pub record IsKept : Type 0 where
    pub on_timer : (t : ℕ) (w : W) → P w → P (p.on_timer t w).world
    pub on_message : (j : ℕ) (m : M) (w : W) → P w → P (p.on_message j m w).world

  after_message-keeps :
      (j : ℕ) (r : Reaction M W) (n : Node M) → P r.world → P (after_message p j r n).1
  unfolding after_message
  after_message-keeps j r n h = ground arith

  invoke_buffer-keeps :
      IsKept
      → (j : ℕ) (buffer : List M) (n : Node M) (w : W) → P w
      → P (invoke_buffer p j buffer n w).1
  unfolding invoke_buffer
  invoke_buffer-keeps kept j [] n w h = h
  invoke_buffer-keeps kept j (m ∷ rest) n w h =
      after_message-keeps j (p.on_message j m w) n (kept.on_message j m w h)

  stands :
      (s : System M W) → (s.pc ≡ testing) ⊎ (s.pc ≡ consuming) → (spin_move p s).world ≡ s.world
  unfolding spin_move consume is_closed
  stands s (inl e) = ground arith
  stands s (inr e) = ground arith

  spin_move-keeps :
      IsKept → (pc : Pc) (s : System M W) → s.pc ≡ pc → P s.world → P (spin_move p s).world
  unfolding spin_move invoke consume is_closed close
  spin_move-keeps kept testing s e h = subst P (sym (stands s (inl e))) h
  spin_move-keeps kept consuming s e h = subst P (sym (stands s (inr e))) h
  spin_move-keeps kept closing s e h = rw e h
  spin_move-keeps kept ended s e h = rw e h
  spin_move-keeps kept (invoking none) s e h = rw e h
  spin_move-keeps kept (invoking (some (timer t))) s e h = rw e (kept.on_timer t s.world h)
  spin_move-keeps kept (invoking (some (subscription j))) s e h =
      rw e (invoke_buffer-keeps kept j (s.node.buffers j) s.node s.world h)

  act-keeps : IsKept → (i : ℕ) (a : Act M) (s : System M W) → P s.world → P (act p i a s).world
  unfolding act
  act-keeps kept i spin s h = spin_move-keeps kept s.pc s refl h
  act-keeps kept i raise s h = h
  act-keeps kept i (event e) s h = h

  pub run-keeps :
      IsKept → (i : ℕ) (acts : List (Act M)) (s : System M W) → P s.world → P (run p i acts s).world
  unfolding run
  run-keeps kept i [] s h = h
  run-keeps kept i (a ∷ acts) s h = run-keeps kept i acts (act p i a s) (act-keeps kept i a s h)
