-- ===== src/Node/Spin/Delivery/World.antt =====
-- What the user's functions make of their world over any schedule.
use rcl_like_wrapper_for_fas.Base.{
  ℕ, ◌≡◌, ◌⊎◌, inl, inr, refl, sym, ap, ◌∙◌, true, false, none, some, List, [], ◌∷◌, ◌++◌, ◌==◌,
  if◌then◌else◌, arith,
}
use rcl_like_wrapper_for_fas.Channel.{close, is_closed, consume}
use rcl_like_wrapper_for_fas.Subscriber.{subscription, timer}
use rcl_like_wrapper_for_fas.Node.{Node, Program, invoke, invoke_buffer, after_message}
use rcl_like_wrapper_for_fas.Node.Spin.{
  System, Pc, testing, consuming, closing, ended, invoking, spin_move,
}
use rcl_like_wrapper_for_fas.Node.Spin.Delivery.{
  Act, spin, raise, event, act, run, handled, handled_message, handled_move, handled_act,
}

eq_or_ne : (j i : ℕ) → (j ≡ i) ⊎ ((j == i) ≡ false)
eq_or_ne j i = ground arith

module _ {M W : Type 0} (p : Program M W) where
  -- Only the function of subscriber `i` changes the world, and it leaves it alone when it throws.
  pub record IsOnly (i : ℕ) : Type 0 where
    pub on_timer : (t : ℕ) (w : W) → (p.on_timer t w).world ≡ w
    pub on_other : (j : ℕ) (m : M) (w : W) → (j == i) ≡ false → (p.on_message j m w).world ≡ w
    pub on_throw :
        (m : M) (w : W) → (p.on_message i m w).threw ≡ true → (p.on_message i m w).world ≡ w

  -- Its function, on one message after the other.
  abbrev pub fold : ℕ → List M → W → W
  fold i [] w = w
  fold i (m ∷ ms) w = fold i ms (p.on_message i m w).world

  fold-append : (i : ℕ) (ms ns : List M) (w : W) → fold i (ms ++ ns) w ≡ fold i ns (fold i ms w)
  fold-append i [] ns w = refl
  fold-append i (m ∷ ms) ns w = fold-append i ms ns (p.on_message i m w).world

  after_message-world :
      (i : ℕ)
      → IsOnly i
      → (j : ℕ) (m : M) (rest : List M) (n : Node M) (w : W)
      → (after_message p j (p.on_message j m w) n).1
        ≡ fold i (if j == i then handled_message p i (m ∷ rest) w else []) w
  unfolding after_message handled_message
  after_message-world i only j m rest n w = elim (eq_or_ne j i) [
    | inl e ↦ rw e (ground (arith, only.on_throw m w))
    | inr d ↦ ground (arith, only.on_other j m w)
  ]

  invoke_buffer-world :
      (i : ℕ)
      → IsOnly i
      → (j : ℕ) (buffer : List M) (n : Node M) (w : W)
      → (invoke_buffer p j buffer n w).1
        ≡ fold i (if j == i then handled_message p i buffer w else []) w
  unfolding invoke_buffer handled_message
  invoke_buffer-world i only j [] n w = ground arith
  invoke_buffer-world i only j (m ∷ rest) n w = after_message-world i only j m rest n w

  spin_move-world :
      (i : ℕ)
      → IsOnly i
      → (pc : Pc) (s : System M W) → s.pc ≡ pc
      → (spin_move p s).world ≡ fold i (handled_move p i pc s) s.world
  unfolding spin_move handled_move invoke consume is_closed close
  spin_move-world i only testing s e = ground arith
  spin_move-world i only consuming s e = ground arith
  spin_move-world i only closing s e = ground arith
  spin_move-world i only ended s e = ground arith
  spin_move-world i only (invoking none) s e = ground arith
  spin_move-world i only (invoking (some (timer t))) s e = ground (arith, only.on_timer t s.world)
  spin_move-world i only (invoking (some (subscription j))) s e =
      ground (arith, invoke_buffer-world i only j (s.node.buffers j) s.node s.world)

  act-world :
      (i : ℕ)
      → IsOnly i
      → (a : Act M) (s : System M W) → (act p i a s).world ≡ fold i (handled_act p i a s) s.world
  unfolding act handled_act
  act-world i only spin s = spin_move-world i only s.pc s refl
  act-world i only raise s = refl
  act-world i only (event e) s = refl

  -- Over every schedule, the world is what the function of the one subscriber makes of the messages
  -- that it has handled, in their order.
  pub run-world :
      (i : ℕ)
      → IsOnly i
      → (acts : List (Act M)) (s : System M W)
      → (run p i acts s).world ≡ fold i (handled p i acts s) s.world
  unfolding run handled
  run-world i only [] s = refl
  run-world i only (a ∷ acts) s =
      run-world i only acts (act p i a s)
      ∙ ap (fold i (handled p i acts (act p i a s))) (act-world i only a s)
      ∙ sym (fold-append i (handled_act p i a s) (handled p i acts (act p i a s)) s.world)
