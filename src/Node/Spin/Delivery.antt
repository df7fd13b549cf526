-- ===== src/Node/Spin/Delivery.antt =====
-- Which messages reach a subscriber's function, over any schedule of the spinning thread and the
-- threads that feed it.
pub mod World
pub mod Keeps
use rcl_like_wrapper_for_fas.Base.{
  ℕ, ◌≡◌, refl, ◌∙◌, ap, sym, true, false, none, some, List, [], ◌∷◌, ◌++◌, arith, if◌then◌else◌,
  ◌==◌, append-nil, append_assoc,
}
use rcl_like_wrapper_for_fas.Channel.{close, is_closed, consume}
use rcl_like_wrapper_for_fas.Subscriber.{
  subscription, timer, not_ok, sample, on_data_available, erase_begin,
}
use rcl_like_wrapper_for_fas.Node.{
  Node, Event, arrives, fires, stops, Program, happen, happen_all, invoke, invoke_buffer,
  after_message,
}
use rcl_like_wrapper_for_fas.Node.Spin.{
  System, Pc, testing, consuming, closing, ended, invoking, spin_move,
}

-- One turn of a schedule.
pub data Act (M : Type 0) : Type 0 where
  spin raise : Act M
  event : Event M → Act M

module _ {M : Type 0} (i : ℕ) where
  -- The valid samples that these events bring to subscriber `i`.
  unfoldable pub arrivals : List (Event M) → List M
  arrivals [] = []
  arrivals (arrives j (sample m true) ∷ es) =
      let rest = arrivals es in if j == i then m ∷ rest else rest
  arrivals (_ ∷ es) = arrivals es

  happen-buffer :
      (e : Event M) (n : Node M) → (happen e n).buffers i ≡ n.buffers i ++ arrivals (e ∷ [])
  unfolding happen on_data_available arrivals close
  happen-buffer (arrives j not_ok) n = ground (arith, append-nil (n.buffers i))
  happen-buffer (arrives j (sample m false)) n = ground (arith, append-nil (n.buffers i))
  happen-buffer (arrives j (sample m true)) n = ground (arith, append-nil (n.buffers i))
  happen-buffer (fires t) n = sym (append-nil (n.buffers i))
  happen-buffer stops n = sym (append-nil (n.buffers i))

  arrivals-cons :
      (e : Event M) (es : List (Event M)) → arrivals (e ∷ es) ≡ arrivals (e ∷ []) ++ arrivals es
  unfolding arrivals
  arrivals-cons (arrives j (sample m true)) es = ground arith
  arrivals-cons (arrives j (sample m false)) es = refl
  arrivals-cons (arrives j not_ok) es = refl
  arrivals-cons (fires t) es = refl
  arrivals-cons stops es = refl

  happen_all-buffer :
      (es : List (Event M)) (n : Node M) → (happen_all es n).buffers i ≡ n.buffers i ++ arrivals es
  unfolding happen_all arrivals
  happen_all-buffer [] n = sym (append-nil (n.buffers i))
  happen_all-buffer (e ∷ es) n =
      happen_all-buffer es (happen e n)
      ∙ ap (λ b. b ++ arrivals es) (happen-buffer e n)
      ∙ append_assoc (n.buffers i) (arrivals (e ∷ [])) (arrivals es)
      ∙ ap (◌++◌ (n.buffers i)) (sym (arrivals-cons e es))

module _ {M W : Type 0} (p : Program M W) (i : ℕ) where
  -- What happens to the node during the next move of the spinning thread.
  during_message : ℕ → List M → W → List (Event M)
  during_message j [] w = []
  during_message j (m ∷ rest) w = (p.on_message j m w).during

  during : Pc → System M W → List (Event M)
  unfolding during_message
  during (invoking (some (subscription j))) s = during_message j (s.node.buffers j) s.world
  during (invoking (some (timer t))) s = (p.on_timer t s.world).during
  during _ s = []

  -- The message of subscriber `i` that this move hands to the user's function and that is done
  -- with: the function returned.
  handled_message : List M → W → List M
  handled_message [] w = []
  handled_message (m ∷ rest) w = if (p.on_message i m w).threw then [] else m ∷ []

  handled_move : Pc → System M W → List M
  unfolding handled_message
  handled_move (invoking (some (subscription j))) s =
      if j == i then handled_message (s.node.buffers j) s.world else []
  handled_move _ s = []

  abbrev Moved : System M W → System M W → List M → List M → Type 0
  Moved s t heard handled = s.node.buffers i ++ heard ≡ handled ++ t.node.buffers i

  invoke_buffer-handled :
      (j : ℕ) (buffer : List M) (n : Node M) (w : W)
      → n.buffers j ≡ buffer
      → n.buffers i ++ arrivals i (during_message j buffer w)
        ≡ (if j == i then handled_message buffer w else [])
          ++ (invoke_buffer p j buffer n w).0.buffers i
  unfolding during_message handled_message invoke_buffer after_message arrivals erase_begin
  invoke_buffer-handled j [] n w e = ground (arith, append-nil (n.buffers i))
  invoke_buffer-handled j (m ∷ rest) n w e =
      ground (arith, happen_all-buffer i (p.on_message j m w).during n)

  unfoldable pub act : Act M → System M W → System M W
  act spin s = spin_move p s
  act raise s = record s { global_stop_flag = true }
  act (event e) s = record s { node = happen e s.node }

  unfoldable pub run : List (Act M) → System M W → System M W
  run [] s = s
  run (a ∷ acts) s = run acts (act a s)

  heard_act : Act M → System M W → List M
  unfolding arrivals during
  heard_act spin s = arrivals i (during s.pc s)
  heard_act raise s = []
  heard_act (event e) s = arrivals i (e ∷ [])

  handled_act : Act M → System M W → List M
  unfolding handled_move
  handled_act spin s = handled_move s.pc s
  handled_act raise s = []
  handled_act (event e) s = []

  -- The valid samples that reach subscriber `i` over a schedule.
  unfoldable pub heard : List (Act M) → System M W → List M
  unfolding heard_act
  heard [] s = []
  heard (a ∷ acts) s = heard_act a s ++ heard acts (act a s)

  -- The messages over which the function of subscriber `i` returned.
  unfoldable pub handled : List (Act M) → System M W → List M
  unfolding handled_act
  handled [] s = []
  handled (a ∷ acts) s = handled_act a s ++ handled acts (act a s)

  spin_move-handled :
      (pc : Pc) (s : System M W)
      → s.pc ≡ pc
      → Moved s (spin_move p s) (arrivals i (during pc s)) (handled_move pc s)
  unfolding spin_move during handled_move arrivals invoke consume is_closed close
  spin_move-handled testing s e = ground (arith, append-nil (s.node.buffers i))
  spin_move-handled consuming s e = ground (arith, append-nil (s.node.buffers i))
  spin_move-handled closing s e = ground (arith, append-nil (s.node.buffers i))
  spin_move-handled ended s e = ground (arith, append-nil (s.node.buffers i))
  spin_move-handled (invoking none) s e = ground (arith, append-nil (s.node.buffers i))
  spin_move-handled (invoking (some (timer t))) s e =
      ground (arith, happen_all-buffer i (p.on_timer t s.world).during s.node)
  spin_move-handled (invoking (some (subscription j))) s e =
      ground (arith, invoke_buffer-handled j (s.node.buffers j) s.node s.world refl)

  act-handled : (a : Act M) (s : System M W) → Moved s (act a s) (heard_act a s) (handled_act a s)
  unfolding act heard_act handled_act
  act-handled spin s = spin_move-handled s.pc s refl
  act-handled raise s = append-nil (s.node.buffers i)
  act-handled (event e) s = sym (happen-buffer i e s.node)

  -- Over every schedule, what was buffered for a subscriber followed by the valid samples that
  -- reach it is the messages that its function has returned from, followed by what is buffered
  -- then: no message is lost, doubled or overtaken, whatever closes or throws in between.
  pub run-handled :
      (acts : List (Act M)) (s : System M W)
      → s.node.buffers i ++ heard acts s ≡ handled acts s ++ (run acts s).node.buffers i
  unfolding run heard handled
  run-handled [] s = append-nil (s.node.buffers i)
  run-handled (a ∷ acts) s =
      sym (append_assoc (s.node.buffers i) (heard_act a s) (heard acts (act a s)))
      ∙ ap (λ b. b ++ heard acts (act a s)) (act-handled a s)
      ∙ append_assoc (handled_act a s) ((act a s).node.buffers i) (heard acts (act a s))
      ∙ ap (◌++◌ (handled_act a s)) (run-handled acts (act a s))
      ∙ sym (append_assoc (handled_act a s) (handled acts (act a s)) _)
