-- ===== src/Node/Spin/Inbox.antt =====
-- The channel and the message buffers are filled by two separate writes of a listener and emptied by
-- two separate reads. They never fall out of step in the direction that would matter: no queued
-- callback finds its buffer empty.
use rcl_like_wrapper_for_fas.Base.{
  ℕ, suc, ◌+◌, ◌-◌, update, ◌≤◌, ◌<◌, ◌≡◌, refl, true, false, Option, none, some, List, [], ◌∷◌,
  ◌++◌, arith, length, length-append, if◌then◌else◌, ◌==◌,
}
use rcl_like_wrapper_for_fas.Channel.{Channel, produce, consume, close, is_closed}
use rcl_like_wrapper_for_fas.Subscriber.{
  Callback, subscription, timer, Sample, not_ok, sample, Write, emplace_back, announce, writes_of,
  write, on_data_available, erase_begin,
}
use rcl_like_wrapper_for_fas.Node.{
  Node, Event, arrives, fires, stops, Program, happen, happen_all, invoke, invoke_buffer,
  after_message,
}
use rcl_like_wrapper_for_fas.Node.Spin.{
  System, Pc, testing, consuming, closing, ended, invoking, spin_move, spins, happens, raises,
}
use rcl_like_wrapper_for_fas.Node.Spin as spin
use rcl_like_wrapper_for_fas.Node.Spin.Threads.{
  Threads, write_node, Step, moves, takes, writes, Reach, here, next,
}

-- How many of these calls are for subscriber `i`.
abbrev pub calls : ℕ → Option Callback → ℕ
calls i none = 0
calls i (some (timer t)) = 0
calls i (some (subscription j)) = if j == i then 1 else 0

abbrev pub pending : ℕ → List (Option Callback) → ℕ
pending i [] = 0
pending i (c ∷ cs) = calls i c + pending i cs

-- The callback that the spinning thread has taken and not yet invoked.
abbrev pub in_hand : ℕ → Pc → ℕ
in_hand i (invoking c) = calls i c
in_hand i _ = 0

module _ {M : Type 0} where
  -- Beside `extra` calls of subscriber `i` in hand, there is a message for every queued one.
  abbrev pub Stocked : ℕ → ℕ → Node M → Type 0
  Stocked i extra n = extra + pending i n.channel.queue ≤ length (n.buffers i)

pending-append :
    (i : ℕ) (xs ys : List (Option Callback)) → pending i (xs ++ ys) ≡ pending i xs + pending i ys
pending-append i [] ys = omega arith
pending-append i (x ∷ xs) ys = omega (arith, pending-append i xs ys)

pending-produce :
    (i : ℕ) (c : Option Callback) (ch : Channel (Option Callback))
    → pending i (produce c ch).queue ≤ pending i ch.queue + calls i c
unfolding produce
pending-produce i c ch = ground (arith, pending-append i ch.queue (c ∷ []))

non_empty {ℓ} :
    {A : Type ℓ} (xs : List A) → 0 < length xs → (x : A) × (rest : List A) × (xs ≡ x ∷ rest)
non_empty [] h = absurd (omega arith)
non_empty (x ∷ xs) h = (x, xs, refl)

module _ {M : Type 0} (i : ℕ) where
  happen-Stocked :
      (e : Event M) (extra : ℕ) (n : Node M) → Stocked i extra n → Stocked i extra (happen e n)
  unfolding happen on_data_available close
  happen-Stocked (arrives j not_ok) extra n h = ground arith
  happen-Stocked (arrives j (sample m false)) extra n h = ground arith
  happen-Stocked (arrives j (sample m true)) extra n h = ground (
    arith,
    pending-produce i (some (subscription j)) n.channel,
    length-append (n.buffers j) (m ∷ []),
  )
  happen-Stocked (fires t) extra n h = omega (arith, pending-produce i (some (timer t)) n.channel)
  happen-Stocked stops extra n h = h

  happen_all-Stocked :
      (es : List (Event M)) (extra : ℕ) (n : Node M)
      → Stocked i extra n
      → Stocked i extra (happen_all es n)
  unfolding happen_all
  happen_all-Stocked [] extra n h = h
  happen_all-Stocked (e ∷ es) extra n h =
      happen_all-Stocked es extra (happen e n) (happen-Stocked e extra n h)

module _ {M : Type 0} where
  -- How many more calls than messages the writes before a listener still bring.
  abbrev pub owed : List (Write M) → ℕ
  owed [] = 0
  owed (emplace_back m ∷ xs) = owed xs - 1
  owed (announce ∷ xs) = suc (owed xs)

  writes_of-owed : (x : Sample M) → owed (writes_of x) ≡ 0
  unfolding writes_of
  writes_of-owed not_ok = refl
  writes_of-owed (sample m false) = refl
  writes_of-owed (sample m true) = refl

module _ {M W : Type 0} (p : Program M W) (i : ℕ) (k : ℕ) where
  invoke_buffer-Stocked :
      (j : ℕ) (buffer : List M) (n : Node M) (w : W)
      → n.buffers j ≡ buffer
      → Stocked i (k + calls i (some (subscription j))) n
      → Stocked i k (invoke_buffer p j buffer n w).0
  unfolding invoke_buffer after_message erase_begin
  invoke_buffer-Stocked j [] n w e h = omega arith
  invoke_buffer-Stocked j (m ∷ rest) n w e h =
      let r = p.on_message j m w in
      ground (arith, happen_all-Stocked i r.during (k + calls i (some (subscription j))) n h)

  -- What has been taken and what is queued for subscriber `i`, and `k` more, is matched by messages.
  IsStocked : System M W → Type 0
  IsStocked s = Stocked i (k + in_hand i s.pc) s.node

  consume-Stocked :
      (q : List (Option Callback)) (s : System M W)
      → s.node.channel.queue ≡ q
      → s.pc ≡ consuming
      → IsStocked s
      → IsStocked (spin_move p s)
  unfolding spin_move consume IsStocked
  consume-Stocked q s e f h = ground arith

  invoke-Stocked :
      (c : Option Callback) (s : System M W)
      → s.pc ≡ invoking c
      → IsStocked s
      → IsStocked (spin_move p s)
  unfolding spin_move invoke IsStocked
  invoke-Stocked none s e h = ground arith
  invoke-Stocked (some (timer t)) s e h =
      ground (arith, happen_all-Stocked i (p.on_timer t s.world).during k s.node)
  invoke-Stocked (some (subscription j)) s e h =
      ground (arith, invoke_buffer-Stocked j (s.node.buffers j) s.node s.world refl)

  spin_move-IsStocked :
      (pc : Pc) (s : System M W) → s.pc ≡ pc → IsStocked s → IsStocked (spin_move p s)
  unfolding spin_move close is_closed IsStocked
  spin_move-IsStocked testing s e h = ground arith
  spin_move-IsStocked consuming s e h = consume-Stocked s.node.channel.queue s refl e h
  spin_move-IsStocked closing s e h = ground arith
  spin_move-IsStocked ended s e h = ground arith
  spin_move-IsStocked (invoking c) s e h = invoke-Stocked c s e h

  move-IsStocked : {s t : System M W} → spin.Step p s t → IsStocked s → IsStocked t
  unfolding IsStocked
  move-IsStocked {s} spins h = spin_move-IsStocked s.pc s refl h
  move-IsStocked {s} (happens e) h = happen-Stocked i e (k + in_hand i s.pc) s.node h
  move-IsStocked raises h = h

module _ {M W : Type 0} (p : Program M W) (i : ℕ) where
  -- Beside the calls that the listener of `i` has still to announce, each taken or queued call has its
  -- message.
  abbrev pub IsFilled : Threads M W → Type 0
  IsFilled s = Stocked i (owed (s.left i) + in_hand i s.system.pc) s.system.node

  write-IsFilled :
      (j : ℕ) (x : Write M) (xs : List (Write M)) (extra : ℕ) (left : ℕ → List (Write M))
      (n : Node M)
      → left j ≡ x ∷ xs
      → Stocked i (owed (left i) + extra) n
      → Stocked i (owed (update left j xs i) + extra) (write_node j x n)
  unfolding write_node write
  write-IsFilled j (emplace_back m) xs extra left n e h =
      ground (arith, length-append (n.buffers j) (m ∷ []))
  write-IsFilled j announce xs extra left n e h =
      ground (arith, pending-produce i (some (subscription j)) n.channel)

  Step-IsFilled : {s t : Threads M W} → Step p s t → IsFilled s → IsFilled t
  unfolding IsStocked
  Step-IsFilled {s} (moves st) h = move-IsStocked p i (owed (s.left i)) st h
  Step-IsFilled {s} (takes j x e) h = ground (arith, writes_of-owed x)
  Step-IsFilled {s} (writes j x xs e) h =
      write-IsFilled j x xs (in_hand i s.system.pc) s.left s.system.node e h

  Reach-IsFilled : {s t : Threads M W} → IsFilled s → Reach p s t → IsFilled t
  Reach-IsFilled h here = h
  Reach-IsFilled h (next r st) = Step-IsFilled st (Reach-IsFilled h r)

  -- When the spinning thread is about to invoke the callback of subscriber `i`, the message buffer
  -- of `i` is not empty: in every state reachable from one in which each taken or queued call of
  -- `i`, and each that its listener is about to announce, has its message, whatever arrives, fires,
  -- throws or closes in between, also between the two writes of a listener.
  pub Reach-buffer :
      {s t : Threads M W}
      → IsFilled s
      → Reach p s t
      → t.system.pc ≡ invoking (some (subscription i))
      → (m : M) × (rest : List M) × (t.system.node.buffers i ≡ m ∷ rest)
  Reach-buffer {t} h r e =
      let filled = Reach-IsFilled h r in
      non_empty (t.system.node.buffers i) (ground (arith, filled))
