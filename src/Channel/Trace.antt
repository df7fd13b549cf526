-- ===== src/Channel/Trace.antt =====
-- What the channel promises its clients: a queue that keeps order, loses nothing that it accepted,
-- accepts nothing once it is closed, and never opens again.
use rcl_like_wrapper_for_fas.Base.{
  ◌≡◌, refl, ◌∙◌, ap, sym, Bool, true, false, none, some, List, [], ◌∷◌, ◌++◌, append-nil,
  append_assoc, ◌||◌,
}
use rcl_like_wrapper_for_fas.Channel.{
  Channel, Consumed, waits, finished, took, produce, consume, consume_nowait, close,
}

-- A call by some thread.
pub data Op {ℓ} (A : Type ℓ) : Type ℓ where
  produces : A → Op A
  takes : Op A
  closes : Op A

module _ {ℓ} {A : Type ℓ} where
  -- A run of calls in the order in which they get the mutex: the values taken, and the channel.
  unfoldable pub run : List (Op A) → Channel A → List A × Channel A
  run [] c = ([], c)
  run (produces x ∷ ops) c = run ops (produce x c)
  run (closes ∷ ops) c = run ops (close c)
  run (takes ∷ ops) c = elim (consume_nowait c) [
    | none ↦ run ops c
    | some (x, c') ↦ let (xs, last) = run ops c' in (x ∷ xs, last)
  ]

  -- The values produced before the first `close`, with no channel in sight.
  unfoldable pub accepted : Bool → List (Op A) → List A
  accepted closed [] = []
  accepted true (produces x ∷ ops) = accepted true ops
  accepted false (produces x ∷ ops) = x ∷ accepted false ops
  accepted closed (takes ∷ ops) = accepted closed ops
  accepted closed (closes ∷ ops) = accepted true ops

  abbrev pub closes_in : List (Op A) → Bool
  closes_in [] = false
  closes_in (produces x ∷ ops) = closes_in ops
  closes_in (takes ∷ ops) = closes_in ops
  closes_in (closes ∷ ops) = true

  -- The three outcomes of `consume`, read off the fields.
  abbrev pub Outcome : Channel A → Consumed A → Type ℓ
  Outcome c waits = (c.queue ≡ []) × (c.closed ≡ false)
  Outcome c finished = (c.queue ≡ []) × (c.closed ≡ true)
  Outcome c (took x c') = (c.queue ≡ x ∷ c'.queue) × (c'.closed ≡ c.closed)

  -- A blocking `consume` waits exactly on an open empty channel, returns false exactly on a closed
  -- empty one, and otherwise takes the front of the queue and leaves the flag alone.
  consume-Outcome : (c : Channel A) → Outcome c (consume c)
  unfolding consume
  consume-Outcome c = by_queue c.queue c.closed refl refl
    where
      by_queue :
          (q : List A) (b : Bool)
          → c.queue ≡ q
          → c.closed ≡ b
          → Outcome c (consume (record { queue = q; closed = b }))
      by_queue [] false e f = (e, f)
      by_queue [] true e f = (e, f)
      by_queue (x ∷ xs) b e f = (e, sym f)

  abbrev Fifo : List A → Bool → List (Op A) → List A × Channel A → Type ℓ
  Fifo q b ops (xs, last) =
      (xs ++ last.queue ≡ q ++ accepted b ops) × (last.closed ≡ (b || closes_in ops))

  Fifo-fields :
      (ops : List (Op A)) (q : List A) (b : Bool)
      → Fifo q b ops (run ops (record { queue = q; closed = b }))
  unfolding run produce close accepted consume_nowait
  Fifo-fields [] q true = (rw append-nil, refl)
  Fifo-fields [] q false = (rw append-nil, refl)
  Fifo-fields (produces x ∷ ops) q true = Fifo-fields ops q true
  Fifo-fields (produces x ∷ ops) q false =
      let (order, flag) = Fifo-fields ops (q ++ (x ∷ [])) false in
      (order ∙ append_assoc q (x ∷ []) (accepted false ops), flag)
  Fifo-fields (closes ∷ ops) q true = Fifo-fields ops q true
  Fifo-fields (closes ∷ ops) q false = Fifo-fields ops q true
  Fifo-fields (takes ∷ ops) [] true = Fifo-fields ops [] true
  Fifo-fields (takes ∷ ops) [] false = Fifo-fields ops [] false
  Fifo-fields (takes ∷ ops) (x ∷ q) true =
      let (order, flag) = Fifo-fields ops q true in (ap (◌∷◌ x) order, flag)
  Fifo-fields (takes ∷ ops) (x ∷ q) false =
      let (order, flag) = Fifo-fields ops q false in (ap (◌∷◌ x) order, flag)

  -- For every run of calls from any state: what was taken, followed by what is still queued, is
  -- the old queue followed by what was produced while the channel was open, in order; and the
  -- channel is closed afterwards exactly if it was before or some call closed it.
  pub run-Fifo :
      (ops : List (Op A)) (c : Channel A)
      → ((run ops c).0 ++ (run ops c).1.queue ≡ c.queue ++ accepted c.closed ops)
        × ((run ops c).1.closed ≡ (c.closed || closes_in ops))
  run-Fifo ops c = Fifo-fields ops c.queue c.closed
