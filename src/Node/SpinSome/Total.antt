-- ===== src/Node/SpinSome/Total.antt =====
-- `spin_some` returns, with nothing left in the channel, whenever the callbacks bring in only
-- finitely much work of their own.
use rcl_like_wrapper_for_fas.Base.{
  ℕ, zero, suc, ◌+◌, ◌≤◌, ◌<◌, ◌≡◌, refl, Bool, true, false, Option, none, some, List, [], ◌∷◌,
  ◌++◌, arith, All, length, length-append, Bool-cases, inl, inr,
}
use rcl_like_wrapper_for_fas.Channel.{Channel, produce, consume_nowait, close}
use rcl_like_wrapper_for_fas.Subscriber.{
  Callback, subscription, timer, not_ok, sample, on_data_available,
}
use rcl_like_wrapper_for_fas.Node.{
  Node, Event, arrives, fires, stops, Program, happen, happen_all, invoke, invoke_buffer,
  after_message,
}
use rcl_like_wrapper_for_fas.Node.SpinSome.{returned, drain, spin_some}

-- Every pointer in a queue is the `get()` of an object that its owner made.
abbrev pub IsObject : Option Callback → Type 0
IsObject none = ⊥
IsObject (some c) = Unit

abbrev pub HasObjects : {M : Type 0} → Node M → Type 0
HasObjects n = All IsObject n.channel.queue

All-append :
    (xs ys : List (Option Callback)) → All IsObject xs → All IsObject ys → All IsObject (xs ++ ys)
All-append [] ys h k = k
All-append (x ∷ xs) ys h k = (h.0, All-append xs ys h.1 k)

produce-queue :
    (callback : Callback) (c : Channel (Option Callback))
    → All IsObject c.queue
    → (length (produce (some callback) c).queue ≤ length c.queue + 1)
      × All IsObject (produce (some callback) c).queue
unfolding produce
produce-queue k c h = elim (Bool-cases c.closed) [
  | inl shut ↦ rw shut (omega arith, h)
  | inr opened ↦
      rw opened
        (omega (arith, length-append c.queue (some k ∷ [])), All-append c.queue _ h (tt, tt))
]

module _ {M : Type 0} where
  -- What an event does to a queue: at most one more callback, and no null pointer.
  happen-queue :
      (e : Event M) (n : Node M)
      → HasObjects n
      → (length (happen e n).channel.queue ≤ length n.channel.queue + 1) × HasObjects (happen e n)
  unfolding happen on_data_available close
  happen-queue (arrives i not_ok) n h = (omega arith, h)
  happen-queue (arrives i (sample m false)) n h = (omega arith, h)
  happen-queue (arrives i (sample m true)) n h = produce-queue (subscription i) n.channel h
  happen-queue (fires t) n h = produce-queue (timer t) n.channel h
  happen-queue stops n h = (omega arith, h)

  pub happen_all-queue :
      (es : List (Event M)) (n : Node M)
      → HasObjects n
      → (length (happen_all es n).channel.queue ≤ length n.channel.queue + length es)
        × HasObjects (happen_all es n)
  unfolding happen_all
  happen_all-queue [] n h = (omega arith, h)
  happen_all-queue (e ∷ es) n h =
      let (one, kept) = happen-queue e n h in
      let (more, all) = happen_all-queue es (happen e n) kept in (omega arith, all)

module _ {M W : Type 0} (p : Program M W) where
  drain_empty :
      (fuel : ℕ) (n : Node M) (w : W) (ev : Bool)
      → n.channel.queue ≡ []
      → drain p (suc fuel) n w ev ≡ returned (n, w, ev)
  unfolding drain consume_nowait
  drain_empty fuel n w ev e = ground arith

  pub spin_some_after :
      (fuel : ℕ) (n n' : Node M) (w w' : W) (ev : Bool)
      → drain p (suc (suc fuel)) n w false ≡ returned (n', w', ev)
      → n'.channel.queue ≡ []
      → spin_some p (suc (suc fuel)) n w ≡ returned (n', w')
  unfolding spin_some
  spin_some_after fuel n n' w w' false e q = rw (e, spin_some)
  spin_some_after fuel n n' w w' true e q = rw (e, spin_some) (rw (drain_empty fuel n' w' false q))

-- The callbacks bring in only finitely much work: each call, counted with the budget that it
-- leaves, stays within the budget that it finds.
pub record IsFrugal {M W : Type 0} (p : Program M W) (budget : W → ℕ) : Type 0 where
  pub message :
      (i : ℕ) (m : M) (w : W)
      → length (p.on_message i m w).during + budget (p.on_message i m w).world ≤ budget w
  pub tick :
      (t : ℕ) (w : W) → length (p.on_timer t w).during + budget (p.on_timer t w).world ≤ budget w

module _ {M W : Type 0} (p : Program M W) (budget : W → ℕ) (frugal : IsFrugal p budget) where
  -- The work that is left: what is queued, and what may still come.
  abbrev load : Node M → W → ℕ
  load n w = length n.channel.queue + budget w

  invoke_buffer-load :
      (i : ℕ) (buffer : List M) (n : Node M) (w : W)
      → HasObjects n
      → (load (invoke_buffer p i buffer n w).0 (invoke_buffer p i buffer n w).1 ≤ load n w)
        × HasObjects (invoke_buffer p i buffer n w).0
  unfolding invoke_buffer after_message
  invoke_buffer-load i [] n w h = (omega arith, h)
  invoke_buffer-load i (m ∷ rest) n w h =
      let r = p.on_message i m w in
      let (few, all) = happen_all-queue r.during n h in
      elim (Bool-cases r.threw) [
        | inl e ↦ rw e (omega (arith, frugal.message i m w), all)
        | inr e ↦ rw e (omega (arith, frugal.message i m w), all)
      ]

  invoke-load :
      (k : Callback) (n : Node M) (w : W)
      → HasObjects n
      → (load (invoke p k n w).0 (invoke p k n w).1 ≤ load n w) × HasObjects (invoke p k n w).0
  unfolding invoke
  invoke-load (subscription i) n w h = invoke_buffer-load i (n.buffers i) n w h
  invoke-load (timer t) n w h =
      let r = p.on_timer t w in
      let (few, all) = happen_all-queue r.during n h in (omega (arith, frugal.tick t w), all)

  -- The inner loop leaves the channel empty.
  drain-returns :
      (fuel : ℕ) (q : List (Option Callback)) (b : Bool) (bufs : ℕ → List M) (w : W) (ev : Bool)
      → All IsObject q
      → length q + budget w < fuel
      → (n' : Node M) × (w' : W) × (ev' : Bool) × (drain p fuel
            (record { channel = record { queue = q; closed = b }; buffers = bufs })
            w
            ev
          ≡ returned (n', w', ev'))
        × (n'.channel.queue ≡ [])
  unfolding drain consume_nowait
  drain-returns zero q b bufs w ev h lt = absurd (omega arith)
  drain-returns (suc fuel) [] b bufs w ev h lt = (_, _, _, refl, refl)
  drain-returns (suc fuel) (none ∷ q) b bufs w ev h lt = absurd h.0
  drain-returns (suc fuel) (some k ∷ q) b bufs w ev h lt =
      let n : Node M = record { channel = record { queue = q; closed = b }; buffers = bufs } in
      let (less, kept) = invoke-load k n w h.1 in
      let (n', w') = invoke p k n w in
      drain-returns fuel n'.channel.queue n'.channel.closed n'.buffers w' true kept (omega arith)

  -- `spin_some` returns with the channel empty: with no null pointer queued and callbacks that
  -- bring in only finitely much work, fuel above the load is enough for both loops.
  pub spin_some-returns :
      (fuel : ℕ) (n : Node M) (w : W)
      → HasObjects n
      → length n.channel.queue + budget w < suc (suc fuel)
      → (n' : Node M) × (w' : W) × (spin_some p (suc (suc fuel)) n w ≡ returned (n', w'))
        × (n'.channel.queue ≡ [])
  spin_some-returns fuel n w h lt =
      let (n', w', ev, e, q) =
        drain-returns (suc (suc fuel)) n.channel.queue n.channel.closed n.buffers w false h lt in
      (n', w', spin_some_after p fuel n n' w w' ev e q, q)
