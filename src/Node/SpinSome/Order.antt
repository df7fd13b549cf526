-- ===== src/Node/SpinSome/Order.antt =====
-- With callbacks that leave the node alone, `spin_some` runs what is queued, once, in order.
use rcl_like_wrapper_for_fas.Base.{
  ℕ, zero, suc, ◌<◌, ◌≡◌, refl, ap, sym, subst, Bool, true, false, Option, some, List, [], ◌∷◌,
  arith, length, map, Bool-cases, inl, inr,
}
use rcl_like_wrapper_for_fas.Channel.{consume_nowait}
use rcl_like_wrapper_for_fas.Subscriber.{Callback, subscription, timer}
use rcl_like_wrapper_for_fas.Node.{Node, Program, happen_all, invoke, invoke_buffer, after_message}
use rcl_like_wrapper_for_fas.Node.SpinSome.{returned, drain, spin_some}
use rcl_like_wrapper_for_fas.Node.SpinSome.Total.{spin_some_after}

module _ {M W : Type 0} (p : Program M W) where
  -- The queued callbacks, one after the other, as a fold.
  unfoldable pub replay : List Callback → Node M → W → Node M × W
  replay [] n w = (n, w)
  replay (k ∷ ks) n w = let (n', w') = invoke p k n w in replay ks n' w'

  -- No callback of the program lets anything happen to the node.
  pub record IsCalm : Type 0 where
    pub message : (i : ℕ) (m : M) (w : W) → (p.on_message i m w).during ≡ []
    pub tick : (t : ℕ) (w : W) → (p.on_timer t w).during ≡ []

  abbrev pub with_queue : List (Option Callback) → Node M → Node M
  with_queue q n = record n { channel = record { queue = q; closed = n.channel.closed } }

  module _ (calm : IsCalm) where
    -- A calm callback neither reads nor writes the queue.
    invoke-with_queue :
        (q : List (Option Callback)) (k : Callback) (n : Node M) (w : W)
        → invoke p k (with_queue q n) w
          ≡ (with_queue q (invoke p k (with_queue [] n) w).0, (invoke p k (with_queue [] n) w).1)
    unfolding invoke happen_all after_message
    invoke-with_queue q (subscription i) n w = by_buffer (n.buffers i)
      where
        by_buffer :
            (buffer : List M)
            → invoke_buffer p i buffer (with_queue q n) w ≡ (
              with_queue q (invoke_buffer p i buffer (with_queue [] n) w).0,
              (invoke_buffer p i buffer (with_queue [] n) w).1,
            )
        by_buffer [] = refl
        by_buffer (m ∷ rest) = elim (Bool-cases (p.on_message i m w).threw) [
          | inl e ↦ rw (e, after_message) (rw (calm.message i m w, happen_all))
          | inr e ↦ rw (e, after_message) (rw (calm.message i m w, happen_all))
        ]
    invoke-with_queue q (timer t) n w = rw (calm.tick t w, happen_all)

    abbrev Replays : List Callback → ℕ → Node M → Node M → W → Bool → Type 0
    Replays ks fuel n from w ev =
        (ev' : Bool) × (drain p fuel (with_queue (map some ks) n) w ev
          ≡ returned ((replay ks from w).0, (replay ks from w).1, ev'))
        × ((replay ks from w).0.channel.queue ≡ [])

    drain-replay :
        (ks : List Callback) (fuel : ℕ) (n : Node M) (w : W) (ev : Bool)
        → length ks < fuel
        → Replays ks fuel n (with_queue [] n) w ev
    unfolding drain consume_nowait replay
    drain-replay ks zero n w ev lt = absurd (omega arith)
    drain-replay [] (suc fuel) n w ev lt = (ev, refl, refl)
    drain-replay (k ∷ ks) (suc fuel) n w ev lt =
        let (n', w') = invoke p k (with_queue [] n) w in
        let keep : with_queue [] n' ≡ n' = sym (ap (λ r. r.0) (invoke-with_queue [] k n w)) in
        rw (invoke-with_queue (map some ks) k n w) (
          subst (λ from. Replays ks fuel n' from w' true) keep
            (drain-replay ks fuel n' w' true (omega arith)))

    -- With callbacks that leave the node alone, `spin_some` ends in the state that running the
    -- queued callbacks once each, first to last, leads to from the emptied channel.
    pub spin_some-replay :
        (ks : List Callback) (n : Node M) (w : W)
        → n.channel.queue ≡ map some ks
        → spin_some p (suc (suc (length ks))) n w ≡ returned (replay ks (with_queue [] n) w)
    spin_some-replay ks n w e =
        let (ev, run, q) = drain-replay ks (suc (suc (length ks))) n w false (omega arith) in
        let same : with_queue (map some ks) n ≡ n = ap (λ q. with_queue q n) (sym e) in
        let (n', w') = replay ks (with_queue [] n) w in
        spin_some_after p (length ks) n n' w w' ev
          (subst (λ z. drain p (suc (suc (length ks))) z w false ≡ returned (n', w', ev)) same run)
          q
