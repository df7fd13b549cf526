-- ===== src/App/Example/Rounds.antt =====
-- The loop of example_spin comes to its end, on the components that it uses.
use rcl_like_wrapper_for_fas.Base.{
  ℕ, suc, ◌+◌, ◌^◌, ◌<◌, ◌≤◌, ◌⊎◌, inl, inr, ◌≡◌, refl, sym, ap, subst, ◌∙◌, true, some, List, [],
  ◌∷◌, All, length, map, ltb, arith,
}
use rcl_like_wrapper_for_fas.Outcome.{done}
use rcl_like_wrapper_for_fas.Node.{Node, happen_all}
use rcl_like_wrapper_for_fas.Node.SpinSome.Total.{
  IsObject, HasObjects, IsFrugal, happen_all-queue, spin_some-returns,
}
use rcl_like_wrapper_for_fas.Rate.{Rate, wake_time, sleep, sleeps}
use rcl_like_wrapper_for_fas.Cyclic.Thread.{interval}
use rcl_like_wrapper_for_fas.App.Counts.{count_up}
use rcl_like_wrapper_for_fas.App.Example.{
  Round, Loop, Report, Printer, print, printing, total, after_sleep, after_spin, pass, loop,
}

ltb-true : {a b : ℕ} → a < b → ltb a b ≡ true
ltb-true h = ground arith

sleep-total :
    (r : Rate) (now : ℕ)
    → 0 < r.period
    → sleep r now ≡ some (wake_time r now, record r { next_time = wake_time r now + r.period })
unfolding sleep
sleep-total r now h = ground arith

sleeps-step :
    (rate rate' : Rate) (now t : ℕ) (nows ts : List ℕ)
    → sleep rate now ≡ some (t, rate')
    → sleeps rate' nows ≡ some ts
    → sleeps rate (now ∷ nows) ≡ some (t ∷ ts)
unfolding sleeps
sleeps-step rate rate' now t nows ts e f = rw (e, sleeps) (rw f refl)

module _ {M : Type 0} where
  abbrev budget : Printer M → ℕ
  budget w = total w.1

  print-budget :
      (m : M) (w : Printer M) → length (print m w).during + budget (print m w).world ≤ budget w
  unfolding print
  print-budget m (w, []) = omega arith
  print-budget m (w, es ∷ script) = omega arith

  printing-IsFrugal : IsFrugal (printing {M = M}) budget
  unfolding printing
  printing-IsFrugal = record { message = λ i m w. print-budget m w; tick = λ t w. omega arith }

  abbrev after : Round M → Loop M → Node M → List M → Rate → Loop M
  after r l n w rate = record {
    data_value = suc l.data_value;
    last_time = r.cur_time;
    rate = rate;
    node = n;
    printed = w;
  }

  abbrev told : Round M → Loop M → ℕ → Report
  told r l t = record {
    elapsed = interval r.cur_time l.last_time;
    stamp = l.data_value;
    slept_until = t;
  }

  after_sleep-done :
      (r : Round M) (l : Loop M) (n : Node M) (w : Printer M) (t : ℕ) (rate : Rate)
      → suc l.data_value < 2 ^ 31
      → after_sleep r l (n, w) (some (t, rate)) ≡ done (after r l n w.0 rate, told r l t)
  unfolding after_sleep
  after_sleep-done r l n w t rate b = rw (ltb-true b) refl

  -- A round ends with an empty channel.
  pass-returns :
      (r : Round M) (l : Loop M)
      → HasObjects l.node
      → 0 < l.rate.period
      → suc l.data_value < 2 ^ 31
      → (l' : Loop M) × (x : Report) × (pass r l ≡ done (l', x))
        × (x.stamp ≡ l.data_value)
        × (l'.data_value ≡ suc l.data_value)
        × (l'.node.channel.queue ≡ [])
        × (sleep l.rate r.steady ≡ some (x.slept_until, l'.rate))
        × (l'.rate.period ≡ l.rate.period)
  unfolding pass after_spin after_sleep
  pass-returns r l h k b =
      let n = happen_all r.arrived l.node in
      let (few, objects) = happen_all-queue r.arrived l.node h in
      let (n', w', e, q) =
        spin_some-returns printing budget printing-IsFrugal
          (length n.channel.queue + total r.during) n (l.printed, r.during) objects (omega arith) in
      let s = sleep-total l.rate r.steady k in
      let t = wake_time l.rate r.steady in
      let rate : Rate = record l.rate { next_time = t + l.rate.period } in
      (
        after r l n' w'.0 rate,
        told r l t,
        rw (e, s) (after_sleep-done r l n' w' t rate b),
        refl,
        refl,
        q,
        s,
        refl,
      )

  loop-step :
      (r : Round M) (rs : List (Round M)) (l l1 l2 : Loop M) (x : Report) (xs : List Report)
      → pass r l ≡ done (l1, x)
      → loop rs l1 ≡ done (l2, xs)
      → loop (r ∷ rs) l ≡ done (l2, x ∷ xs)
  unfolding loop
  loop-step r rs l l1 l2 x xs e f = rw e (rw f refl)

  loop_lem :
      (rs : List (Round M)) (l : Loop M)
      → HasObjects l.node
      → 0 < l.rate.period
      → l.data_value + length rs < 2 ^ 31
      → (l' : Loop M) × (xs : List Report) × (loop rs l ≡ done (l', xs))
        × (map (λ x. x.stamp) xs ≡ count_up l.data_value (length rs))
        × (sleeps l.rate (map (λ r. r.steady) rs) ≡ some (map (λ x. x.slept_until) xs))
        × ((rs ≡ []) ⊎ (l'.node.channel.queue ≡ []))
        × (l.node.channel.queue ≡ [] → l'.node.channel.queue ≡ [])
  unfolding loop sleeps
  loop_lem [] l h k b = (l, [], refl, refl, refl, inl refl, λ q. q)
  loop_lem (r ∷ rs) l h k b =
      let (l1, x, e, stamp, value, empty, slept, period) =
        pass-returns r l h k (omega (arith, b)) in
      let (l2, xs, e2, stamps, sleeping, _, keeps) =
        loop_lem rs l1 (subst (All IsObject) (sym empty) tt) (omega (arith, k, period))
          (omega (arith, b, value)) in
      (
        l2,
        x ∷ xs,
        loop-step r rs l l1 l2 x xs e e2,
        ap (λ a. a ∷ map (λ y. y.stamp) xs) stamp
            ∙ ap (λ later. l.data_value ∷ later) (stamps ∙ ap (λ a. count_up a (length rs)) value),
        sleeps-step l.rate l1.rate r.steady x.slept_until _ _ slept sleeping,
        inr (keeps empty),
        λ q. keeps empty,
      )

  -- With a positive period, no null pointer queued at the start and a counter that does not reach its
  -- bound, the loop comes to its end for every sequence of rounds, whatever arrives in them before the
  -- node spins and while its callbacks run: the stamps that it sends count on from the counter's value,
  -- it sleeps as a loop of `Rate::sleep` alone does, and where it has run a round, its last round has
  -- left the channel empty.
  pub loop-returns :
      (rs : List (Round M)) (l : Loop M)
      → HasObjects l.node
      → 0 < l.rate.period
      → l.data_value + length rs < 2 ^ 31
      → (l' : Loop M) × (xs : List Report) × (loop rs l ≡ done (l', xs))
        × (map (λ x. x.stamp) xs ≡ count_up l.data_value (length rs))
        × (sleeps l.rate (map (λ r. r.steady) rs) ≡ some (map (λ x. x.slept_until) xs))
        × ((rs ≡ []) ⊎ (l'.node.channel.queue ≡ []))
  loop-returns rs l h k b =
      let (l', xs, e, stamps, slept, empty, _) = loop_lem rs l h k b in
      (l', xs, e, stamps, slept, empty)
