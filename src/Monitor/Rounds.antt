-- ===== src/Monitor/Rounds.antt =====
-- How often `spin` of tf2_monitor prints.
use rcl_like_wrapper_for_fas.Base.{
  ℕ, suc, ◌+◌, ◌*◌, ◌≤◌, ◌≡◌, refl, Bool, Option, none, some, List, [], ◌∷◌, length, if◌then◌else◌,
  arith,
}
use rcl_like_wrapper_for_fas.Monitor.{Double, Spin, round, net_delay}

module _ {D : Type 0} (d : Double D) (lowpass rest : D) where
  -- The rounds of `spin` with the delays of the chain, and how often they print.
  unfoldable pub rounds : List (Option D) → Spin D → Spin D × ℕ
  rounds [] s = (s, 0)
  rounds (x ∷ xs) s =
      let (s', prints) = round d lowpass rest x s in
      let (last, n) = rounds xs s' in (last, if prints then suc n else n)

  net_delay-counter :
      (x : Option D) (s : Spin D) → (net_delay d lowpass rest x s).counter ≡ s.counter
  unfolding net_delay
  net_delay-counter none s = refl
  net_delay-counter (some diff) s = refl

  Counts : Spin D → Spin D × Bool → Type 0
  Counts s (s', prints) =
      (s'.counter ≤ 20) × (s'.counter + (if prints then 21 else 0) ≡ s.counter + 1)

  round-Counts : (x : Option D) (s : Spin D) → s.counter ≤ 20 → Counts s (round d lowpass rest x s)
  unfolding round Counts
  round-Counts x s h = ground (arith, net_delay-counter x s)

  -- The counter stays below 21, and the rounds that it has counted are those that it had, those of
  -- the run, and 21 less for each time that the results were printed: they are printed after every 21
  -- rounds, that is after 10.5 seconds.
  rounds-print :
      (xs : List (Option D)) (s : Spin D)
      → s.counter ≤ 20
      → let t = rounds xs s in (t.0.counter ≤ 20) × (t.0.counter + 21 * t.1 ≡ s.counter + length xs)
  unfolding rounds Counts
  rounds-print [] s h = (h, omega arith)
  rounds-print (x ∷ xs) s h =
      let (s', prints) = round d lowpass rest x s in
      let (a, b) = round-Counts x s h in
      let (c, e) = rounds-print xs s' a in ground (arith, a, b, c, e)
