-- ===== src/Rate/Grid.antt =====
-- A loop paced by `Rate::sleep` wakes on the grid of its period, however long its rounds take.
use rcl_like_wrapper_for_fas.Base.{
  ℕ, ◌+◌, ◌-◌, ◌*◌, ◌/◌, ◌≤◌, ◌<◌, ◌≡◌, refl, some, List, [], ◌∷◌, length, arith, leb, Bool-cases,
  inl, inr,
}
use rcl_like_wrapper_for_fas.Rate.{Rate, wake_time, sleep, sleeps}

over_period : (a p : ℕ) → 0 < p → (a < (a / p + 1) * p) × ((a / p + 1) * p ≤ a + p)
over_period a p h = (grind arith, grind arith)

-- The wake-up that is due later than `t`, on the grid.
abbrev pub IsDue : Rate → ℕ → ℕ → Type 0
IsDue r now t =
    (now < t)
    × ((k : ℕ) × (t ≡ r.next_time + k * r.period))
    × (r.next_time ≤ now → t ≤ now + r.period)
    × (now < r.next_time → t ≡ r.next_time)

wake_time-IsDue : (r : Rate) (now : ℕ) → 0 < r.period → IsDue r now (wake_time r now)
unfolding wake_time
wake_time-IsDue r now h = elim (Bool-cases (leb r.next_time now)) [
  | inl late ↦
      let (above, below) = over_period (now - r.next_time) r.period h in
      rw late (
        ground arith,
        ((now - r.next_time) / r.period + 1, refl),
        λ _. ground arith,
        λ e. absurd (ground arith),
      )
  | inr early ↦ rw early (ground arith, (0, omega arith), λ e. absurd (ground arith), λ _. refl)
]

-- One call with a positive period never fails. It sleeps until a time after the present that is a
-- whole number of periods after the time that was due: that time itself if it is still to come,
-- and at most one period after the present if it has passed. The next wake-up is due one period
-- after the time slept until.
pub sleep-IsDue :
    (r : Rate) (now : ℕ)
    → 0 < r.period
    → (t : ℕ) × (sleep r now ≡ some (t, record { period = r.period; next_time = t + r.period }))
      × IsDue r now t
unfolding sleep
sleep-IsDue r now h = (wake_time r now, ground arith, wake_time-IsDue r now h)

-- Each time is a whole number of periods after the one before it, and at least one.
abbrev pub OnGrid : ℕ → ℕ → List ℕ → Type 0
OnGrid due period [] = Unit
OnGrid due period (t ∷ ts) = ((k : ℕ) × (t ≡ due + k * period)) × OnGrid (t + period) period ts

-- A loop that sleeps once a round with a positive period wakes once for each round: first a whole
-- number of periods after the time due at the start, then each time one period or more, in whole
-- periods, after the time before, whatever the readings of the clock.
pub sleeps-OnGrid :
    (r : Rate) (nows : List ℕ)
    → 0 < r.period
    → (ts : List ℕ) × (sleeps r nows ≡ some ts)
      × (length ts ≡ length nows)
      × OnGrid r.next_time r.period ts
unfolding sleeps
sleeps-OnGrid r [] h = ([], refl, refl, tt)
sleeps-OnGrid r (now ∷ later) h =
    let (t, e, due) = sleep-IsDue r now h in
    let (ts, run, size, grid) = sleeps-OnGrid (record r { next_time = t + r.period }) later h in
    (t ∷ ts, rw (e, sleeps) (rw (run, sleeps)), omega arith, (due.1, grid))
