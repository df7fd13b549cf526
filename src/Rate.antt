-- ===== src/Rate.antt =====
-- `Rate` of lwrcl/libraries/src/lwrcl/src/lwrcl.cpp. Readings of the steady clock, and the period,
-- are natural numbers of nanoseconds; the range of int64_t is left out, and
-- `Rate.Signed` has periods that may be negative.
pub mod Grid
pub mod Signed
pub mod Tests
use rcl_like_wrapper_for_fas.Base.{
  ℕ, ◌+◌, ◌-◌, ◌*◌, ◌/◌, Option, none, some, List, [], ◌∷◌, leb, ◌==◌, ◌&&◌, if◌then◌else◌,
}
use rcl_like_wrapper_for_fas.Base.Int64.{◌>>=◌}

pub record Rate : Type 0 where
  pub period : ℕ
  pub next_time : ℕ

-- The constructor, at a reading of the clock.
unfoldable pub make : ℕ → ℕ → Rate
make period now = record { period = period; next_time = now + period }

-- The time that `sleep` sleeps until.
unfoldable pub wake_time : Rate → ℕ → ℕ
wake_time r now =
    if leb r.next_time now
    then r.next_time + ((now - r.next_time) / r.period + 1) * r.period
    else r.next_time

-- `sleep`, called at a reading of the clock: the time slept until and the new state; `none` is the
-- division by a period of zero.
unfoldable pub sleep : Rate → ℕ → Option (ℕ × Rate)
unfolding wake_time
sleep r now =
    if leb r.next_time now && r.period == 0
    then none
    else some (wake_time r now, record r { next_time = wake_time r now + r.period })

-- A loop that sleeps once a round, at these readings of the clock: the times slept until.
unfoldable pub sleeps : Rate → List ℕ → Option (List ℕ)
sleeps r [] = some []
sleeps r (now ∷ later) = elim (sleep r now) [
  | none ↦ none
  | some (t, r') ↦ elim (sleeps r' later) [ none ↦ none | some ts ↦ some (t ∷ ts) ]
]
