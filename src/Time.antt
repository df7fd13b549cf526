-- ===== src/Time.antt =====
-- `Time` and `Clock` of lwrcl/libraries/src/lwrcl/include/lwrcl.hpp and src/lwrcl.cpp. `seconds()`,
-- which returns a double, is left out; the system clock is an argument of `now`.
pub mod Laws
pub mod Tests
use rcl_like_wrapper_for_fas.Base.{ℕ, Bool, Option, none, some, not}
use rcl_like_wrapper_for_fas.Base.Int.{ℤ, pos, ◌+ℤ◌, ◌-ℤ◌, ltb_ℤ, leb_ℤ, eqb_ℤ}
use rcl_like_wrapper_for_fas.Base.Int64.{checked, from_parts, ◌>>=◌}
use rcl_like_wrapper_for_fas.Duration
use rcl_like_wrapper_for_fas.Duration.{Duration}

pub record Time : Type 0 where
  pub nanoseconds : ℤ

abbrev pub zero_time : Time
zero_time = record { nanoseconds = pos 0 }

abbrev pub of_nanoseconds : ℤ → Time
of_nanoseconds n = record { nanoseconds = n }

unfoldable pub of_parts : ℤ → ℕ → Option Time
of_parts seconds nanoseconds = do n ← from_parts seconds nanoseconds; some (of_nanoseconds n)

unfoldable pub add : Time → Duration → Option Time
add t rhs = do n ← checked (t.nanoseconds +ℤ rhs.nanoseconds); some (of_nanoseconds n)

-- `operator-(const Duration &)`
unfoldable pub sub : Time → Duration → Option Time
sub t rhs = do n ← checked (t.nanoseconds -ℤ rhs.nanoseconds); some (of_nanoseconds n)

-- `operator-(const Time &)`
unfoldable pub diff : Time → Time → Option Duration
diff t rhs = do n ← checked (t.nanoseconds -ℤ rhs.nanoseconds); some (Duration.of_nanoseconds n)

unfoldable pub eq : Time → Time → Bool
eq t rhs = eqb_ℤ t.nanoseconds rhs.nanoseconds

unfoldable pub ne : Time → Time → Bool
unfolding eq
ne t rhs = not (eq t rhs)

unfoldable pub lt : Time → Time → Bool
lt t rhs = ltb_ℤ t.nanoseconds rhs.nanoseconds

unfoldable pub le : Time → Time → Bool
le t rhs = leb_ℤ t.nanoseconds rhs.nanoseconds

unfoldable pub gt : Time → Time → Bool
gt t rhs = ltb_ℤ rhs.nanoseconds t.nanoseconds

unfoldable pub ge : Time → Time → Bool
ge t rhs = leb_ℤ rhs.nanoseconds t.nanoseconds

pub data ClockType : Type 0 where
  system_time : ClockType

pub record Clock : Type 0 where
  pub type_ : ClockType

-- `now`, with the system clock's nanoseconds since its epoch. The `default` of the switch has no
-- enumerator to reach it.
unfoldable pub now : Clock → ℤ → Time
now c system_clock = elim c.type_ [ system_time ↦ of_nanoseconds system_clock ]

unfoldable pub get_clock_type : Clock → ClockType
get_clock_type c = c.type_
