-- ===== src/Duration.antt =====
-- `Duration` of lwrcl/libraries/src/lwrcl/include/lwrcl.hpp and src/lwrcl.cpp. `seconds()`, which
-- returns a double, is left out.
use rcl_like_wrapper_for_fas.Base.{ℕ, Bool, Option, some, not}
use rcl_like_wrapper_for_fas.Base.Int.{ℤ, pos, ◌+ℤ◌, ◌-ℤ◌, ltb_ℤ, leb_ℤ, eqb_ℤ}
use rcl_like_wrapper_for_fas.Base.Int64.{checked, from_parts, ◌>>=◌}

pub record Duration : Type 0 where
  pub nanoseconds : ℤ

abbrev pub zero_duration : Duration
zero_duration = record { nanoseconds = pos 0 }

abbrev pub of_nanoseconds : ℤ → Duration
of_nanoseconds n = record { nanoseconds = n }

unfoldable pub of_parts : ℤ → ℕ → Option Duration
of_parts seconds nanoseconds = do n ← from_parts seconds nanoseconds; some (of_nanoseconds n)

unfoldable pub add : Duration → Duration → Option Duration
add d rhs = do n ← checked (d.nanoseconds +ℤ rhs.nanoseconds); some (of_nanoseconds n)

unfoldable pub sub : Duration → Duration → Option Duration
sub d rhs = do n ← checked (d.nanoseconds -ℤ rhs.nanoseconds); some (of_nanoseconds n)

unfoldable pub eq : Duration → Duration → Bool
eq d rhs = eqb_ℤ d.nanoseconds rhs.nanoseconds

unfoldable pub ne : Duration → Duration → Bool
unfolding eq
ne d rhs = not (eq d rhs)

unfoldable pub lt : Duration → Duration → Bool
lt d rhs = ltb_ℤ d.nanoseconds rhs.nanoseconds

unfoldable pub le : Duration → Duration → Bool
le d rhs = leb_ℤ d.nanoseconds rhs.nanoseconds

unfoldable pub gt : Duration → Duration → Bool
gt d rhs = ltb_ℤ rhs.nanoseconds d.nanoseconds

unfoldable pub ge : Duration → Duration → Bool
ge d rhs = leb_ℤ rhs.nanoseconds d.nanoseconds
