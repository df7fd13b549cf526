-- ===== src/Time/Tests.antt =====
-- Times and durations at concrete inputs.
use rcl_like_wrapper_for_fas.Base.{◌≡◌, refl, true, some, none, ◌^◌, ◌-◌}
use rcl_like_wrapper_for_fas.Base.Int.{pos, negsuc, ◌+ℤ◌}
use rcl_like_wrapper_for_fas.Base.Int64.{checked}
use rcl_like_wrapper_for_fas.Duration
use rcl_like_wrapper_for_fas.Duration.{Duration}
use rcl_like_wrapper_for_fas.Time
use rcl_like_wrapper_for_fas.Time.{Time}

abbrev minute : Time
minute = Time.of_nanoseconds (pos 60_000_000_000)

abbrev second_ago : Duration
second_ago = Duration.of_nanoseconds (negsuc 999_999_999)

abbrev earlier : Time
earlier = Time.of_nanoseconds (pos 59_000_000_000)

add-minute : Time.add minute second_ago ≡ some earlier
unfolding Time.add checked ◌+ℤ◌
add-minute = refl

-- Past the last int64_t there is no value.
add_overflow :
    Time.add (Time.of_nanoseconds (pos (2 ^ 63 - 1))) (Duration.of_nanoseconds (pos 1)) ≡ none
unfolding Time.add checked ◌+ℤ◌
add_overflow = refl

abbrev much_earlier : Time
much_earlier = Time.of_nanoseconds (pos 58_000_000_000)

add-earlier : Time.add earlier second_ago ≡ some much_earlier
unfolding Time.add checked ◌+ℤ◌
add-earlier = refl

earlier-minute : Time.lt earlier minute ≡ true
unfolding Time.lt
earlier-minute = refl
