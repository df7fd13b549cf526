-- ===== src/Transforms/Buffer/Tests.antt =====
-- Times as messages, and a buffer whose transform comes after fifteen milliseconds.
use rcl_like_wrapper_for_fas.Base.{
  ℕ, ◌+◌, ◌≡◌, ◌↔◌, refl, arith, leb, Bool, true, Option, none, if◌then◌else◌,
}
use rcl_like_wrapper_for_fas.Base.Int.{pos, negsuc, ◌+ℤ◌, ◌-ℤ◌, ◌≤ℤ◌}
use rcl_like_wrapper_for_fas.Base.Int64.{checked}
use rcl_like_wrapper_for_fas.Time
use rcl_like_wrapper_for_fas.Time.{Clock, system_time}
use rcl_like_wrapper_for_fas.Transforms.Convert.{
  time_to_msg, time_from_msg, duration_to_msg, duration_from_msg, whole_seconds, to_rclcpp,
}
use rcl_like_wrapper_for_fas.Transforms.Convert.RoundTrip.{
  from_msg-to_msg, to_msg-from_msg, time_message, duration_message,
}
use rcl_like_wrapper_for_fas.Transforms.Buffer.{
  Core, Buffer, Query, plain, found, thrown, returned, ◌>>=◌, can_transform, lookup_transform,
}
use rcl_like_wrapper_for_fas.Transforms.Buffer.Steps.{Observed, Steady}
use rcl_like_wrapper_for_fas.Transforms.Buffer.Wait.{lookup_transform-found}
use rcl_like_wrapper_for_fas.Transforms.Interface.{Geometry}
use Prim.Native.String.{String}

from_msg-to_msg_example :
    ((time_from_msg (time_to_msg (negsuc 0)) ≡ negsuc 0) ↔ (pos 0 ≤ℤ negsuc 0))
    × ((duration_from_msg (duration_to_msg (negsuc 0)) ≡ negsuc 0) ↔ (pos 0 ≤ℤ negsuc 0))
unfolding whole_seconds
from_msg-to_msg_example = from_msg-to_msg (negsuc 0) (omega arith, omega arith)

to_msg-from_msg_example :
    (time_to_msg (time_from_msg (time_message (pos 7) 999999999)) ≡ time_message (pos 7) 999999999)
    × (duration_to_msg (duration_from_msg (duration_message (pos 7) 999999999))
        ≡ duration_message (pos 7) 999999999)
to_msg-from_msg_example = to_msg-from_msg 7 999999999 (omega arith) (omega arith)

-- One nanosecond before the epoch.
before_epoch : time_from_msg (time_to_msg (negsuc 0)) ≡ pos 709551615
unfolding time_from_msg time_to_msg
before_epoch = refl

-- The world is the time, in nanoseconds.
abbrev core : Core ℕ ℕ String
core = record {
  using_dedicated_thread = λ w. true;
  can = λ q e w. ((leb 15000000 w, e), w + 1);
  lookup = λ q w. (if leb 15000000 w then found 7 else thrown "unknown frame", w);
  system_clock = λ w. (pos w, w + 1);
  sleep_10ms = λ w. w + 10000000;
  shown_seconds = λ n. "0.02";
}

abbrev this : Buffer
this = record { clock_ = record { type_ = system_time } }

abbrev query : Query
query = plain "map" "laser" (pos 0)

abbrev observed : (q : Query) → Observed core q
observed q = record { time = λ w. w; is_there = λ w. leb 15000000 w }

steady : (q : Query) → Steady core q (observed q)
steady q = record {
  dedicated = λ w. refl;
  clock = λ w. refl;
  clock_later = λ w. (omega arith, omega arith, λ e. ground arith);
  answer = λ e w. refl;
  can_later = λ e w. (omega arith, omega arith, λ e. ground arith);
  sleep_later = λ w. (omega arith, omega arith, λ e. ground arith);
  lookup_found = λ w e. (7, ground arith);
}

waits : lookup_transform core this 3 query (pos 20000000) 5 ≡ returned (found 7) 20000021
unfolding lookup_transform ◌>>=◌ Time.add checked ◌+ℤ◌ Time.now to_rclcpp Time.lt Time.diff ◌-ℤ◌
    Time.ge
waits = refl

lookup_transform-found_example :
    ((r : Bool × Option String) × (w' : ℕ) × (can_transform core this 3 query (pos 20000000) none 5
        ≡ returned r w')
      × (r.0 ≡ true))
    × ((x : ℕ) × (w' : ℕ) × (lookup_transform core this 3 query (pos 20000000) 5
          ≡ returned (found x) w'))
lookup_transform-found_example =
    lookup_transform-found core this query (observed query) (steady query) 20000000 2 none 5
      (omega arith) (λ w h. ground arith) (omega arith)

-- Numbers as data in the frame "laser"; a transform is a number that is added.
abbrev numbers : Geometry ℕ ℕ String
numbers = record {
  frame_id = λ x. "laser";
  timestamp = λ x. pos 0;
  do_transform = λ x out t. found (x + t);
  fresh = 0;
}
