-- ===== src/Transforms/Convert.antt =====
-- lwrcl/libraries/src/tf2_ros/include/tf2_ros/buffer_interface.h and from_rclcpp and to_rclcpp of
-- src/buffer.cpp: time points and durations of tf2, which are int64_t counts of nanoseconds, as
-- messages of two fields and as times of lwrcl. `timeToSec`, which returns a double, is left out.
pub mod RoundTrip
use rcl_like_wrapper_for_fas.Base.{ℕ, suc, ◌+◌, ◌-◌, ◌*◌, ◌/◌, ◌%◌, ◌^◌, ltb, if◌then◌else◌}
use rcl_like_wrapper_for_fas.Base.Int.{ℤ, pos, negsuc, sub_ℕ, as_u32}
use rcl_like_wrapper_for_fas.Duration
use rcl_like_wrapper_for_fas.Duration.{Duration}
use rcl_like_wrapper_for_fas.Time
use rcl_like_wrapper_for_fas.Time.{Time}

-- The conversions of C++ between int64_t, uint64_t, int32_t and uint32_t, modulo a power of 2.
unfoldable pub as_u64 : ℤ → ℕ
as_u64 (pos n) = n % 2 ^ 64
as_u64 (negsuc n) = 2 ^ 64 - 1 - n % 2 ^ 64

unfoldable pub as_i64 : ℕ → ℤ
as_i64 u = if ltb u (2 ^ 63) then pos u else negsuc (2 ^ 64 - 1 - u)

unfoldable pub as_i32 : ℤ → ℤ
unfolding as_u32
as_i32 a = if ltb (as_u32 a) (2 ^ 31) then pos (as_u32 a) else negsuc (2 ^ 32 - 1 - as_u32 a)

-- `duration_cast<std::chrono::seconds>`, which rounds towards 0.
unfoldable pub whole_seconds : ℤ → ℤ
whole_seconds (pos n) = pos (n / 1000000000)
whole_seconds (negsuc n) = sub_ℕ 0 (suc n / 1000000000)

-- `ns.count() % 1000000000ull`, whose left side becomes a uint64_t.
unfoldable pub nanoseconds_part : ℤ → ℕ
unfolding as_u64
nanoseconds_part ns = as_u64 ns % 1000000000 % 2 ^ 32

-- `sec * 1000000000ull + nanosec` in uint64_t, as an int64_t.
unfoldable pub joined : ℤ → ℕ → ℤ
unfolding as_u64 as_i64
joined sec nanosec = as_i64 ((as_u64 sec * 1000000000 + nanosec) % 2 ^ 64)

-- A message of type builtin_interfaces Time, and one of type Duration.
pub record TimeMessage : Type 0 where
  pub sec : ℤ
  pub nanosec : ℕ

pub record DurationMessage : Type 0 where
  pub sec : ℤ
  pub nanosec : ℕ

-- `toMsg(const tf2::TimePoint &)`
unfoldable pub time_to_msg : ℤ → TimeMessage
unfolding as_i32 whole_seconds nanoseconds_part
time_to_msg t = record { sec = as_i32 (whole_seconds t); nanosec = nanoseconds_part t }

unfoldable pub time_from_msg : TimeMessage → ℤ
unfolding joined
time_from_msg m = joined m.sec m.nanosec

-- `toMsg(const tf2::Duration &)`
unfoldable pub duration_to_msg : ℤ → DurationMessage
unfolding as_i32 whole_seconds nanoseconds_part
duration_to_msg t = record { sec = as_i32 (whole_seconds t); nanosec = nanoseconds_part t }

unfoldable pub duration_from_msg : DurationMessage → ℤ
unfolding joined
duration_from_msg m = joined m.sec m.nanosec

unfoldable pub time_from_rclcpp : Time → ℤ
time_from_rclcpp t = t.nanoseconds

unfoldable pub time_to_rclcpp : ℤ → Time
time_to_rclcpp t = Time.of_nanoseconds t

unfoldable pub duration_from_rclcpp : Duration → ℤ
duration_from_rclcpp d = d.nanoseconds

unfoldable pub duration_to_rclcpp : ℤ → Duration
duration_to_rclcpp d = Duration.of_nanoseconds d

-- The copies of the last two in buffer.cpp.
unfoldable pub from_rclcpp : Duration → ℤ
from_rclcpp d = d.nanoseconds

unfoldable pub to_rclcpp : ℤ → Duration
to_rclcpp d = Duration.of_nanoseconds d
