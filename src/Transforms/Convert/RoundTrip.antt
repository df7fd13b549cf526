-- ===== src/Transforms/Convert/RoundTrip.antt =====
-- What the conversions of buffer_interface.h keep of a time.
use rcl_like_wrapper_for_fas.Base.{ℕ, ◌≡◌, ◌≢◌, ◌<◌, ◌^◌, ◌↔◌, some, ◌∙◌, refl, arith}
use rcl_like_wrapper_for_fas.Base.Int.{ℤ, pos, negsuc, ◌+ℤ◌, ◌≤ℤ◌, as_u32}
use rcl_like_wrapper_for_fas.Base.Int64.{IsInt32, times_billion, from_parts_lem}
use rcl_like_wrapper_for_fas.Time
use rcl_like_wrapper_for_fas.Duration
use rcl_like_wrapper_for_fas.Transforms.Convert.{
  as_u64, as_i64, as_i32, whole_seconds, nanoseconds_part, joined, TimeMessage, DurationMessage,
  time_to_msg, time_from_msg, duration_to_msg, duration_from_msg, time_to_rclcpp,
  duration_to_rclcpp,
}

-- The sum in uint64_t is right although a negative second count wraps.
joined_lem :
    (sec : ℤ) (nanosec : ℕ)
    → IsInt32 sec
    → nanosec < 2 ^ 32
    → joined sec nanosec ≡ times_billion sec +ℤ pos nanosec
unfolding joined as_u64 as_i64 ◌+ℤ◌
joined_lem (pos s) n h lt = ground arith
joined_lem (negsuc s) n h lt = ground arith

-- The int32_t seconds that a message can hold.
abbrev pub FitsMsg : ℤ → Type 0
FitsMsg t = IsInt32 (whole_seconds t)

as_i32_lem : (a : ℤ) → IsInt32 a → as_i32 a ≡ a
unfolding as_i32 as_u32
as_i32_lem (pos n) h = ground arith
as_i32_lem (negsuc n) h = ground arith

nanoseconds_part-lt : (t : ℤ) → nanoseconds_part t < 2 ^ 32
unfolding nanoseconds_part as_u64
nanoseconds_part-lt t = omega arith

abbrev trip : ℤ → ℤ
trip t = joined (as_i32 (whole_seconds t)) (nanoseconds_part t)

trip_eq : (t : ℤ) → FitsMsg t → trip t ≡ times_billion (whole_seconds t) +ℤ pos (nanoseconds_part t)
trip_eq t h =
    rw (as_i32_lem (whole_seconds t) h)
      (joined_lem (whole_seconds t) (nanoseconds_part t) h (nanoseconds_part-lt t))

trip_pos : (n : ℕ) → FitsMsg (pos n) → trip (pos n) ≡ pos n
unfolding whole_seconds nanoseconds_part as_u64 ◌+ℤ◌
trip_pos n h = trip_eq (pos n) h ∙ ground arith

trip_negsuc : (n : ℕ) → FitsMsg (negsuc n) → trip (negsuc n) ≢ negsuc n
unfolding whole_seconds nanoseconds_part as_u64 ◌+ℤ◌
trip_negsuc n h e = absurd (ground (arith, trip_eq (negsuc n) h))

trip_iff : (t : ℤ) → FitsMsg t → (trip t ≡ t) ↔ (pos 0 ≤ℤ t)
trip_iff (pos n) h = (λ e. omega arith, λ p. trip_pos n h)
trip_iff (negsuc n) h = (λ e. absurd (trip_negsuc n h e), λ p. absurd (omega (arith, p)))

-- Where the whole seconds of a time point or a duration fit in an int32_t, toMsg and then fromMsg
-- give it back if and only if it is not negative.
pub from_msg-to_msg :
    (t : ℤ)
    → FitsMsg t
    → ((time_from_msg (time_to_msg t) ≡ t) ↔ (pos 0 ≤ℤ t))
      × ((duration_from_msg (duration_to_msg t) ≡ t) ↔ (pos 0 ≤ℤ t))
unfolding time_from_msg time_to_msg duration_from_msg duration_to_msg
from_msg-to_msg t h = (trip_iff t h, trip_iff t h)

seconds-joined :
    (sec nanosec : ℕ)
    → sec < 2 ^ 31
    → nanosec < 1000000000
    → (as_i32 (whole_seconds (joined (pos sec) nanosec)) ≡ pos sec)
      × (nanoseconds_part (joined (pos sec) nanosec) ≡ nanosec)
unfolding joined as_u64 as_i64 whole_seconds nanoseconds_part as_i32 as_u32
seconds-joined s n h lt = (ground arith, ground arith)

abbrev pub time_message : ℤ → ℕ → TimeMessage
time_message sec nanosec = record { sec = sec; nanosec = nanosec }

abbrev pub duration_message : ℤ → ℕ → DurationMessage
duration_message sec nanosec = record { sec = sec; nanosec = nanosec }

-- A message with at least 0 seconds and less than 10^9 nanoseconds comes back from fromMsg and then
-- toMsg, whether its type is Time or Duration.
pub to_msg-from_msg :
    (sec nanosec : ℕ)
    → sec < 2 ^ 31
    → nanosec < 1000000000
    → (time_to_msg (time_from_msg (time_message (pos sec) nanosec))
        ≡ time_message (pos sec) nanosec)
      × (duration_to_msg (duration_from_msg (duration_message (pos sec) nanosec))
          ≡ duration_message (pos sec) nanosec)
unfolding time_from_msg time_to_msg duration_from_msg duration_to_msg
to_msg-from_msg s n h lt = let (a, b) = seconds-joined s n h lt in rw (a, b) (refl, refl)

-- fromMsg gives the time and the duration that the constructors of lwrcl make of the same two fields.
pub from_msg-of_parts :
    (sec : ℤ) (nanosec : ℕ)
    → IsInt32 sec
    → nanosec < 2 ^ 32
    → (Time.of_parts sec nanosec ≡ some (time_to_rclcpp (time_from_msg (time_message sec nanosec))))
      × (Duration.of_parts sec nanosec
          ≡ some (duration_to_rclcpp (duration_from_msg (duration_message sec nanosec))))
unfolding Time.of_parts Duration.of_parts time_from_msg duration_from_msg time_to_rclcpp
    duration_to_rclcpp
from_msg-of_parts s n h lt = rw (from_parts_lem s n h lt, joined_lem s n h lt) (refl, refl)
