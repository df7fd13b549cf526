-- ===== src/Transforms/Buffer.antt =====
-- `Buffer` of lwrcl/libraries/src/tf2_ros/src/buffer.cpp and include/tf2_ros/buffer.h. The base
-- class of tf2, the system clock, the pause of the thread and the printed form of a number of
-- seconds are the fields of a record; each call may change the world, since the thread that fills
-- the buffer runs meanwhile.
pub mod Steps
pub mod Wait
pub mod Tests
use rcl_like_wrapper_for_fas.Base.{
  ℕ, zero, suc, Bool, true, false, not, Option, none, some, if◌then◌else◌,
}
use rcl_like_wrapper_for_fas.Base.Int.{ℤ, pos}
use rcl_like_wrapper_for_fas.Duration
use rcl_like_wrapper_for_fas.Duration.{Duration, zero_duration}
use rcl_like_wrapper_for_fas.Time
use rcl_like_wrapper_for_fas.Time.{Time, Clock}
use rcl_like_wrapper_for_fas.Transforms.Convert.{
  from_rclcpp, to_rclcpp, time_from_rclcpp, duration_from_rclcpp,
}
use Prim.Native.String.{String, ◌++◌}

-- The arguments that say which transform is meant, without and with a fixed frame. The times are
-- tf2's.
pub data Query : Type 0 where
  plain : (target_frame source_frame : String) (time : ℤ) → Query
  fixed :
      (target_frame : String) (target_time : ℤ) (source_frame : String) (source_time : ℤ)
      (fixed_frame : String)
      → Query

pub data Found (X E : Type 0) : Type 0 where
  found : X → Found X E
  thrown : E → Found X E

-- tf2 and the system. `can` and `lookup` are the functions of BufferCore without a timeout; `can`
-- has the error string in and out, `none` for a null pointer.
pub record Core (W X E : Type 0) : Type 0 where
  pub using_dedicated_thread : W → Bool
  pub can : Query → Option String → W → (Bool × Option String) × W
  pub lookup : Query → W → Found X E × W
  pub system_clock : W → ℤ × W
  pub sleep_10ms : W → W
  pub shown_seconds : ℤ → String

-- `overflow` is a sum or a difference outside int64_t, `exhausted` fuel that has run out.
pub data Run (A W : Type 0) : Type 0 where
  returned : A → W → Run A W
  overflow exhausted : Run A W

pub record Buffer : Type 0 where
  pub clock_ : Clock

pub data Made : Type 0 where
  made : Buffer → Made
  invalid_argument : Made

-- The constructor; `none` is a null pointer.
unfoldable pub make_buffer : Option Clock → Made
make_buffer none = invalid_argument
make_buffer (some clock) = made (record { clock_ = clock })

abbrev pub threading_error : String
threading_error =
    "Do not call canTransform or lookupTransform with a timeout unless you are using another thread for populating data. Without a dedicated thread it will always timeout.  If you have a separate thread servicing tf messages, call setUsingDedicatedThread(true) on your Buffer instance."

abbrev pub three_seconds : Duration
three_seconds = Duration.of_nanoseconds (pos 3000000000)

infixl 5 ◌>>=◌
unfoldable pub ◌>>=◌ : {A B W : Type 0} → Run A W → (A → W → Run B W) → Run B W
returned a w >>= f = f a w
overflow >>= f = overflow
exhausted >>= f = exhausted

module _ {W : Type 0} where
  -- The value of an addition or a subtraction.
  unfoldable pub exact : {A : Type 0} → Option A → W → Run A W
  exact none w = overflow
  exact (some a) w = returned a w

module _ {W X E : Type 0} (core : Core W X E) (this : Buffer) where
  unfoldable pub clock_now : W → Run Time W
  clock_now w =
      let (reading, w') = core.system_clock w in returned (Time.now this.clock_ reading) w'

  -- `checkAndErrorDedicatedThreadPresent`: its result and the error string.
  unfoldable pub check_thread : Option String → W → Bool × Option String
  check_thread errstr w =
      if core.using_dedicated_thread w
      then (true, errstr)
      else (false, elim errstr [ none ↦ none | some s ↦ some threading_error ])

  unfoldable pub conditionally_append_timeout_info :
      Option String → Time → Time → Duration → W → Run (Option String) W
  unfolding exact
  conditionally_append_timeout_info none start current timeout w = returned none w
  conditionally_append_timeout_info (some errstr) start current timeout w =
      exact (Time.diff current start) w >>= λ elapsed w'.
      returned
        (some (
          errstr
          ++ ". canTransform returned after "
          ++ core.shown_seconds (from_rclcpp elapsed)
          ++ " timeout was "
          ++ core.shown_seconds (from_rclcpp timeout)
          ++ "."))
        w'

  -- `canTransform` with a timeout, around a loop that is given the timeout, the start and the error
  -- string, and gives the error string after it.
  pub with_loop :
      (Duration → Time → Option String → W → Run (Option String) W)
      → Query
      → Duration
      → Option String
      → W
      → Run (Bool × Option String) W
  unfolding clock_now check_thread conditionally_append_timeout_info
  with_loop loop q timeout errstr w =
      let polled =
        (clock_now w >>= λ start w1. loop timeout start errstr w1 >>= λ errstr1 w2.
        let (answer, w3) = core.can q errstr1 w2 in
        clock_now w3 >>= λ current w4.
        conditionally_append_timeout_info answer.1 start current timeout w4 >>= λ errstr2 w5.
        returned (answer.0, errstr2) w5) in
      let checked = check_thread errstr w in if checked.0 then polled else returned checked w

  -- The third test of the loop and its body.
  pub pause :
      (Option String → W → Run (Option String) W)
      → Time
      → Bool × Option String
      → W
      → Run (Option String) W
  unfolding clock_now exact
  pause again start (true, errstr) w = returned errstr w
  pause again start (false, errstr) w = clock_now w >>= λ second w1.
      exact (Time.add second three_seconds) w1 >>= λ later w2.
      if Time.ge later start then again errstr (core.sleep_10ms w2) else returned errstr w2

  -- The loop. Its second test is the function itself with a timeout of zero.
  pub loop : ℕ → Query → Duration → Time → Option String → W → Run (Option String) W
  unfolding with_loop pause clock_now exact
  loop zero q timeout start errstr w = exhausted
  loop (suc fuel) q timeout start errstr w = clock_now w >>= λ first w1.
      exact (Time.add start timeout) w1 >>= λ deadline w2.
      let next =
        (with_loop (loop fuel q) q zero_duration errstr w2
          >>= pause (loop fuel q timeout start) start) in
      if Time.lt first deadline then next else returned errstr w2

  -- Both `canTransform` with a timeout; the timeout is tf2's.
  unfoldable pub can_transform : ℕ → Query → ℤ → Option String → W → Run (Bool × Option String) W
  unfolding with_loop loop
  can_transform fuel q timeout errstr w = with_loop (loop fuel q) q (to_rclcpp timeout) errstr w

  -- Both `lookupTransform` with a timeout: what canTransform answers is not used.
  unfoldable pub lookup_transform : ℕ → Query → ℤ → W → Run (Found X E) W
  unfolding can_transform
  lookup_transform fuel q timeout w = can_transform fuel q timeout (some "") w >>= λ answer w1.
      let (result, w2) = core.lookup q w1 in returned result w2

-- The arguments of the overloads of buffer.h that take times of lwrcl.
pub data RclcppQuery : Type 0 where
  rclcpp_plain : (target_frame source_frame : String) (time : Time) → RclcppQuery
  rclcpp_fixed :
      (target_frame : String) (target_time : Time) (source_frame : String) (source_time : Time)
      (fixed_frame : String)
      → RclcppQuery

unfoldable pub of_rclcpp : RclcppQuery → Query
unfolding time_from_rclcpp
of_rclcpp (rclcpp_plain target source time) = plain target source (time_from_rclcpp time)
of_rclcpp (rclcpp_fixed target target_time source source_time frame) =
    fixed target (time_from_rclcpp target_time) source (time_from_rclcpp source_time) frame

module _ {W X E : Type 0} (core : Core W X E) (this : Buffer) where
  unfoldable pub lookup_transform_rclcpp : ℕ → RclcppQuery → Duration → W → Run (Found X E) W
  unfolding lookup_transform of_rclcpp duration_from_rclcpp
  lookup_transform_rclcpp fuel q timeout w =
      lookup_transform core this fuel (of_rclcpp q) (duration_from_rclcpp timeout) w

  unfoldable pub can_transform_rclcpp :
      ℕ → RclcppQuery → Duration → Option String → W → Run (Bool × Option String) W
  unfolding can_transform of_rclcpp duration_from_rclcpp
  can_transform_rclcpp fuel q timeout errstr w =
      can_transform core this fuel (of_rclcpp q) (duration_from_rclcpp timeout) errstr w
