-- ===== src/Cyclic/Thread.antt =====
-- `runThread` and `publish` of the cyclic publishers: the thread sleeps on a condition variable that
-- the timer signals, prints the time since the signal before, and publishes. One wake-up is a
-- record: whether `pthread_cond_wait` returned 0, the clock, and whether a SIGINT came during the wait.
pub mod Sends
use rcl_like_wrapper_for_fas.Base.{
  ℕ, zero, suc, ◌+◌, ◌-◌, ◌*◌, ◌/◌, ◌%◌, ◌^◌, ◌≤◌, ◌<◌, ◌≡◌, refl, sym, ap, ◌∙◌, Bool, true, false,
  ◌||◌, List, [], ◌∷◌, ◌++◌, All, length, ltb, ◌==◌, if◌then◌else◌, arith,
}
use rcl_like_wrapper_for_fas.Base.Int.{ℤ, pos, sub_ℕ}
use Prim.Native.String as string
use Prim.Native.String.{String}
use rcl_like_wrapper_for_fas.Cyclic.Timer.{Timespec}

-- The seconds and the nanoseconds that are printed.
unfoldable pub interval : Timespec → Timespec → ℤ × ℤ
interval cur last =
    if ltb cur.tv_nsec last.tv_nsec
    then (sub_ℕ cur.tv_sec (last.tv_sec + 1), sub_ℕ (cur.tv_nsec + 1000000000) last.tv_nsec)
    else (sub_ℕ cur.tv_sec last.tv_sec, sub_ℕ cur.tv_nsec last.tv_nsec)

pub record Wake : Type 0 where
  pub ret_zero : Bool
  pub now : Timespec
  pub stops : Bool

-- What one wake-up prints and sends.
pub record Report : Type 0 where
  pub printed : ℤ × ℤ
  pub index : ℕ
  pub message : String

-- `publish`, which the thread calls with `wait_for_listener` = false, so that it always sends.
report : (ℕ → String) → ℕ → Timespec → Timespec → Report
report to_string index cur last = record {
  printed = interval cur last;
  index = (index + 1) % 2 ^ 32;
  message = string.◌++◌ "BigData" (to_string ((index + 1) % 2 ^ 32 % 10));
}

-- The loop, with the index of the message sent last. It ends when the wake-ups do: what it has
-- done by then.
unfoldable pub run_thread : (ℕ → String) → Bool → ℕ → Timespec → List Wake → List Report
unfolding report
run_thread to_string stop_flag index last [] = []
run_thread to_string true index last (w ∷ ws) = []
run_thread to_string false index last (w ∷ ws) = elim (w.ret_zero) [
  | true ↦
      report to_string index w.now last
      ∷ run_thread to_string w.stops ((index + 1) % 2 ^ 32) w.now ws
  | false ↦ run_thread to_string w.stops index last ws
]

-- The loop of CyclicROSDataPublisher, which sends the same pose each time: what it prints.
unfoldable pub pose_run_thread : Bool → Timespec → List Wake → List (ℤ × ℤ)
pose_run_thread stop_flag last [] = []
pose_run_thread true last (w ∷ ws) = []
pose_run_thread false last (w ∷ ws) = elim (w.ret_zero) [
  | true ↦ interval w.now last ∷ pose_run_thread w.stops w.now ws
  | false ↦ pose_run_thread w.stops last ws
]

-- A clock's reading in nanoseconds.
abbrev pub nanos : Timespec → ℕ
nanos ts = ts.tv_sec * 1000000000 + ts.tv_nsec

abbrev pub IsProper : Timespec → Type 0
IsProper ts = ts.tv_nsec < 1000000000

pub interval-printed :
    (cur last : Timespec)
    → IsProper cur
    → IsProper last
    → nanos last ≤ nanos cur
    → interval cur last
      ≡ (pos ((nanos cur - nanos last) / 1000000000), pos ((nanos cur - nanos last) % 1000000000))
unfolding interval
interval-printed cur last h k l = ground arith
