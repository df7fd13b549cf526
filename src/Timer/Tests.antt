-- ===== src/Timer/Tests.antt =====
-- A timer of 10 nanoseconds, made at time 100.
use rcl_like_wrapper_for_fas.Base.{◌≡◌, refl, List, [], ◌∷◌, Option, length}
use rcl_like_wrapper_for_fas.Channel.{Channel, empty}
use rcl_like_wrapper_for_fas.Subscriber.{Callback}
use rcl_like_wrapper_for_fas.Timer.{make, worker_move, stop, Act, work, stopped, run, finished}
use rcl_like_wrapper_for_fas.Timer.Schedule.{progression, pushes, run-OnTime}

abbrev no_callbacks : Channel (Option Callback)
no_callbacks = empty

abbrev acts : List Act
acts = work ∷ work ∷ work ∷ stopped ∷ work ∷ work ∷ []

run-acts :
    ((run 2 acts (make 10 100) no_callbacks).2 ≡ 110 ∷ 120 ∷ [])
    × ((run 2 acts (make 10 100) no_callbacks).0.pc ≡ finished)
unfolding run make worker_move stop
run-acts = (refl, refl)

run-OnTime_example :
    let (last, d, ts) = run 2 acts (make 10 100) no_callbacks in
    (ts ≡ progression (make 10 100).next_execution_time (make 10 100).period (length ts))
    × (d ≡ pushes 2 (length ts) no_callbacks)
run-OnTime_example = run-OnTime 2 acts (make 10 100) no_callbacks
