-- ===== src/Cyclic/Program/Ends.antt =====
-- How the cyclic samples end, from their configuration to their last call of Fast DDS.
use rcl_like_wrapper_for_fas.Base.{
  ℕ, ◌≡◌, ◌<◌, ◌^◌, ◌⊎◌, inl, inr, refl, true, false, some, List, [], arith,
}
use Prim.Native.String.{String}
use rcl_like_wrapper_for_fas.Sample.{Call, Made, nullptrs}
use rcl_like_wrapper_for_fas.Sample.Life.{obey_all}
use rcl_like_wrapper_for_fas.Cyclic.{Config, read_config}
use rcl_like_wrapper_for_fas.Cyclic.Timer.{
  Timespec, Setting, armed, IsSettime, Fits, TooLong, arm-cases,
}
use rcl_like_wrapper_for_fas.Cyclic.Thread.{Wake, run_thread}
use rcl_like_wrapper_for_fas.Cyclic.Copies.{ros_type_data_publisher}
use rcl_like_wrapper_for_fas.Cyclic.Program.{
  Ended, returned, exits_1, Ran, Outside, config_directory, closed, cut_off, after_loop, run,
  publish_configured, publisher_main, ros_type_data_publisher_main, Program,
}

IsCleared : Ended × List Call → Type 0
IsCleared r = r.0 ≡ returned → obey_all r.1 nullptrs ≡ some nullptrs

abbrev outcome : {R : Type 0} → Ran R → Ended × List Call
outcome r = (r.ended, r.calls)

run-armed :
    {R : Type 0} (ts : Setting) (o : Outside) (thread : Timespec → List Wake → List R)
    (destroyed : Made → List Call) (m : Made)
    → (run (armed ts) o thread destroyed m).sent ≡ thread o.started o.wakes
unfolding run after_loop closed cut_off
run-armed ts o thread destroyed m = ground arith

-- A publisher that has read its configuration and made its entities, in a system that sets its
-- handler and makes its timer: it sends what its thread sends where its interval fits, which is
-- below a second, or from 4295 ms on where the product of the nanoseconds wraps around to less than a
-- second; with every other interval, the default among them, it sends nothing and exit(1) ends it.
pub ros_type_data_publisher_main-sends :
    (to_string : ℕ → String) (index : ℕ) (o : Outside) (c : Config)
    → o.load (config_directory o.executable) "/config/config.yaml" ≡ some c
    → (ros_type_data_publisher.init_ o.fast_dds c).succeeded ≡ true
    → o.handler_set ≡ true
    → o.timer_created ≡ true
    → IsSettime o.timer_settime
    → (read_config c).interval_ms_ < 2 ^ 16
    → let r = ros_type_data_publisher_main to_string index o in
      (Fits (read_config c).interval_ms_
        × (r.sent ≡ run_thread to_string false index o.started o.wakes))
      ⊎ (TooLong (read_config c).interval_ms_ × (r.sent ≡ []) × (r.ended ≡ exits_1))
unfolding ros_type_data_publisher_main publisher_main publish_configured ros_type_data_publisher run
    cut_off
ros_type_data_publisher_main-sends to_string index o c load made handler timer law range =
    rw (load, made, handler, timer)
      (elim (arm-cases o.timer_settime (read_config c).interval_ms_ law range) [
        | inl (fits, (ts, e)) ↦
            rw e (inl (fits, run-armed ts o (run_thread to_string false index) _ _))
        | inr (long, e) ↦ rw e (inr (long, refl, refl))
      ])
