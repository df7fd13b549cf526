-- ===== src/Cyclic/Tests.antt =====
-- The timer with an interval of 100 ms and with the default of 1 s, two messages, and a
-- configuration that is refused.
use rcl_like_wrapper_for_fas.Base.{
  ℕ, ◌≡◌, refl, ◌⊎◌, Bool, true, false, Option, none, some, List, [], ◌∷◌, ◌++◌, length, ltb, arith,
}
use rcl_like_wrapper_for_fas.Base.Int.{pos, negsuc}
use Prim.Native.String.{String}
use rcl_like_wrapper_for_fas.Sample.{Answers}
use rcl_like_wrapper_for_fas.Sample.{init}
use rcl_like_wrapper_for_fas.Cyclic.{Config, publisher_init, read_config}
use rcl_like_wrapper_for_fas.Cyclic.Copies.{ros_type_data_publisher}
use rcl_like_wrapper_for_fas.Cyclic.Program.{
  Outside, Program, ros_type_data_publishing, ros_type_data_publisher_main, exits_1,
}
use rcl_like_wrapper_for_fas.Cyclic.Program.Ends.{ros_type_data_publisher_main-sends}
use rcl_like_wrapper_for_fas.Cyclic.Timer.{
  Timespec, Setting, timer_spec, as_int, armed, exited, arm, IsSettime, Fits, TooLong,
}
use rcl_like_wrapper_for_fas.Cyclic.Thread.{Wake, run_thread, nanos}
use rcl_like_wrapper_for_fas.Cyclic.Thread.Sends.{latest, Covers, woken, run_thread-Covers}

-- A timer_settime that keeps to its documentation.
abbrev settime : Setting → Bool
settime ts = elim (ts.tv_nsec) [ pos n ↦ ltb n 1000000000 | negsuc n ↦ false ]

settime_kept : IsSettime settime
settime_kept = record {
  accepts = λ ts n e h. ground (arith, e);
  rejects_long = λ ts n e h. ground (arith, e);
  rejects_negative = λ ts n e. ground (arith, e);
}

default_interval : arm true true settime 1000 ≡ exited
unfolding arm timer_spec as_int
default_interval = refl

long_interval : arm true true settime 3000 ≡ exited
unfolding arm timer_spec as_int
long_interval = refl

-- The product of 4295 ms wraps around.
wrapped_interval : arm true true settime 4295 ≡ armed (record { tv_sec = 4; tv_nsec = pos 32704 })
unfolding arm timer_spec as_int
wrapped_interval = refl

abbrev at : ℕ → ℕ → Timespec
at s n = record { tv_sec = s; tv_nsec = n }

abbrev signals : List Wake
signals = record { ret_zero = true; now = at 8 100; stops = false } ∷ []

abbrev interrupted : Wake
interrupted = record { ret_zero = true; now = at 8 600; stops = true }

abbrev digit : ℕ → String
digit n = "n"

run_thread-Covers_example :
    let sent = run_thread digit false 0 (at 7 900) (signals ++ (interrupted ∷ signals)) in
    Covers 0 (nanos (at 7 900)) (nanos (latest (at 7 900) (signals ++ (interrupted ∷ [])))) sent
    × (length sent ≡ woken (signals ++ (interrupted ∷ [])))
run_thread-Covers_example =
    run_thread-Covers digit signals interrupted signals 0 (at 7 900) (refl, tt) refl
      (omega arith, (omega arith, (omega arith, (omega arith, omega arith))))

-- Shared memory is not for the topics of ROS 2: Fast DDS is not called.
fast_dds : ℕ → Bool → Answers
fast_dds domain_number shared = record {
  create_participant = some 1;
  create_group = some 2;
  create_topic = λ name. some 3;
  create_end_point = some 4;
}

shared_ros2 :
    (publisher_init fast_dds (record {
      shared_memory = some true;
      ros2_topic = none;
      domain_number = none;
      topics = none;
    })).calls
    ≡ []
unfolding publisher_init
shared_ros2 = refl

-- A publisher with a topic that has an interval of 100 ms, or the default.
abbrev config : Option ℕ → Config
config interval = record {
  shared_memory = none;
  ros2_topic = none;
  domain_number = none;
  topics = some (record { name = some "pose_topic"; interval_ms = interval } ∷ []);
}

abbrev system : Option ℕ → Outside
system interval = record {
  executable = none;
  load = λ directory rest. some (config interval);
  fast_dds = fast_dds;
  handler_set = true;
  timer_created = true;
  timer_settime = settime;
  started = at 7 900;
  wakes = signals ++ (interrupted ∷ signals);
}

ros_type_data_publisher_main-sends_example :
    let r = ros_type_data_publisher_main digit 0 (system none) in
    (Fits 1000
      × (r.sent ≡ run_thread digit false 0 (at 7 900) (signals ++ (interrupted ∷ signals))))
    ⊎ (TooLong 1000 × (r.sent ≡ []) × (r.ended ≡ exits_1))
unfolding ros_type_data_publisher publisher_init read_config init fast_dds
ros_type_data_publisher_main-sends_example =
    ros_type_data_publisher_main-sends digit 0 (system none) (config none) refl refl refl refl
      settime_kept (omega arith)

abbrev publishing : Program
publishing = ros_type_data_publishing digit 0
