-- ===== src/Cyclic/Program.antt =====
-- The `main` of the cyclic samples (src/ROSTypeData_main.cpp and src/CyclicROSData_main.cpp of
-- each), with `run` and the destructor of the object that it makes. What readlink leaves in the
-- buffer is an argument, as is YAML::LoadFile, whose exception `main` does not catch.
pub mod Ends
use rcl_like_wrapper_for_fas.Base.{
  ℕ, Bool, true, false, Option, none, some, List, [], ◌∷◌, ◌++◌, if◌then◌else◌,
}
use rcl_like_wrapper_for_fas.Base.Int.{ℤ}
use Prim.Native.String.{String}
use rcl_like_wrapper_for_fas.App.Main.{directory}
use rcl_like_wrapper_for_fas.Sample.{Call, Answers, Made}
use rcl_like_wrapper_for_fas.Cyclic.{Config, read_config}
use rcl_like_wrapper_for_fas.Cyclic.Timer.{Timespec, Setting, Armed, armed, exited}
use rcl_like_wrapper_for_fas.Cyclic.Thread.{Wake, Report}
use rcl_like_wrapper_for_fas.Cyclic.Copies.{
  PublisherClass, SubscriberClass, ros_type_data_publisher, cyclic_ros_data_publisher,
  ros_type_data_subscriber,
}

-- How the program ends: `main` returns 0, exit(1) ends it, an exception leaves `main`, or its
-- thread still waits.
pub data Ended : Type 0 where
  returned exits_1 uncaught waiting : Ended

-- With the calls of Fast DDS, destructors included, and what was sent.
pub record Ran (R : Type 0) : Type 0 where
  pub ended : Ended
  pub calls : List Call
  pub sent : List R

-- What the program finds outside: `executable` is the string in the buffer after readlink, `none`
-- its failure; then what `signal` and the timer answer, the clock at the start of the thread, and
-- the wake-ups.
pub record Outside : Type 0 where
  pub executable : Option (List ℕ)
  pub load : List ℕ → String → Option Config
  pub fast_dds : ℕ → Bool → Answers
  pub handler_set : Bool
  pub timer_created : Bool
  pub timer_settime : Setting → Bool
  pub started : Timespec
  pub wakes : List Wake

unfoldable pub config_directory : Option (List ℕ) → List ℕ
config_directory none = []
config_directory (some path) = directory path

-- Is there a SIGINT during one of the waits, so that the thread leaves its loop, or the subscriber
-- the loop of its `run`?
unfoldable pub leaves : List Wake → Bool
leaves [] = false
leaves (w ∷ ws) = if w.stops then true else leaves ws

module _ {R : Type 0} where
  -- The end of `main`: the destructor of the object.
  unfoldable pub closed : (Made → List Call) → Made → List R → Ran R
  closed destroyed m sent = record { ended = returned; calls = m.calls ++ destroyed m; sent = sent }

  -- Without it.
  unfoldable pub cut_off : Ended → Made → List R → Ran R
  cut_off end m sent = record { ended = end; calls = m.calls; sent = sent }

  after_loop : Bool → (Made → List Call) → Made → List R → Ran R
  unfolding closed cut_off
  after_loop true destroyed m sent = closed destroyed m sent
  after_loop false destroyed m sent = cut_off waiting m sent

  -- `run` of a publisher after its timer.
  unfoldable pub run :
      Armed → Outside → (Timespec → List Wake → List R) → (Made → List Call) → Made → Ran R
  unfolding after_loop cut_off
  run (armed ts) o thread destroyed m =
      after_loop (leaves o.wakes) destroyed m (thread o.started o.wakes)
  run exited o thread destroyed m = cut_off exits_1 m []

  -- `main` of a publisher, from the configuration that `init` reads.
  unfoldable pub publish_configured :
      {S : Type 0}
      → PublisherClass S
      → (Timespec → List Wake → List R)
      → Outside
      → Option Config
      → Ran R
  unfolding run closed
  publish_configured class thread o none = record { ended = uncaught; calls = []; sent = [] }
  publish_configured class thread o (some c) =
      let m = class.init_ o.fast_dds c in
      let destroyed : Made → List Call = λ made. class.destroy_ made.pointers in
      let interval_ms = (read_config c).interval_ms_ in
      if m.succeeded
      then run (class.arm_ o.handler_set o.timer_created o.timer_settime interval_ms) o thread
          destroyed m
      else closed destroyed m []

  unfoldable pub publisher_main :
      {S : Type 0} → PublisherClass S → (Timespec → List Wake → List R) → Outside → Ran R
  unfolding publish_configured config_directory
  publisher_main class thread o =
      publish_configured class thread o
        (o.load (config_directory o.executable) "/config/config.yaml")

  -- `run` of the subscriber, whose waits are those of its loop.
  unfoldable pub wait_loop : Outside → (Made → List Call) → Made → Ran R
  unfolding after_loop cut_off
  wait_loop o destroyed m =
      if o.handler_set then after_loop (leaves o.wakes) destroyed m [] else cut_off exits_1 m []

  -- `main` of the subscriber.
  unfoldable pub subscribe_configured : SubscriberClass → Outside → Option Config → Ran R
  unfolding wait_loop closed
  subscribe_configured class o none = record { ended = uncaught; calls = []; sent = [] }
  subscribe_configured class o (some c) =
      let m = class.init_ o.fast_dds c in
      let destroyed : Made → List Call = λ made. class.destroy_ made.pointers in
      if m.succeeded then wait_loop o destroyed m else closed destroyed m []

  unfoldable pub subscriber_main : SubscriberClass → Outside → Ran R
  unfolding subscribe_configured config_directory
  subscriber_main class o =
      subscribe_configured class o (o.load (config_directory o.executable) "/config/config.yaml")

-- With the index that a message is made with.
unfoldable pub ros_type_data_publisher_main : (ℕ → String) → ℕ → Outside → Ran Report
unfolding publisher_main ros_type_data_publisher
ros_type_data_publisher_main to_string index o =
    publisher_main ros_type_data_publisher
      (ros_type_data_publisher.run_thread_ to_string false index) o

unfoldable pub cyclic_ros_data_publisher_main : Outside → Ran (ℤ × ℤ)
unfolding publisher_main cyclic_ros_data_publisher
cyclic_ros_data_publisher_main o =
    publisher_main cyclic_ros_data_publisher (cyclic_ros_data_publisher.run_thread_ false) o

unfoldable pub ros_type_data_subscriber_main : Outside → Ran ℕ
unfolding subscriber_main ros_type_data_subscriber
ros_type_data_subscriber_main o = subscriber_main ros_type_data_subscriber o

-- The three programs, and how they end.
pub data Program : Type 0 where
  ros_type_data_publishing : (to_string : ℕ → String) (index : ℕ) → Program
  cyclic_ros_data_publishing ros_type_data_subscribing : Program

unfoldable pub end_of : Program → Outside → Ended × List Call
unfolding ros_type_data_publisher_main cyclic_ros_data_publisher_main ros_type_data_subscriber_main
end_of (ros_type_data_publishing to_string index) o =
    let r = ros_type_data_publisher_main to_string index o in (r.ended, r.calls)
end_of cyclic_ros_data_publishing o = let r = cyclic_ros_data_publisher_main o in (r.ended, r.calls)
end_of ros_type_data_subscribing o = let r = ros_type_data_subscriber_main o in (r.ended, r.calls)
