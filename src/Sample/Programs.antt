-- ===== src/Sample/Programs.antt =====
-- The programs of the samples (the `main` of each): what they run after their arguments are read,
-- up to the destructor of the object that they make.
pub mod Clean
use rcl_like_wrapper_for_fas.Base.{
  ℕ, Bool, true, false, Option, none, some, List, [], ◌∷◌, ◌++◌, if◌then◌else◌,
}
use rcl_like_wrapper_for_fas.Sample.{Call, Answers, Made}
use rcl_like_wrapper_for_fas.Base.Int.{ℤ, pos}
use Prim.Native.String.{String}
use rcl_like_wrapper_for_fas.Encoding.Image.{Image}
use rcl_like_wrapper_for_fas.Sample.Subscriber.{Report, Listener}
use rcl_like_wrapper_for_fas.Sample.Publisher.{Round, Run, returned, waiting, overflow, start}
use rcl_like_wrapper_for_fas.Sample.Copies.{
  Sample, header, image, point_cloud, transform_stamped, PublisherClass, SubscriberClass, Message,
  publisher_class, subscriber_class,
}
use rcl_like_wrapper_for_fas.Sample.Main.{Library, Parsed, Start, usage, publishes, subscribes}
use rcl_like_wrapper_for_fas.Sample.Main as arguments

-- How a program ends: it runs on, the number of a publisher's last message overflows, `main` returns a
-- status, or a listener calls exit.
pub data End : Type 0 where
  running overflows : End
  returns exits : ℕ → End

-- `written` is what has been sent.
pub record Ran : Type 0 where
  pub end : End
  pub calls : List Call
  pub written : List ℕ

-- What Fast DDS answers and reports, to a publisher in rounds; and whether Enter is pressed after what
-- it reports, which ends the wait of a subscriber.
pub record Outside (M : Type 0) : Type 0 where
  pub answers : Answers
  pub rounds : List Round
  pub reports : List (Report M)
  pub enter : Bool

closed_publisher : PublisherClass → Made → List ℕ → Ran
closed_publisher c m written = record {
  end = returns 0;
  calls = m.calls ++ c.destroy_ m.pointers;
  written = written;
}

after_run : PublisherClass → Made → Run → Ran
unfolding closed_publisher
after_run c m (returned t) = closed_publisher c m t.written
after_run c m (waiting t) = record { end = running; calls = m.calls; written = t.written }
after_run c m overflow = record { end = overflows; calls = m.calls; written = [] }

closed_subscriber : {M : Type 0} → SubscriberClass M → Made → Ran
closed_subscriber c m = record {
  end = returns 0;
  calls = m.calls ++ c.destroy_ m.pointers;
  written = [];
}

-- The wait for Enter, from the listener's state after the reports; exit(-1) has the status 255.
after_notice : {M : Type 0} → SubscriberClass M → Made → Bool → Option Listener → Ran
unfolding closed_subscriber
after_notice c m enter none = record { end = exits 255; calls = m.calls; written = [] }
after_notice c m true (some l) = closed_subscriber c m
after_notice c m false (some l) = record { end = running; calls = m.calls; written = [] }

module _ {M : Type 0} where
  run_publisher : PublisherClass → Made → ℕ → Outside M → Ran
  unfolding closed_publisher after_run
  run_publisher c m count o =
      if m.succeeded
      then after_run c m (c.run_thread_ count o.rounds start)
      else closed_publisher c m []

  run_subscriber : SubscriberClass M → Made → Outside M → Ran
  unfolding closed_subscriber after_notice
  run_subscriber c m o =
      if m.succeeded
      then after_notice c m o.enter
          (c.notice_ o.reports (record { matched_ = pos 0; samples_ = 0 }))
      else closed_subscriber c m

run_start : (sample : Sample) → (String → ℤ) → Start → Outside (Message sample) → Ran
unfolding run_publisher run_subscriber
run_start sample atoi (usage status) o = record { end = returns status; calls = []; written = [] }
run_start sample atoi (publishes count sleep env) o =
    let c = publisher_class sample in run_publisher c (c.init_ env o.answers) count o
run_start sample atoi (subscribes env) o =
    let c = subscriber_class atoi sample in run_subscriber c (c.init_ env o.answers) o

unfoldable pub header_main : Library → Parsed → Outside Unit → Ran
unfolding run_start
header_main lib p o = run_start header lib.atoi (arguments.main lib p) o

unfoldable pub image_main : Library → Parsed → Outside Image → Ran
unfolding run_start
image_main lib p o = run_start image lib.atoi (arguments.main lib p) o

unfoldable pub point_cloud_main : Library → Parsed → Outside Unit → Ran
unfolding run_start
point_cloud_main lib p o = run_start point_cloud lib.atoi (arguments.main lib p) o

unfoldable pub transform_stamped_main : Library → Parsed → Outside Unit → Ran
unfolding run_start
transform_stamped_main lib p o = run_start transform_stamped lib.atoi (arguments.main lib p) o

unfoldable pub program : (sample : Sample) → Library → Parsed → Outside (Message sample) → Ran
unfolding header_main image_main point_cloud_main transform_stamped_main
program header = header_main
program image = image_main
program point_cloud = point_cloud_main
program transform_stamped = transform_stamped_main
