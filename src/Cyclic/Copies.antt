-- ===== src/Cyclic/Copies.antt =====
-- The classes of the cyclic samples, which share their code.
use rcl_like_wrapper_for_fas.Base.{ℕ, Bool, List, if◌then◌else◌}
use rcl_like_wrapper_for_fas.Base.Int.{ℤ, pos, negsuc, eqb_ℤ}
use Prim.Native.String.{String}
use rcl_like_wrapper_for_fas.Sample.{
  Call, Answers, Made, Pointers, destroy_publisher, destroy_subscriber,
}
use rcl_like_wrapper_for_fas.Sample.Publisher.{Match, Listener, on_publication_matched}
use rcl_like_wrapper_for_fas.Cyclic.{Config, publisher_init, subscriber_init}
use rcl_like_wrapper_for_fas.Cyclic.Timer.{Timespec, Setting, Armed, arm}
use rcl_like_wrapper_for_fas.Cyclic.Thread.{Wake, Report, run_thread, pose_run_thread}

pub record PublisherClass (R : Type 0) : Type 0 where
  pub init_ : (ℕ → Bool → Answers) → Config → Made
  pub destroy_ : Pointers → List Call
  pub on_publication_matched_ : Match → Listener → Listener
  pub arm_ : Bool → Bool → (Setting → Bool) → ℕ → Armed
  pub run_thread_ : R

unfoldable pub ros_type_data_publisher :
    PublisherClass ((ℕ → String) → Bool → ℕ → Timespec → List Wake → List Report)
ros_type_data_publisher = record {
  init_ = publisher_init;
  destroy_ = destroy_publisher;
  on_publication_matched_ = on_publication_matched;
  arm_ = arm;
  run_thread_ = run_thread;
}

-- `init` of the copy, which differs in the type of its message.
abbrev cyclic_init : (ℕ → Bool → Answers) → Config → Made
cyclic_init = publisher_init

unfoldable pub cyclic_ros_data_publisher :
    PublisherClass (Bool → Timespec → List Wake → List (ℤ × ℤ))
cyclic_ros_data_publisher = record {
  init_ = cyclic_init;
  destroy_ = destroy_publisher;
  on_publication_matched_ = on_publication_matched;
  arm_ = arm;
  run_thread_ = pose_run_thread;
}

-- The listener of the subscriber, whose only state is `matched_`.
unfoldable pub on_subscription_matched : Match → ℤ → ℤ
on_subscription_matched info matched_ =
    if eqb_ℤ info.current_count_change (pos 1)
    then info.total_count
    else if eqb_ℤ info.current_count_change (negsuc 0)
    then info.total_count
    else matched_

pub record SubscriberClass : Type 0 where
  pub init_ : (ℕ → Bool → Answers) → Config → Made
  pub destroy_ : Pointers → List Call
  pub on_subscription_matched_ : Match → ℤ → ℤ

unfoldable pub ros_type_data_subscriber : SubscriberClass
ros_type_data_subscriber = record {
  init_ = subscriber_init;
  destroy_ = destroy_subscriber;
  on_subscription_matched_ = on_subscription_matched;
}
