-- ===== src/Sample/Copies.antt =====
-- The copies of the sample publisher and subscriber, each under the name of its class: each differs
-- from the others in the types of its messages and the name of its topic.
use rcl_like_wrapper_for_fas.Base.{ℕ, Bool, true, false, Option, List}
use rcl_like_wrapper_for_fas.Base.Int.{ℤ}
use rcl_like_wrapper_for_fas.Encoding.Image.{Image, Mat, shared, swapped, exits, mat_from_image}
use Prim.Native.String.{String}
use rcl_like_wrapper_for_fas.Sample.{
  Call, Answers, Made, Pointers, init, destroy_publisher, destroy_subscriber,
}
use rcl_like_wrapper_for_fas.Sample.Publisher as publisher
use rcl_like_wrapper_for_fas.Sample.Subscriber as subscriber

pub record PublisherClass : Type 0 where
  pub init_ : Bool → Answers → Made
  pub destroy_ : Pointers → List Call
  pub on_publication_matched_ : publisher.Match → publisher.Listener → publisher.Listener
  pub run_thread_ : ℕ → List publisher.Round → publisher.Publisher → publisher.Run

-- `none` is a call of exit.
pub record SubscriberClass (M : Type 0) : Type 0 where
  pub init_ : Bool → Answers → Made
  pub destroy_ : Pointers → List Call
  pub on_subscription_matched_ : publisher.Match → subscriber.Listener → subscriber.Listener
  pub on_data_available_ : subscriber.Take M → subscriber.Listener → Option subscriber.Listener
  pub notice_ : List (subscriber.Report M) → subscriber.Listener → Option subscriber.Listener
  pub run_ : ℕ → List (List (subscriber.Report M)) → subscriber.Listener → subscriber.Run

publisher_of : String → PublisherClass
publisher_of topic = record {
  init_ = init topic;
  destroy_ = destroy_publisher;
  on_publication_matched_ = publisher.on_publication_matched;
  run_thread_ = publisher.run_thread;
}

subscriber_of : {M : Type 0} → (M → Bool) → String → SubscriberClass M
subscriber_of shows topic = record {
  init_ = init topic;
  destroy_ = destroy_subscriber;
  on_subscription_matched_ = subscriber.on_subscription_matched;
  on_data_available_ = subscriber.on_data_available shows;
  notice_ = subscriber.notice shows;
  run_ = subscriber.run shows;
}

-- A message that is printed, or not looked at.
abbrev printed : Unit {0} → Bool
printed m = true

unfoldable pub header_publisher : PublisherClass
unfolding publisher_of
header_publisher = publisher_of "rt/HeaderTopic"

unfoldable pub image_publisher : PublisherClass
unfolding publisher_of
image_publisher = publisher_of "rt/image_raw"

unfoldable pub point_cloud_publisher : PublisherClass
unfolding publisher_of
point_cloud_publisher = publisher_of "rt/point_cloud"

unfoldable pub transform_stamped_publisher : PublisherClass
unfolding publisher_of
transform_stamped_publisher = publisher_of "rt/TransformStampedTopic"

unfoldable pub header_subscriber : SubscriberClass Unit
unfolding subscriber_of
header_subscriber = subscriber_of printed "rt/HeaderTopic"

-- `matFromImage` of a message, which ends the program by exit(-1) where it can make no matrix of it;
-- the matrix is shown.
is_matrix : Mat → Bool
is_matrix (shared t) = true
is_matrix (swapped n pairs) = true
is_matrix exits = false

unfoldable pub shows_image : (String → ℤ) → Image → Bool
unfolding is_matrix
shows_image atoi m = is_matrix (mat_from_image atoi m)

unfoldable pub image_subscriber : (String → ℤ) → SubscriberClass Image
unfolding subscriber_of shows_image
image_subscriber atoi = subscriber_of (shows_image atoi) "rt/repub_raw"

unfoldable pub point_cloud_subscriber : SubscriberClass Unit
unfolding subscriber_of
point_cloud_subscriber = subscriber_of printed "rt/point_cloud"

unfoldable pub transform_stamped_subscriber : SubscriberClass Unit
unfolding subscriber_of
transform_stamped_subscriber = subscriber_of printed "rt/TransformStampedTopic"

pub data Sample : Type 0 where
  header image point_cloud transform_stamped : Sample

unfoldable pub publisher_class : Sample → PublisherClass
unfolding header_publisher image_publisher point_cloud_publisher transform_stamped_publisher
publisher_class header = header_publisher
publisher_class image = image_publisher
publisher_class point_cloud = point_cloud_publisher
publisher_class transform_stamped = transform_stamped_publisher

-- What a subscriber reads of its messages.
abbrev pub Message : Sample → Type 0
Message header = Unit
Message image = Image
Message point_cloud = Unit
Message transform_stamped = Unit

unfoldable pub subscriber_class :
    (String → ℤ) → (sample : Sample) → SubscriberClass (Message sample)
unfolding header_subscriber image_subscriber point_cloud_subscriber transform_stamped_subscriber
subscriber_class atoi header = header_subscriber
subscriber_class atoi image = image_subscriber atoi
subscriber_class atoi point_cloud = point_cloud_subscriber
subscriber_class atoi transform_stamped = transform_stamped_subscriber
