-- ===== src/App.antt =====
-- The nodes of lwrcl/apps: their configuration and `init`, which asks `Node` for a publisher, a
-- subscription and a timer. A value of the YAML file is `none` where it is missing or of another
-- type, so that the default of `as` is taken. An exception of create_publisher or
-- create_subscription leaves `init`.
pub mod Life
pub mod Success
pub mod Image
pub mod Callbacks
pub mod Counts
pub mod Example
pub mod Copies
pub mod Main
pub mod Tests
use rcl_like_wrapper_for_fas.Base.{
  ℕ, Bool, true, false, Option, none, some, List, [], ◌∷◌, ◌++◌, ◌==◌, if◌then◌else◌,
}
use Prim.Native.String.{String}
use rcl_like_wrapper_for_fas.Endpoint.{Call, Error, Result, ok, threw, Answers, Handles}
use rcl_like_wrapper_for_fas.Publisher
use rcl_like_wrapper_for_fas.Subscriber.Endpoint as subscriber
use rcl_like_wrapper_for_fas.Node.Ownership.{
  Owner, nothing, Create, publisher, subscription, timer, create, topic_name,
}
use rcl_like_wrapper_for_fas.Cyclic.{TopicNode, as_or}

-- `topics` is what the data publishers read, the other two what the image nodes read.
pub record Config : Type 0 where
  pub topics : List TopicNode
  pub publish_topics : List TopicNode
  pub subscribe_topics : List (Option String)

pub record Settings : Type 0 where
  pub publish_topic_name_ : String
  pub subscribe_topic_name_ : String
  pub interval_ms_ : ℕ

-- What the constructors set.
abbrev pub defaults : Settings
defaults = record {
  publish_topic_name_ = "default_topic";
  subscribe_topic_name_ = "default_topic";
  interval_ms_ = 1000;
}

-- The loops over the topics.
unfoldable pub read_topics : List TopicNode → Settings → Settings
read_topics [] s = s
read_topics (t ∷ ts) s = read_topics ts (record s {
  publish_topic_name_ = as_or t.name "default_topic";
  interval_ms_ = as_or t.interval_ms 1000;
})

unfoldable pub read_subscribe_topics : List (Option String) → Settings → Settings
read_subscribe_topics [] s = s
read_subscribe_topics (t ∷ ts) s =
    read_subscribe_topics ts (record s { subscribe_topic_name_ = as_or t "default_topic" })

-- What `init` has asked of the participant, the lists of the node after it, and how it ends.
pub record Init : Type 0 where
  pub calls : List Call
  pub owner : Owner
  pub ended : Result Bool

pub error : Result Handles → Option Error
error (ok h) = none
error (threw e) = some e

unfoldable pub error_of : Create → Option Error
unfolding error
error_of (publisher participant topic) =
    error (Publisher.construct (participant (topic_name topic))).result
error_of (subscription participant topic) =
    error (subscriber.construct (participant (topic_name topic))).result
error_of (timer t) = none

-- What follows a creation.
pub and_then : Option Error → List Call × Owner → Init → Init
and_then (some e) done rest = record { calls = done.0; owner = done.1; ended = threw e }
and_then none done rest = record rest { calls = done.0 ++ rest.calls }

-- One creation after the other, up to the first exception. None of them returns a null pointer, so
-- that the tests of `init` for one are always passed.
unfoldable pub create_until : List Create → Owner → Init
unfolding and_then
create_until [] o = record { calls = []; owner = o; ended = ok true }
create_until (c ∷ cs) o =
    let done = create c o in and_then (error_of c) done (create_until cs done.1)

-- The test of the interval.
unfoldable pub when_positive : Bool → Init → Init
when_positive true i = record { calls = []; owner = nothing; ended = ok false }
when_positive false i = i

-- The classes: CustomROSTypeDataPublisher and its copy for an executor, ROSTypeImagePubSub, and
-- ROSTypeImagePubSubEdge and -Mono with their copies.
pub data Class : Type 0 where
  data_publisher image_pub_sub image_filter : Class

unfoldable pub read_config : Class → Config → Settings
read_config data_publisher c = read_topics c.topics defaults
read_config image_pub_sub c =
    read_subscribe_topics c.subscribe_topics (read_topics c.publish_topics defaults)
read_config image_filter c =
    read_subscribe_topics c.subscribe_topics (read_topics c.publish_topics defaults)

unfoldable pub creates : Class → (String → Answers) → Settings → List Create
creates data_publisher participant s = publisher participant s.publish_topic_name_ ∷ timer 0 ∷ []
creates image_pub_sub participant s =
    publisher participant s.publish_topic_name_
    ∷ subscription participant s.subscribe_topic_name_
    ∷ timer 0
    ∷ []
creates image_filter participant s =
    publisher participant s.publish_topic_name_
    ∷ subscription participant s.subscribe_topic_name_
    ∷ []

unfoldable pub init : Class → (String → Answers) → Config → Init
unfolding when_positive
init class participant c =
    let s = read_config class c in
    when_positive (s.interval_ms_ == 0) (create_until (creates class participant s) nothing)
