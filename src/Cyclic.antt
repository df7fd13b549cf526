-- ===== src/Cyclic.antt =====
-- The cyclic samples of fastdds_ws/apps (CustomROSTypeDataPublisher, CyclicROSDataPublisher and
-- CustomROSTypeDataSubscriber): their configuration, and `init`, which then makes the same calls of
-- Fast DDS as the other samples do. A value of the YAML file is `none` where it is missing or of
-- another type, so that the default of `as` is taken.
pub mod Timer
pub mod Thread
pub mod Life
pub mod Copies
pub mod Program
pub mod Tests
use rcl_like_wrapper_for_fas.Base.{
  ℕ, ◌≡◌, refl, Bool, true, false, ◌&&◌, Option, none, some, List, [], ◌∷◌, ◌==◌, if◌then◌else◌,
}
use Prim.Native.String as string
use Prim.Native.String.{String}
use rcl_like_wrapper_for_fas.Sample.{Answers, Made, nullptrs, init}

pub record TopicNode : Type 0 where
  pub name : Option String
  pub interval_ms : Option ℕ

-- `topics` is `none` where the node is no sequence.
pub record Config : Type 0 where
  pub shared_memory : Option Bool
  pub ros2_topic : Option Bool
  pub domain_number : Option ℕ
  pub topics : Option (List TopicNode)

pub record Settings : Type 0 where
  pub domain_number_ : ℕ
  pub topic_name_ : String
  pub interval_ms_ : ℕ

abbrev pub as_or {ℓ} : {A : Type ℓ} → Option A → A → A
as_or none default = default
as_or (some a) default = a

-- What the constructor sets.
abbrev pub defaults : Settings
defaults = record { domain_number_ = 0; topic_name_ = "default_topic"; interval_ms_ = 1000 }

topic_of : Bool → String → String
topic_of true name = string.◌++◌ "rt/" name
topic_of false name = name

-- The loop over the topics, each of which overwrites what the one before has set.
read_topics : Bool → List TopicNode → Settings → Settings
unfolding topic_of
read_topics ros2 [] s = s
read_topics ros2 (t ∷ ts) s = read_topics ros2 ts (record s {
  topic_name_ = topic_of ros2 (as_or t.name "default_topic");
  interval_ms_ = as_or t.interval_ms 1000;
})

unfoldable pub read_config : Config → Settings
unfolding read_topics
read_config c =
    read_topics (as_or c.ros2_topic true) (as_or c.topics [])
      (record defaults { domain_number_ = as_or c.domain_number 0 })

-- Returned before any call of Fast DDS.
pub refuse : Made
refuse = record { calls = []; pointers = nullptrs; succeeded = false }

-- The test of the interval, which the publishers have.
pub checked : Bool → (Bool → Answers) → Bool → Settings → Made
unfolding refuse
checked has_interval fast_dds shared s =
    if has_interval && s.interval_ms_ == 0
    then refuse
    else init s.topic_name_ false (fast_dds shared)

pub init_with : Bool → (ℕ → Bool → Answers) → Config → Made
unfolding refuse checked
init_with has_interval fast_dds c =
    let shared = as_or c.shared_memory false in
    let s = read_config c in
    if as_or c.ros2_topic true && shared
    then refuse
    else checked has_interval (fast_dds s.domain_number_) shared s

-- `init` of the publishers, from what Fast DDS answers in a domain with or without shared memory.
unfoldable pub publisher_init : (ℕ → Bool → Answers) → Config → Made
unfolding init_with
publisher_init fast_dds c = init_with true fast_dds c

-- `init` of the subscriber, which does not read the intervals.
unfoldable pub subscriber_init : (ℕ → Bool → Answers) → Config → Made
unfolding init_with
subscriber_init fast_dds c = init_with false fast_dds c
