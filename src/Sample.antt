-- ===== src/Sample.antt =====
-- The sample programs of fastdds_ws/apps (HeaderTest, ImageTest, PointCloudTest and
-- TransformStampedTest), which are copies of one another up to the types and the names of topics:
-- `init` of their publishers and subscribers, line by line the same calls of Fast DDS, and the two
-- destructors. The answers of Fast DDS are arguments.
pub mod Life
pub mod Publisher
pub mod Subscriber
pub mod Copies
pub mod Main
pub mod Programs
pub mod Tests
use rcl_like_wrapper_for_fas.Base.{
  ℕ, Bool, true, false, Option, none, some, List, [], ◌∷◌, ◌++◌, if◌then◌else◌,
}
use Prim.Native.String.{String}

-- The group is a DDS publisher or subscriber, the end point a data writer or reader.
pub data Entity : Type 0 where
  participant group topic end_point : ℕ → Entity

-- `deleted_null` is `delete_participant(nullptr)`.
pub data Call : Type 0 where
  profiles_loaded default_qos type_registered refused deleted_null : Call
  created deleted : Entity → Call

pub record Answers : Type 0 where
  pub create_participant : Option ℕ
  pub create_group : Option ℕ
  pub create_topic : String → Option ℕ
  pub create_end_point : Option ℕ

pub record Pointers : Type 0 where
  pub participant_ : Option ℕ
  pub group_ : Option ℕ
  pub topic_ : Option ℕ
  pub end_point_ : Option ℕ

-- What the constructors set.
abbrev pub nullptrs : Pointers
nullptrs = record { participant_ = none; group_ = none; topic_ = none; end_point_ = none }

-- How `init` ends: the calls that it has made, the pointers that it has set, and its result.
pub record Made : Type 0 where
  pub calls : List Call
  pub pointers : Pointers
  pub succeeded : Bool

abbrev pub after : List Call → Made → Made
after calls m = record m { calls = calls ++ m.calls }

stop : Pointers → Made
stop s = record { calls = refused ∷ []; pointers = s; succeeded = false }

when_env : Bool → Call → List Call
when_env use_env c = if use_env then c ∷ [] else []

made_end_point : Option ℕ → Pointers → Made
unfolding stop
made_end_point none s = stop s
made_end_point (some e) s = record {
  calls = created (end_point e) ∷ [];
  pointers = record s { end_point_ = some e };
  succeeded = true;
}

made_topic : Bool → Answers → Option ℕ → Pointers → Made
unfolding stop when_env made_end_point
made_topic use_env a none s = stop s
made_topic use_env a (some t) s =
    after (created (topic t) ∷ when_env use_env default_qos)
      (made_end_point a.create_end_point (record s { topic_ = some t }))

made_group : String → Bool → Answers → Option ℕ → Pointers → Made
unfolding stop when_env made_topic
made_group name use_env a none s = stop s
made_group name use_env a (some g) s =
    after (created (group g) ∷ when_env use_env default_qos)
      (made_topic use_env a (a.create_topic name) (record s { group_ = some g }))

made_participant : String → Bool → Answers → Option ℕ → Pointers → Made
unfolding stop when_env made_group
made_participant name use_env a none s = stop s
made_participant name use_env a (some p) s =
    after (created (participant p) ∷ type_registered ∷ when_env use_env default_qos)
      (made_group name use_env a a.create_group (record s { participant_ = some p }))

-- `init` of an object whose end point is for the topic of that name.
unfoldable pub init : String → Bool → Answers → Made
unfolding when_env made_participant
init name use_env a =
    after (when_env use_env profiles_loaded ++ when_env use_env default_qos)
      (made_participant name use_env a a.create_participant nullptrs)

delete_if_set : (ℕ → Entity) → Option ℕ → List Call
delete_if_set kind none = []
delete_if_set kind (some e) = deleted (kind e) ∷ []

delete_participant : Option ℕ → List Call
delete_participant none = deleted_null ∷ []
delete_participant (some p) = deleted (participant p) ∷ []

-- The destructor of a publisher.
unfoldable pub destroy_publisher : Pointers → List Call
unfolding delete_if_set delete_participant
destroy_publisher s =
    delete_if_set end_point s.end_point_
    ++ delete_if_set group s.group_
    ++ delete_if_set topic s.topic_
    ++ delete_participant s.participant_

-- The destructor of a subscriber.
unfoldable pub destroy_subscriber : Pointers → List Call
unfolding delete_if_set delete_participant
destroy_subscriber s =
    delete_if_set end_point s.end_point_
    ++ delete_if_set topic s.topic_
    ++ delete_if_set group s.group_
    ++ delete_participant s.participant_
