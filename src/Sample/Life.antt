-- ===== src/Sample/Life.antt =====
-- The entities of a sample from `init` to the destructor, against the rules of Fast DDS: an entity
-- is deleted once, a topic and a group after the end points that use them, the participant last.
use rcl_like_wrapper_for_fas.Base.{
  ℕ, ◌≡◌, refl, Bool, true, false, ◌&&◌, Option, none, some, List, [], ◌∷◌, ◌++◌, ◌==◌, arith,
  ==_self,
}
use Prim.Native.String.{String}
use rcl_like_wrapper_for_fas.Base.Int.{ℤ}
use rcl_like_wrapper_for_fas.Sample.{
  Made, participant, group, topic, end_point, Call, created, deleted, Answers, Pointers, nullptrs,
  init, destroy_publisher, destroy_subscriber,
}
use rcl_like_wrapper_for_fas.Sample.Copies.{
  Sample, header, image, point_cloud, transform_stamped, publisher_class, subscriber_class,
}

abbrev is_null : Option ℕ → Bool
is_null none = true
is_null (some e) = false

abbrev is_at : Option ℕ → ℕ → Bool
is_at none e = false
is_at (some x) e = x == e

-- What exists after one call; `none` if the call breaks a rule.
abbrev make : Bool → Pointers → Option Pointers
make true w = some w
make false w = none

abbrev pub obey : Call → Pointers → Option Pointers
obey (created (participant p)) w =
    make (is_null w.participant_) (record w { participant_ = some p })
obey (created (group g)) w = make (is_null w.group_) (record w { group_ = some g })
obey (created (topic t)) w = make (is_null w.topic_) (record w { topic_ = some t })
obey (created (end_point e)) w = make (is_null w.end_point_) (record w { end_point_ = some e })
obey (deleted (end_point e)) w = make (is_at w.end_point_ e) (record w { end_point_ = none })
obey (deleted (group g)) w =
    make (is_at w.group_ g && is_null w.end_point_) (record w { group_ = none })
obey (deleted (topic t)) w =
    make (is_at w.topic_ t && is_null w.end_point_) (record w { topic_ = none })
obey (deleted (participant p)) w =
    make (is_at w.participant_ p && is_null w.group_ && is_null w.topic_ && is_null w.end_point_)
      (record w { participant_ = none })
obey _ w = some w

abbrev next : List Call → Option Pointers → Option Pointers
next calls none = none
next [] (some w) = some w
next (c ∷ calls) (some w) = next calls (obey c w)

abbrev pub obey_all : List Call → Pointers → Option Pointers
obey_all calls w = next calls (some w)

-- The answers, one by one.
abbrev answers : Option ℕ → Option ℕ → (String → Option ℕ) → Option ℕ → Answers
answers p g t e = record {
  create_participant = p;
  create_group = g;
  create_topic = t;
  create_end_point = e;
}

module _ (destroy : Pointers → List Call) where
  -- The destructor leaves nothing behind whatever `init` did.
  abbrev pub Clears : Made → Type 0
  Clears m = obey_all (m.calls ++ destroy m.pointers) nullptrs ≡ some nullptrs

publisher_cases :
    (name : String) (use_env : Bool) (p g x e : Option ℕ) (t : String → Option ℕ)
    → t name ≡ x
    → Clears destroy_publisher (init name use_env (answers p g t e))
unfolding init destroy_publisher
publisher_cases name use_env none g x e t h = ground (arith)
publisher_cases name use_env (some p) none x e t h = ground (arith, ==_self p)
publisher_cases name use_env (some p) (some g) none e t h = ground (arith, h, ==_self p, ==_self g)
publisher_cases name use_env (some p) (some g) (some x) none t h =
    ground (arith, h, ==_self p, ==_self g, ==_self x)
publisher_cases name use_env (some p) (some g) (some x) (some e) t h =
    ground (arith, h, ==_self p, ==_self g, ==_self x, ==_self e)

subscriber_cases :
    (name : String) (use_env : Bool) (p g x e : Option ℕ) (t : String → Option ℕ)
    → t name ≡ x
    → Clears destroy_subscriber (init name use_env (answers p g t e))
unfolding init destroy_subscriber
subscriber_cases name use_env none g x e t h = ground (arith)
subscriber_cases name use_env (some p) none x e t h = ground (arith, ==_self p)
subscriber_cases name use_env (some p) (some g) none e t h = ground (arith, h, ==_self p, ==_self g)
subscriber_cases name use_env (some p) (some g) (some x) none t h =
    ground (arith, h, ==_self p, ==_self g, ==_self x)
subscriber_cases name use_env (some p) (some g) (some x) (some e) t h =
    ground (arith, h, ==_self p, ==_self g, ==_self x, ==_self e)

pub publisher_init-Clears :
    (name : String) (use_env : Bool) (a : Answers) → Clears destroy_publisher (init name use_env a)
publisher_init-Clears name use_env a =
    publisher_cases name use_env a.create_participant a.create_group (a.create_topic name)
      a.create_end_point a.create_topic refl

pub subscriber_init-Clears :
    (name : String) (use_env : Bool) (a : Answers) → Clears destroy_subscriber (init name use_env a)
subscriber_init-Clears name use_env a =
    subscriber_cases name use_env a.create_participant a.create_group (a.create_topic name)
      a.create_end_point a.create_topic refl

-- In each of the four samples, whatever Fast DDS answers to `init`, with or without the environment,
-- the calls of `init` and of the destructor keep the rules, each entity is deleted once, and none is
-- left; this holds of the publisher and of the subscriber.
pub class-Clears :
    (atoi : String → ℤ) (sample : Sample) (use_env : Bool) (a : Answers)
    → let p = publisher_class sample in
      let s = subscriber_class atoi sample in
      Clears p.destroy_ (p.init_ use_env a) × Clears s.destroy_ (s.init_ use_env a)
unfolding publisher_class subscriber_class
class-Clears atoi header use_env a =
    (publisher_init-Clears _ use_env a, subscriber_init-Clears _ use_env a)
class-Clears atoi image use_env a =
    (publisher_init-Clears _ use_env a, subscriber_init-Clears _ use_env a)
class-Clears atoi point_cloud use_env a =
    (publisher_init-Clears _ use_env a, subscriber_init-Clears _ use_env a)
class-Clears atoi transform_stamped use_env a =
    (publisher_init-Clears _ use_env a, subscriber_init-Clears _ use_env a)
