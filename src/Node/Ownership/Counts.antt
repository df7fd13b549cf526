-- ===== src/Node/Ownership/Counts.antt =====
-- How many entities of the participant the constructors of lwrcl/libraries/src/lwrcl/include/publisher.hpp
-- and subscriber.hpp take and give back.
use rcl_like_wrapper_for_fas.Base.{
  ℕ, ◌+◌, ◌≡◌, refl, Bool, true, false, Option, none, some, List, [], ◌∷◌, ◌++◌, if◌then◌else◌,
  arith,
}
use rcl_like_wrapper_for_fas.Endpoint.{
  Entity, topic, group, end_point, Call, registered, found, created, refused, deleted, Result, ok,
  threw, Handles,
}
use rcl_like_wrapper_for_fas.Endpoint.Balance.{same_entity}
use rcl_like_wrapper_for_fas.Publisher
use rcl_like_wrapper_for_fas.Subscriber.Endpoint as subscriber

pub is : Entity → Entity → ℕ
is e x = if same_entity x e then 1 else 0

-- How often an entity was created or found, and how often it was deleted.
abbrev pub taken : Entity → List Call → ℕ
taken e [] = 0
taken e (found x ∷ cs) = is e x + taken e cs
taken e (created x ∷ cs) = is e x + taken e cs
taken e (registered b ∷ cs) = taken e cs
taken e (refused ∷ cs) = taken e cs
taken e (deleted x ∷ cs) = taken e cs

abbrev pub given_back : Entity → List Call → ℕ
given_back e [] = 0
given_back e (deleted x ∷ cs) = is e x + given_back e cs
given_back e (found x ∷ cs) = given_back e cs
given_back e (created x ∷ cs) = given_back e cs
given_back e (registered b ∷ cs) = given_back e cs
given_back e (refused ∷ cs) = given_back e cs

pub taken-append : (e : Entity) (xs ys : List Call) → taken e (xs ++ ys) ≡ taken e xs + taken e ys
taken-append e [] ys = omega arith
taken-append e (found x ∷ xs) ys = omega (arith, taken-append e xs ys)
taken-append e (created x ∷ xs) ys = omega (arith, taken-append e xs ys)
taken-append e (registered b ∷ xs) ys = taken-append e xs ys
taken-append e (refused ∷ xs) ys = taken-append e xs ys
taken-append e (deleted x ∷ xs) ys = taken-append e xs ys

pub given_back-append :
    (e : Entity) (xs ys : List Call) → given_back e (xs ++ ys) ≡ given_back e xs + given_back e ys
given_back-append e [] ys = omega arith
given_back-append e (found x ∷ xs) ys = given_back-append e xs ys
given_back-append e (created x ∷ xs) ys = given_back-append e xs ys
given_back-append e (registered b ∷ xs) ys = given_back-append e xs ys
given_back-append e (refused ∷ xs) ys = given_back-append e xs ys
given_back-append e (deleted x ∷ xs) ys = omega (arith, given_back-append e xs ys)

unfoldable pub held : Entity → Handles → ℕ
held e h = is e (end_point h.end_point_) + is e (group h.group_) + is e (topic h.topic_)

unfoldable pub held_result : Entity → Result Handles → ℕ
held_result e (ok h) = held e h
held_result e (threw x) = 0

pub publisher_counts :
    (e : Entity) (register : Bool) (lookup new_topic new_group new_end_point : Option ℕ)
    → let t = Publisher.construct (record {
      register_type = register;
      lookup_topicdescription = lookup;
      create_topic = new_topic;
      create_group = new_group;
      create_end_point = new_end_point;
    }) in
      taken e t.calls ≡ given_back e t.calls + held_result e t.result
unfolding Publisher.construct held held_result
publisher_counts e false lookup new_topic new_group new_end_point = refl
publisher_counts e true none none new_group new_end_point = refl
publisher_counts e true none (some t) none new_end_point = omega arith
publisher_counts e true none (some t) (some g) none = omega arith
publisher_counts e true none (some t) (some g) (some w) = omega arith
publisher_counts e true (some t) new_topic none new_end_point = omega arith
publisher_counts e true (some t) new_topic (some g) none = omega arith
publisher_counts e true (some t) new_topic (some g) (some w) = omega arith

pub subscriber_counts :
    (e : Entity) (register : Bool) (lookup new_topic new_group new_end_point : Option ℕ)
    → let t = subscriber.construct (record {
      register_type = register;
      lookup_topicdescription = lookup;
      create_topic = new_topic;
      create_group = new_group;
      create_end_point = new_end_point;
    }) in
      taken e t.calls ≡ given_back e t.calls + held_result e t.result
unfolding subscriber.construct held held_result
subscriber_counts e false lookup new_topic new_group new_end_point = refl
subscriber_counts e true none none new_group new_end_point = refl
subscriber_counts e true none (some t) none new_end_point = omega arith
subscriber_counts e true none (some t) (some g) none = omega arith
subscriber_counts e true none (some t) (some g) (some r) = omega arith
subscriber_counts e true (some t) new_topic none new_end_point = omega arith
subscriber_counts e true (some t) new_topic (some g) none = omega arith
subscriber_counts e true (some t) new_topic (some g) (some r) = omega arith
