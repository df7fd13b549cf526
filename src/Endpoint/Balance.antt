-- ===== src/Endpoint/Balance.antt =====
-- No constructor and no destructor leaks an entity of the participant or deletes one twice.
use rcl_like_wrapper_for_fas.Base.{
  ℕ, ◌≡◌, refl, Bool, true, false, Option, none, some, List, [], ◌∷◌, ◌++◌, ◌==◌, if◌then◌else◌,
  arith,
}
use rcl_like_wrapper_for_fas.Endpoint.{
  Entity, topic, group, end_point, Call, registered, found, created, refused, deleted, Result, ok,
  threw, Traced, Answers, Handles,
}
use rcl_like_wrapper_for_fas.Publisher
use rcl_like_wrapper_for_fas.Subscriber.Endpoint as subscriber

abbrev pub same_entity : Entity → Entity → Bool
same_entity (topic a) (topic b) = a == b
same_entity (group a) (group b) = a == b
same_entity (end_point a) (end_point b) = a == b
same_entity _ _ = false

-- The entities that are held after these calls, the last one taken on top; `none` if some call
-- deletes another entity than the last one taken.
abbrev pub settle : List Call → List Entity → Option (List Entity)
settle [] held = some held
settle (registered b ∷ cs) held = settle cs held
settle (refused ∷ cs) held = settle cs held
settle (found e ∷ cs) held = settle cs (e ∷ held)
settle (created e ∷ cs) held = settle cs (e ∷ held)
settle (deleted e ∷ cs) [] = none
settle (deleted e ∷ cs) (x ∷ held) =
    let rest = settle cs held in if same_entity x e then rest else none

-- A constructor that throws holds nothing; one that returns holds the three entities whose pointers
-- it has set, and the destructor gives all of them back.
abbrev pub IsBalanced : (Handles → List Call) → Traced Handles → Type 0
IsBalanced destroy t = by_result t.result
  where
    by_result : Result Handles → Type 0
    by_result (threw e) = settle t.calls [] ≡ some []
    by_result (ok h) =
        (settle t.calls [] ≡ some (end_point h.end_point_ ∷ group h.group_ ∷ topic h.topic_ ∷ []))
        × (settle (t.calls ++ destroy h) [] ≡ some [])

abbrev answers : Bool → Option ℕ → Option ℕ → Option ℕ → Option ℕ → Answers
answers register lookup new_topic new_group new_end_point = record {
  register_type = register;
  lookup_topicdescription = lookup;
  create_topic = new_topic;
  create_group = new_group;
  create_end_point = new_end_point;
}

publisher_cases :
    (register : Bool) (lookup new_topic new_group new_end_point : Option ℕ)
    → IsBalanced Publisher.destroy
        (Publisher.construct (answers register lookup new_topic new_group new_end_point))
unfolding Publisher.construct Publisher.destroy
publisher_cases false lookup new_topic new_group new_end_point = refl
publisher_cases true none none new_group new_end_point = refl
publisher_cases true none (some t) none new_end_point = ground arith
publisher_cases true none (some t) (some g) none = ground arith
publisher_cases true none (some t) (some g) (some e) = (refl, ground arith)
publisher_cases true (some t) new_topic none new_end_point = ground arith
publisher_cases true (some t) new_topic (some g) none = ground arith
publisher_cases true (some t) new_topic (some g) (some e) = (refl, ground arith)

-- Whatever the participant answers, the constructor of `Publisher` either throws and has given
-- back everything it took, in reverse order, or returns and holds a topic, a group and an end
-- point, which the destructor gives back in reverse order.
pub publisher-IsBalanced : (a : Answers) → IsBalanced Publisher.destroy (Publisher.construct a)
publisher-IsBalanced a =
    publisher_cases a.register_type a.lookup_topicdescription a.create_topic a.create_group
      a.create_end_point

subscriber_cases :
    (register : Bool) (lookup new_topic new_group new_end_point : Option ℕ)
    → IsBalanced subscriber.destroy
        (subscriber.construct (answers register lookup new_topic new_group new_end_point))
unfolding subscriber.construct subscriber.destroy
subscriber_cases false lookup new_topic new_group new_end_point = refl
subscriber_cases true none none new_group new_end_point = refl
subscriber_cases true none (some t) none new_end_point = ground arith
subscriber_cases true none (some t) (some g) none = ground arith
subscriber_cases true none (some t) (some g) (some e) = (refl, ground arith)
subscriber_cases true (some t) new_topic none new_end_point = ground arith
subscriber_cases true (some t) new_topic (some g) none = ground arith
subscriber_cases true (some t) new_topic (some g) (some e) = (refl, ground arith)

-- Whatever the participant answers, the constructor of `Subscriber` either throws and has given
-- back everything it took, in reverse order, or returns and holds a topic, a group and an end
-- point, which the destructor gives back in reverse order.
subscriber-IsBalanced : (a : Answers) → IsBalanced subscriber.destroy (subscriber.construct a)
subscriber-IsBalanced a =
    subscriber_cases a.register_type a.lookup_topicdescription a.create_topic a.create_group
      a.create_end_point
