-- ===== src/Endpoint/Tests.antt =====
-- Constructors that find their topic and then fail to make, or make, their end point.
use rcl_like_wrapper_for_fas.Base.{◌≡◌, refl, [], ◌∷◌, some, none, true, Option, ℕ}
use rcl_like_wrapper_for_fas.Endpoint.{
  Answers, registered, found, created, refused, deleted, topic, group, no_end_point, threw,
}
use rcl_like_wrapper_for_fas.Endpoint.Balance.{settle, publisher-IsBalanced}
use rcl_like_wrapper_for_fas.Publisher

abbrev answered : Option ℕ → Answers
answered last = record {
  register_type = true;
  lookup_topicdescription = some 4;
  create_topic = none;
  create_group = some 5;
  create_end_point = last;
}

construct_refused : Publisher.construct (answered none) ≡ record {
  calls =
      registered true
      ∷ found (topic 4)
      ∷ created (group 5)
      ∷ refused
      ∷ deleted (group 5)
      ∷ deleted (topic 4)
      ∷ [];
  result = threw no_end_point;
}
unfolding Publisher.construct
construct_refused = refl

publisher-IsBalanced_example : settle (Publisher.construct (answered none)).calls [] ≡ some []
unfolding Publisher.construct
publisher-IsBalanced_example = publisher-IsBalanced (answered none)
