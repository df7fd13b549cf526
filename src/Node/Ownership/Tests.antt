-- ===== src/Node/Ownership/Tests.antt =====
-- A node with a publisher, a subscription whose reader is refused, and a timer.
use rcl_like_wrapper_for_fas.Base.{
  ℕ, ◌≡◌, refl, true, Option, some, none, List, [], ◌∷◌, ◌++◌, if◌then◌else◌,
}
use Prim.Native.String.{String}
use text.Mathlib.Text.{◌==◌}
use rcl_like_wrapper_for_fas.Endpoint.{Answers, topic}
use rcl_like_wrapper_for_fas.Publisher
use rcl_like_wrapper_for_fas.Subscriber.Endpoint as subscriber
use rcl_like_wrapper_for_fas.Node.Ownership.{
  Create, publisher, subscription, timer, create, create_all, destroy, nothing,
}
use rcl_like_wrapper_for_fas.Node.Ownership.Counts.{taken, given_back}
use rcl_like_wrapper_for_fas.Node.Ownership.Balance.{destroy-balance}

abbrev answered : Option ℕ → Answers
answered last = record {
  register_type = true;
  lookup_topicdescription = none;
  create_topic = some 4;
  create_group = some 5;
  create_end_point = last;
}

-- The participant knows the topic "rt/pose" and refuses the end point of any other.
abbrev participant : String → Answers
participant name = if name == "rt/pose" then answered (some 6) else answered none

abbrev wishes : List Create
wishes = publisher participant "pose" ∷ timer 1 ∷ subscription participant "scan" ∷ []

owned : (create_all wishes nothing).1 ≡ record {
  publisher_list_ = record { topic_ = 4; group_ = 5; end_point_ = 6 } ∷ [];
  subscription_list_ = [];
  timer_list_ = 1 ∷ [];
}
unfolding create_all create Publisher.construct subscriber.construct
owned = refl

destroy-balance_example :
    let run = create_all wishes nothing in
    taken (topic 4) (run.0 ++ destroy run.1) ≡ given_back (topic 4) (run.0 ++ destroy run.1)
destroy-balance_example = destroy-balance (topic 4) wishes
