-- ===== src/Subscriber/Endpoint.antt =====
-- The constructor and the destructor of `Subscriber` in
-- lwrcl/libraries/src/lwrcl/include/subscriber.hpp.
use rcl_like_wrapper_for_fas.Base.{ℕ, Bool, true, false, Option, none, some, List, [], ◌∷◌}
use rcl_like_wrapper_for_fas.Endpoint.{
  Call, registered, found, created, refused, deleted, topic, group, end_point, no_type, no_topic,
  no_group, no_end_point, Traced, ◌>>=◌, ◌>>◌, call, throw, return, Answers, Handles,
}

register : Bool → Traced (Unit {0})
register true = call (registered true)
register false = do call (registered false); throw no_type

made_topic : Option ℕ → Traced ℕ
made_topic none = do call refused; throw no_topic
made_topic (some t) = do call (created (topic t)); return t

-- The topic of that name, new or already there.
find_topic : Option ℕ → Option ℕ → Traced ℕ
unfolding made_topic
find_topic none new = made_topic new
find_topic (some t) new = do call (found (topic t)); return t

made_subscriber : ℕ → Option ℕ → Traced ℕ
made_subscriber t none = do call refused; call (deleted (topic t)); throw no_group
made_subscriber t (some s) = do call (created (group s)); return s

made_reader : ℕ → ℕ → Option ℕ → Traced ℕ
made_reader t s none = do
  call refused
  call (deleted (group s))
  call (deleted (topic t))
  throw no_end_point
made_reader t s (some r) = do call (created (end_point r)); return r

-- The constructor.
unfoldable pub construct : Answers → Traced Handles
unfolding register find_topic made_subscriber made_reader ◌>>=◌
construct a = do
  register a.register_type
  t ← find_topic a.lookup_topicdescription a.create_topic
  s ← made_subscriber t a.create_group
  r ← made_reader t s a.create_end_point
  return (record { topic_ = t; group_ = s; end_point_ = r })

-- The destructor of an object that was constructed: its three pointers are set.
unfoldable pub destroy : Handles → List Call
destroy h =
    deleted (end_point h.end_point_) ∷ deleted (group h.group_) ∷ deleted (topic h.topic_) ∷ []
