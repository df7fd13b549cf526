-- ===== src/Publisher.antt =====
-- `PublisherListener` and `Publisher` of lwrcl/libraries/src/lwrcl/include/publisher.hpp.
use rcl_like_wrapper_for_fas.Base.{ℕ, Bool, true, false, Option, none, some, List, [], ◌∷◌}
use rcl_like_wrapper_for_fas.Base.Int.{ℤ}
use rcl_like_wrapper_for_fas.Endpoint.{
  Call, registered, found, created, refused, deleted, topic, group, end_point, no_type, no_topic,
  no_group, no_end_point, Traced, ◌>>=◌, ◌>>◌, call, throw, return, Answers, Handles,
}

pub record PublisherListener : Type 0 where
  pub count : ℤ

unfoldable pub on_publication_matched : ℤ → PublisherListener → PublisherListener
on_publication_matched current_count l = record l { count = current_count }

unfoldable pub get_subscriber_count : PublisherListener → ℤ
get_subscriber_count l = l.count

register : Bool → Traced (Unit {0})
register true = call (registered true)
register false = do call (registered false); throw no_type

made_topic : Option ℕ → Traced ℕ
made_topic none = do call refused; throw no_topic
made_topic (some t) = do call (created (topic t)); return t

-- The topic of that name, new or already there.
find_topic : Option ℕ → Option ℕ → Traced ℕ
unfolding made_topic
find_topic none new = made_topic new
find_topic (some t) new = do call (found (topic t)); return t

made_publisher : ℕ → Option ℕ → Traced ℕ
made_publisher t none = do call refused; call (deleted (topic t)); throw no_group
made_publisher t (some p) = do call (created (group p)); return p

made_writer : ℕ → ℕ → Option ℕ → Traced ℕ
made_writer t p none = do
  call refused
  call (deleted (group p))
  call (deleted (topic t))
  throw no_end_point
made_writer t p (some w) = do call (created (end_point w)); return w

-- The constructor.
unfoldable pub construct : Answers → Traced Handles
unfolding register find_topic made_publisher made_writer ◌>>=◌
construct a = do
  register a.register_type
  t ← find_topic a.lookup_topicdescription a.create_topic
  p ← made_publisher t a.create_group
  w ← made_writer t p a.create_end_point
  return (record { topic_ = t; group_ = p; end_point_ = w })

-- The destructor of an object that was constructed: its three pointers are set.
unfoldable pub destroy : Handles → List Call
destroy h =
    deleted (end_point h.end_point_) ∷ deleted (group h.group_) ∷ deleted (topic h.topic_) ∷ []

-- `publish`, of `write` of the data writers.
abbrev publish {ℓ} : {M W : Type ℓ} → (ℕ → M → W → W) → Handles → M → W → W
publish write h message w = write h.end_point_ message w
