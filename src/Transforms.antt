-- ===== src/Transforms.antt =====
-- lwrcl/libraries/src/tf2_ros/src: sendTransform of StaticTransformBroadcaster and of
-- TransformBroadcaster, and the callback of TransformListener. A message on a topic is the list of
-- its transforms; what a transform holds beside its child frame is a type of the model's user, and
-- `setTransform` of tf2 is an argument.
pub mod Latest
pub mod Polling
pub mod Convert
pub mod Buffer
pub mod Interface
pub mod Listener
pub mod Arrival
pub mod Tests
use rcl_like_wrapper_for_fas.Base.{
  Bool, true, false, Option, none, some, List, [], ◌∷◌, ◌++◌, if◌then◌else◌,
}
use Prim.Native.String.{String}
use text.Mathlib.Text.{◌==◌}

pub record Transform (V : Type 0) : Type 0 where
  pub child_frame_id : String
  pub value : V

-- How a call of `setTransform` ends: with the new buffer, or with a TransformException that leaves
-- the buffer in a state.
pub data SetResult (B : Type 0) : Type 0 where
  stored rejected : B → SetResult B

module _ {V : Type 0} where
  -- The inner loop over `net_message_`: the list after it, and `match_found`.
  unfoldable pub replace_match : Transform V → List (Transform V) → List (Transform V) × Bool
  replace_match t [] = ([], false)
  replace_match t (u ∷ net) =
      let rest = replace_match t net in
      if t.child_frame_id == u.child_frame_id then (t ∷ net, true) else (u ∷ rest.0, rest.1)

  -- The body of the outer loop.
  unfoldable pub store : Transform V → List (Transform V) → List (Transform V)
  store t net =
      if (replace_match t net).1
      then (replace_match t net).0
      else (replace_match t net).0 ++ (t ∷ [])

  -- `net_message_` after a call of StaticTransformBroadcaster::sendTransform, which is also what
  -- the call publishes.
  unfoldable pub send_static : List (Transform V) → List (Transform V) → List (Transform V)
  send_static [] net = net
  send_static (t ∷ msgtf) net = send_static msgtf (store t net)

  -- The overload for one transform.
  unfoldable pub send_static_one : Transform V → List (Transform V) → List (Transform V)
  unfolding send_static
  send_static_one t net = send_static (t ∷ []) net

  copy : List (Transform V) → List (Transform V) → List (Transform V)
  copy [] message = message
  copy (t ∷ msgtf) message = copy msgtf (message ++ (t ∷ []))

  -- What TransformBroadcaster::sendTransform publishes.
  unfoldable pub send : List (Transform V) → List (Transform V)
  unfolding copy
  send msgtf = copy msgtf []

  unfoldable pub send_one : Transform V → List (Transform V)
  unfolding send
  send_one t = send (t ∷ [])

module _ {V B : Type 0} (set_transform : Transform V → Bool → B → SetResult B) where
  after_set : SetResult B → B
  after_set (stored b) = b
  after_set (rejected b) = b

  receive : List (Transform V) → Bool → B → B
  unfolding after_set
  receive [] is_static b = b
  receive (t ∷ message) is_static b =
      receive message is_static (after_set (set_transform t is_static b))

  -- The callback; `none` is a null pointer.
  unfoldable pub subscription_callback : Option (List (Transform V)) → Bool → B → B
  unfolding receive
  subscription_callback none is_static b = b
  subscription_callback (some message) is_static b = receive message is_static b
