-- ===== src/Transforms/Arrival.antt =====
-- From the static broadcaster to a listener: what a buffer answers after it has received the
-- message of the broadcaster, if it stores what it accepts.
use rcl_like_wrapper_for_fas.Base.{
  ◌≡◌, refl, ap, ◌∙◌, Bool, true, Option, none, some, List, [], ◌∷◌, if◌then◌else◌, All, arith,
}
use Prim.Native.String.{String}
use text.Mathlib.Text.{◌==◌}
use text.Mathlib.TextEquality.{eq_iff}
use rcl_like_wrapper_for_fas.Transforms.{
  Transform, SetResult, stored, send_static, receive, after_set, subscription_callback,
}
use rcl_like_wrapper_for_fas.Transforms.Latest.{
  find, latest, IsUnique, send_static-latest, send_static-IsUnique,
}

abbrev pub or_else {ℓ} : {A : Type ℓ} → Option A → Option A → Option A
or_else none b = b
or_else (some a) b = some a

or_else_new :
    {V : Type 0} (t : Transform V) (c : String) (message : List (Transform V))
    (b : Option (Transform V))
    → find t.child_frame_id message ≡ none
    → or_else (find c message) (if c == t.child_frame_id then some t else b)
      ≡ or_else (if c == t.child_frame_id then some t else find c message) b
or_else_new t c message b e = ground (arith, e, eq_iff c t.child_frame_id)

-- `setTransform` of static transforms: those that are valid are stored, and are then the answer
-- for their child frame.
pub record StoresStatic {V B : Type 0} (IsValid : Transform V → Type 0)
    (get : String → B → Option (Transform V)) (set_transform : Transform V → Bool → B → SetResult B)
    : Type 0 where
  pub buffer_after : Transform V → B → B
  pub accepts :
      (t : Transform V) (b : B) → IsValid t → set_transform t true b ≡ stored (buffer_after t b)
  pub answers :
      (t : Transform V) (b : B) (c : String)
      → IsValid t
      → get c (buffer_after t b) ≡ (if c == t.child_frame_id then some t else get c b)

module _ {V B : Type 0} (IsValid : Transform V → Type 0) (get : String → B → Option (Transform V))
    (set_transform : Transform V → Bool → B → SetResult B)
    (law : StoresStatic IsValid get set_transform) where
  receive-find :
      (c : String) (message : List (Transform V)) (b : B)
      → IsUnique message
      → All IsValid message
      → get c (receive set_transform message true b) ≡ or_else (find c message) (get c b)
  unfolding receive after_set
  receive-find c [] b u v = refl
  receive-find c (t ∷ message) b (e, u) (v, vs) = rw (law.accepts t b v) (
      receive-find c message (law.buffer_after t b) u vs
      ∙ ap (or_else (find c message)) (law.answers t b c v)
      ∙ or_else_new t c message (get c b) e)

  -- A listener that receives the message which a call of the static broadcaster publishes has, for
  -- every child frame, the latest transform that the broadcaster was given, and its own if it was
  -- given none, provided that no child frame occurred twice in the message before, that the
  -- transforms of the message are valid, and that the buffer stores valid transforms.
  pub callback-latest :
      (c : String) (msgtf net : List (Transform V)) (b : B)
      → IsUnique net
      → All IsValid (send_static msgtf net)
      → get c (subscription_callback set_transform (some (send_static msgtf net)) true b)
        ≡ or_else (latest c msgtf (find c net)) (get c b)
  unfolding subscription_callback
  callback-latest c msgtf net b u vs =
      receive-find c (send_static msgtf net) b (send_static-IsUnique msgtf net u) vs
      ∙ ap (λ x. or_else x (get c b)) (send_static-latest c msgtf net)
