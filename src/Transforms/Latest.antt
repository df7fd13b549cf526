-- ===== src/Transforms/Latest.antt =====
-- What the static broadcaster keeps: for each child frame the latest transform that was sent, and
-- what a listener's buffer holds after it has received that.
use rcl_like_wrapper_for_fas.Base.{
  ◌≡◌, refl, ap, ◌∙◌, ◌⊎◌, inl, inr, true, false, Option, none, some, List, [], ◌∷◌, ◌++◌,
  if◌then◌else◌, arith,
}
use Prim.Native.String.{String}
use text.Mathlib.Text.{◌==◌}
use text.Mathlib.TextEquality.{eq_iff}
use rcl_like_wrapper_for_fas.Transforms.{Transform, replace_match, store, send_static}

module _ {V : Type 0} where
  abbrev pub find : String → List (Transform V) → Option (Transform V)
  find c [] = none
  find c (t ∷ net) = if c == t.child_frame_id then some t else find c net

  -- The latest of the transforms in a call, and those before.
  abbrev pub latest : String → List (Transform V) → Option (Transform V) → Option (Transform V)
  latest c [] before = before
  latest c (t ∷ msgtf) before = latest c msgtf (if c == t.child_frame_id then some t else before)

  find-append :
      (c : String) (xs : List (Transform V)) (t : Transform V)
      → find c xs ≡ none
      → find c (xs ++ (t ∷ [])) ≡ (if c == t.child_frame_id then some t else none)
  find-append c [] t h = refl
  find-append c (u ∷ xs) t h = ground (arith, find-append c xs t)

  find-append_new :
      (c : String) (xs : List (Transform V)) (t : Transform V)
      → find t.child_frame_id xs ≡ none
      → find c (xs ++ (t ∷ [])) ≡ (if c == t.child_frame_id then some t else find c xs)
  find-append_new c [] t h = refl
  find-append_new c (u ∷ xs) t h = ground (
    arith,
    h,
    find-append_new c xs t,
    eq_iff c u.child_frame_id,
    eq_iff c t.child_frame_id,
    eq_iff t.child_frame_id u.child_frame_id,
  )

  replace_match-find :
      (t : Transform V) (c : String) (net : List (Transform V))
      → ((replace_match t net).1 ≡ true)
          × (find c (replace_match t net).0
              ≡ (if c == t.child_frame_id then some t else find c net))
        ⊎ ((replace_match t net).1 ≡ false)
          × ((replace_match t net).0 ≡ net)
          × (find t.child_frame_id net ≡ none)
  unfolding replace_match
  replace_match-find t c [] = inr (refl, refl, refl)
  replace_match-find t c (u ∷ net) = ground (
    arith,
    replace_match-find t c net,
    eq_iff t.child_frame_id u.child_frame_id,
    eq_iff c t.child_frame_id,
    eq_iff c u.child_frame_id,
  )

  store-find :
      (t : Transform V) (c : String) (net : List (Transform V))
      → find c (store t net) ≡ (if c == t.child_frame_id then some t else find c net)
  unfolding store
  store-find t c net = elim (replace_match-find t c net) [
    | inl (m, e) ↦ rw m e
    | inr (m, e, n) ↦ rw (m, e) (find-append_new c net t n)
  ]

  -- After a call of sendTransform the message of the static broadcaster holds, for every child
  -- frame, the last transform of the call that has this frame, and what it held before if none has.
  pub send_static-latest :
      (c : String) (msgtf net : List (Transform V))
      → find c (send_static msgtf net) ≡ latest c msgtf (find c net)
  unfolding send_static
  send_static-latest c [] net = refl
  send_static-latest c (t ∷ msgtf) net =
      send_static-latest c msgtf (store t net) ∙ ap (latest c msgtf) (store-find t c net)

  -- No child frame occurs twice.
  abbrev pub IsUnique : List (Transform V) → Type 0
  IsUnique [] = Unit
  IsUnique (t ∷ net) = (find t.child_frame_id net ≡ none) × IsUnique net

  append-IsUnique :
      (xs : List (Transform V)) (t : Transform V)
      → IsUnique xs
      → find t.child_frame_id xs ≡ none
      → IsUnique (xs ++ (t ∷ []))
  append-IsUnique [] t u h = (refl, tt)
  append-IsUnique (x ∷ xs) t (e, u) h = (
    ground (
      arith,
      h,
      find-append x.child_frame_id xs t e,
      eq_iff x.child_frame_id t.child_frame_id,
      eq_iff t.child_frame_id x.child_frame_id,
    ),
    append-IsUnique xs t u (ground (arith, h)),
  )

  replace_match-IsUnique :
      (t : Transform V) (net : List (Transform V)) → IsUnique net → IsUnique (replace_match t net).0
  unfolding replace_match
  replace_match-IsUnique t [] u = u
  replace_match-IsUnique t (x ∷ net) (e, u) = ground (
    arith,
    replace_match-IsUnique t net u,
    eq_iff t.child_frame_id x.child_frame_id,
    eq_iff x.child_frame_id t.child_frame_id,
    replace_match-find t x.child_frame_id net,
  )

  store-IsUnique :
      (t : Transform V) (net : List (Transform V)) → IsUnique net → IsUnique (store t net)
  unfolding store
  store-IsUnique t net u = elim (replace_match-find t t.child_frame_id net) [
    | inl (m, e) ↦ rw m (replace_match-IsUnique t net u)
    | inr (m, e, n) ↦ rw (m, e) (append-IsUnique net t u n)
  ]

  -- If the message of the static broadcaster has no two transforms of one child frame, neither has
  -- it after a call of sendTransform.
  pub send_static-IsUnique :
      (msgtf net : List (Transform V)) → IsUnique net → IsUnique (send_static msgtf net)
  unfolding send_static
  send_static-IsUnique [] net u = u
  send_static-IsUnique (t ∷ msgtf) net u =
      send_static-IsUnique msgtf (store t net) (store-IsUnique t net u)
