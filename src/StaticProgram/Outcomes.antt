-- ===== src/StaticProgram/Outcomes.antt =====
-- What a successful run of `parse_args` and of `main` guarantees: the frame ids of the transform.
use rcl_like_wrapper_for_fas.Base.{
  ℕ, ◌≡◌, refl, sym, subst, ◌∙◌, Bool-cases, ◌≢◌, ◌⊎◌, inl, inr, true, false, some, List, [], ◌∷◌,
  arith,
}
use Prim.Native.String.{String}
use text.Mathlib.TextEquality.{eq_iff}
use rcl_like_wrapper_for_fas.StaticProgram.{
  Library, State, Parse, parsed, failed, thrown, ◌>>=◌, parse_args, finish, check_frames, scan,
  combine_rotations, old_style, initial,
}
use rcl_like_wrapper_for_fas.StaticProgram.Main.{
  TransformStamped, TransformData, sends, after_parse, main, node_message, transform_data,
}

-- Inversion of a chain that ended with the empty string.
>>=-eq-parsed :
    {A B : Type 0} (m : Parse A) (f : A → Parse B) {b : B}
    → (m >>= f) ≡ parsed b
    → (a : A) × (m ≡ parsed a) × (f a ≡ parsed b)
>>=-eq-parsed (parsed a) f h = (a, refl, h)
>>=-eq-parsed (failed m) f h = cc
>>=-eq-parsed thrown f h = cc

module _ {D : Type 0} (lib : Library D) where
  abbrev IsNamed : State D → Type 0
  IsNamed s = (s.frame_id ≢ "") × (s.child_frame_id ≢ "")

  check_frames-IsNamed : (s t : State D) → check_frames lib s ≡ parsed t → IsNamed t
  unfolding check_frames
  check_frames-IsNamed s t h = ground (arith, eq_iff (s.frame_id) "", eq_iff (s.child_frame_id) "")

  finish-rest :
      (s : State D)
      → s.help ≡ false
      → finish lib s
        ≡ (combine_rotations lib s >>= (λ t. old_style lib t.no_flag_args t) >>= check_frames lib)
  unfolding finish
  finish-rest s e = rw e

  finish-help : (s t : State D) → s.help ≡ true → finish lib s ≡ parsed t → t.help ≡ true
  unfolding finish
  finish-help s t e h = ground (arith)

  finish-IsNamed : (s t : State D) → finish lib s ≡ parsed t → (t.help ≡ true) ⊎ IsNamed t
  finish-IsNamed s t h = elim (Bool-cases s.help) [
    | inl e ↦ inl (finish-help s t e h)
    | inr e ↦
        let (u, _, k) = >>=-eq-parsed _ (check_frames lib) (sym (finish-rest s e) ∙ h) in
        inr (check_frames-IsNamed u t k)
  ]

  -- When `parse_args` ends with the empty string, it has seen a request for help, or neither of
  -- the two frame ids is empty.
  parse_args-IsNamed :
      (args : List String) (s : State D)
      → parse_args lib args ≡ parsed s
      → (s.help ≡ true) ⊎ IsNamed s
  unfolding parse_args
  parse_args-IsNamed [] s h = cc
  parse_args-IsNamed (arg ∷ args) s h =
      let (u, _, k) = >>=-eq-parsed (scan lib (arg ∷ args) (initial lib)) (finish lib) h in
      finish-IsNamed u s k

  node_message-transform :
      (seconds : ℕ → ℕ) (now : ℕ) (d : TransformData D) (m : TransformStamped D)
      → node_message seconds now d ≡ some m
      → (m.transform ≡ d) × (d.frame_id ≢ d.child_frame_id)
  unfolding node_message
  node_message-transform seconds now d m h = ground (arith, eq_iff (d.frame_id) (d.child_frame_id))

  after_parse-eq-sends :
      (seconds : ℕ → ℕ) (now : ℕ) (r : Parse (State D)) (m : TransformStamped D)
      → after_parse seconds now r ≡ sends m
      → (s : State D) × (r ≡ parsed s)
        × (s.help ≡ false)
        × (node_message seconds now (transform_data s) ≡ some m)
  unfolding after_parse
  after_parse-eq-sends seconds now (parsed s) m h = (s, refl, ground (arith), ground (arith))
  after_parse-eq-sends seconds now (failed message) m h = cc
  after_parse-eq-sends seconds now thrown m h = cc

  -- A transform that the program sends has two frame ids that are not empty and differ, whatever
  -- the arguments and the clock are.
  pub main_sends :
      (seconds : ℕ → ℕ) (now : ℕ) (args : List String) (m : TransformStamped D)
      → main lib seconds now args ≡ sends m
      → (m.transform.frame_id ≢ "")
        × (m.transform.child_frame_id ≢ "")
        × (m.transform.frame_id ≢ m.transform.child_frame_id)
  unfolding transform_data main
  main_sends seconds now args m h =
      let (s, e, b, k) = after_parse-eq-sends seconds now (parse_args lib args) m h in
      let (q, n) = node_message-transform seconds now (transform_data s) m k in
      elim (parse_args-IsNamed args s e) [
        | inl t ↦ cc
        | inr (f, c) ↦
            subst
              (λ d. (d.frame_id ≢ "") × (d.child_frame_id ≢ "") × (d.frame_id ≢ d.child_frame_id))
              (sym q) (f, c, n)
      ]
