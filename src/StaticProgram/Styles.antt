-- ===== src/StaticProgram/Styles.antt =====
-- The two styles of arguments of the static transform publisher, with flags and without: what
-- `main` sends when a translation, a quaternion and the frame ids are given.
use rcl_like_wrapper_for_fas.Base.{
  ℕ, ◌%◌, ◌^◌, ◌≡◌, refl, ◌∙◌, ◌≢◌, false, none, List, [], ◌∷◌, ◌++◌, append_assoc, ap, All, arith,
}
use Prim.Native.String.{String}
use text.Mathlib.Text.{◌==◌}
use text.Mathlib.TextEquality.{eq_iff}
use rcl_like_wrapper_for_fas.StaticProgram.{
  Library, State, number, converted, parsed, parse_args, ◌>>=◌, finish, check_frames, scan, visit,
  combine_rotations, old_style, initial, options, has_argument,
}
use rcl_like_wrapper_for_fas.StaticProgram.Main.{
  TransformData, sends, main, after_parse, node_message, transform_data,
}

-- The texts of the seven numbers, and the frame ids.
pub record Texts : Type 0 where
  pub tx : String
  pub ty : String
  pub tz : String
  pub rx : String
  pub ry : String
  pub rz : String
  pub rw_ : String
  pub frame : String
  pub child : String

abbrev pub new_args : Texts → List String
new_args t =
    "--x" ∷ t.tx ∷ "--y" ∷ t.ty ∷ "--z" ∷ t.tz ∷ "--qx" ∷ t.rx ∷ "--qy" ∷ t.ry ∷ "--qz" ∷ t.rz
    ∷ "--qw" ∷ t.rw_ ∷ "--frame-id" ∷ t.frame ∷ "--child-frame-id" ∷ t.child ∷ []

abbrev pub old_args : Texts → List String
old_args t = t.tx ∷ t.ty ∷ t.tz ∷ t.rx ∷ t.ry ∷ t.rz ∷ t.rw_ ∷ t.frame ∷ t.child ∷ []

pub ne-== : (s t : String) → s ≢ t → (s == t) ≡ false
ne-== s t h = ground (arith, eq_iff s t)

module _ {D : Type 0} (lib : Library D) where
  -- The texts are those of the numbers of a transform, and its frame ids are as `main` wants them.
  pub record Describes (t : Texts) (d : TransformData D) : Type 0 where
    pub tx_ok : lib.stod t.tx ≡ converted (d.translation.x)
    pub ty_ok : lib.stod t.ty ≡ converted (d.translation.y)
    pub tz_ok : lib.stod t.tz ≡ converted (d.translation.z)
    pub rx_ok : lib.stod t.rx ≡ converted (d.rotation.qx)
    pub ry_ok : lib.stod t.ry ≡ converted (d.rotation.qy)
    pub rz_ok : lib.stod t.rz ≡ converted (d.rotation.qz)
    pub rw_ok : lib.stod t.rw_ ≡ converted (d.rotation.qw)
    pub frame_ok : t.frame ≡ d.frame_id
    pub child_ok : t.child ≡ d.child_frame_id
    pub frame_named : t.frame ≢ ""
    pub child_named : t.child ≢ ""
    pub frames_differ : t.frame ≢ t.child

  pub number-eq :
      (name text : String) (f : D → State D) (v : D)
      → lib.stod text ≡ converted v
      → number lib name text f ≡ parsed (f v)
  unfolding number
  number-eq name text f v h = rw (number, h)

  -- With flags, the program sends the transform that the arguments describe: the seven numbers, the
  -- frame ids, and the time of the clock, whose nanoseconds are kept modulo 2 ^ 32.
  pub main-new_args :
      (seconds : ℕ → ℕ) (now : ℕ) (t : Texts) (d : TransformData D)
      → Describes t d
      → main lib seconds now (new_args t)
        ≡ sends (record { sec = seconds now; nanosec = now % 2 ^ 32; transform = d })
  unfolding main after_parse parse_args scan visit options has_argument finish combine_rotations
      old_style check_frames initial transform_data node_message
  main-new_args seconds now t d h = rw (
    number-eq _ t.tx _ _ h.tx_ok,
    number-eq _ t.ty _ _ h.ty_ok,
    number-eq _ t.tz _ _ h.tz_ok,
    number-eq _ t.rx _ _ h.rx_ok,
    number-eq _ t.ry _ _ h.ry_ok,
    number-eq _ t.rz _ _ h.rz_ok,
    number-eq _ t.rw_ _ _ h.rw_ok,
    ne-== t.frame "" h.frame_named,
    ne-== t.child "" h.child_named,
    ne-== t.frame t.child h.frames_differ,
    h.frame_ok,
    h.child_ok,
  )

  unfoldable pub keep : List String → State D → State D
  keep args s = record s { no_flag_args = s.no_flag_args ++ args }

  pub scan_one :
      (a : String) (s : State D) → options a ≡ none → scan lib (a ∷ []) s ≡ parsed (keep (a ∷ []) s)
  unfolding scan keep
  scan_one a s e = rw (scan, e)

  pub scan_more :
      (a b : String) (rest : List String) (s : State D)
      → options a ≡ none
      → scan lib (a ∷ b ∷ rest) s ≡ scan lib (b ∷ rest) (keep (a ∷ []) s)
  unfolding scan keep
  scan_more a b rest s e = rw (scan, e)

  -- Arguments that name no option are collected in their order.
  scan-plain :
      (a : String) (args : List String) (s : State D)
      → All (λ b. options b ≡ none) (a ∷ args)
      → scan lib (a ∷ args) s ≡ parsed (keep (a ∷ args) s)
  unfolding keep
  scan-plain a [] s (e, _) = scan_one a s e
  scan-plain a (b ∷ args) s (e, es) =
      scan_more a b args s e
      ∙ scan-plain b args (keep (a ∷ []) s) es
      ∙ ap (λ l. parsed (record s { no_flag_args = l }))
          (append_assoc (s.no_flag_args) (a ∷ []) (b ∷ args))

  -- The nine arguments decide the transform, from any state in which no other flag was seen.
  pub old_style-sends :
      (seconds : ℕ → ℕ) (now : ℕ) (t : Texts) (d : TransformData D) (s : State D)
      → Describes t d
      → s.help ≡ false
      → s.saw_frame_flag ≡ false
      → s.saw_trans_flag ≡ false
      → s.saw_quat_flag ≡ false
      → after_parse seconds now (old_style lib (old_args t) s >>= check_frames lib)
        ≡ sends (record { sec = seconds now; nanosec = now % 2 ^ 32; transform = d })
  unfolding after_parse visit old_style check_frames transform_data node_message
  old_style-sends seconds now t d s h e0 e1 e2 e3 = rw (
    e1,
    e2,
    e3,
    number-eq _ t.tx _ _ h.tx_ok,
    number-eq _ t.ty _ _ h.ty_ok,
    number-eq _ t.tz _ _ h.tz_ok,
    number-eq _ t.rx _ _ h.rx_ok,
    number-eq _ t.ry _ _ h.ry_ok,
    number-eq _ t.rz _ _ h.rz_ok,
    number-eq _ t.rw_ _ _ h.rw_ok,
    ne-== t.frame "" h.frame_named,
    ne-== t.child "" h.child_named,
    e0,
    ne-== t.frame t.child h.frames_differ,
    h.frame_ok,
    h.child_ok,
  )

  -- Without flags, and with no argument that is the name of an option, the program sends the same
  -- transform.
  main-old_args :
      (seconds : ℕ → ℕ) (now : ℕ) (t : Texts) (d : TransformData D)
      → Describes t d
      → All (λ a. options a ≡ none) (old_args t)
      → main lib seconds now (old_args t)
        ≡ sends (record { sec = seconds now; nanosec = now % 2 ^ 32; transform = d })
  unfolding main parse_args finish combine_rotations keep initial
  main-old_args seconds now t d h hs =
      ap (λ r. after_parse seconds now (r >>= finish lib)) (scan-plain t.tx _ (initial lib) hs)
      ∙ old_style-sends seconds now t d (keep (old_args t) (initial lib)) h refl refl refl refl
