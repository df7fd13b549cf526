-- ===== src/StaticProgram/Angles.antt =====
-- Angles by a flag among nine arguments without one: what `parse_args` and `main` of the static
-- transform publisher make of them.
use rcl_like_wrapper_for_fas.Base.{
  ℕ, ◌%◌, ◌^◌, ◌≡◌, refl, sym, ◌∙◌, Bool, true, false, none, List, [], ◌∷◌, ◌++◌, append_assoc,
  append-nil, ap, All, arith, if◌then◌else◌,
}
use Prim.Native.String.{String}
use rcl_like_wrapper_for_fas.StaticProgram.{
  Library, State, converted, parsed, parse_args, ◌>>=◌, finish, check_frames, scan, visit,
  combine_rotations, old_style, initial, options, has_argument,
}
use rcl_like_wrapper_for_fas.StaticProgram.Main.{TransformData, sends, main, after_parse}
use rcl_like_wrapper_for_fas.StaticProgram.Styles.{
  Texts, Describes, old_args, number-eq, keep, scan_one, scan_more, old_style-sends,
}

pub data Euler : Type 0 where
  roll pitch yaw : Euler

abbrev pub flag : Euler → String
flag roll = "--roll"
flag pitch = "--pitch"
flag yaw = "--yaw"

-- An argument without a flag, or a flag with the text of an angle.
pub data Part (D : Type 0) : Type 0 where
  plain : String → Part D
  angle : Euler → String → D → Part D

module _ {D : Type 0} where
  abbrev pub args : List (Part D) → List String
  args [] = []
  args (plain a ∷ ps) = a ∷ args ps
  args (angle e text v ∷ ps) = flag e ∷ text ∷ args ps

  abbrev pub plains : List (Part D) → List String
  plains [] = []
  plains (plain a ∷ ps) = a ∷ plains ps
  plains (angle e text v ∷ ps) = plains ps

module _ {D : Type 0} (lib : Library D) where
  abbrev pub IsRead : Part D → Type 0
  IsRead (plain a) = options a ≡ none
  IsRead (angle e text v) = lib.stod text ≡ converted v

  turn : Euler → D → State D → State D
  turn roll v s = record s { roll = v; saw_rpy_flag = true }
  turn pitch v s = record s { pitch = v; saw_rpy_flag = true }
  turn yaw v s = record s { yaw = v; saw_rpy_flag = true }

  gather : List (Part D) → State D → State D
  gather [] s = s
  gather (plain a ∷ ps) s = gather ps (keep lib (a ∷ []) s)
  gather (angle e text v ∷ ps) s = gather ps (turn e v s)

  scan_angle :
      (e : Euler) (text : String) (v : D) (rest : List String) (s : State D)
      → lib.stod text ≡ converted v
      → scan lib (flag e ∷ text ∷ rest) s ≡ scan lib rest (turn e v s)
  unfolding scan options has_argument visit turn
  scan_angle roll text v rest s h = rw (number-eq lib _ text _ _ h)
  scan_angle pitch text v rest s h = rw (number-eq lib _ text _ _ h)
  scan_angle yaw text v rest s h = rw (number-eq lib _ text _ _ h)

  scan_nil : (s : State D) → scan lib [] s ≡ parsed s
  unfolding scan
  scan_nil s = refl

  scan-gather :
      (ps : List (Part D)) (s : State D)
      → All IsRead ps
      → scan lib (args ps) s ≡ parsed (gather ps s)
  unfolding gather
  scan-gather [] s h = scan_nil s
  scan-gather (plain a ∷ []) s (h, _) = scan_one lib a s h
  scan-gather (plain a ∷ plain b ∷ ps) s (h, hs) =
      scan_more lib a b (args ps) s h ∙ scan-gather (plain b ∷ ps) (keep lib (a ∷ []) s) hs
  scan-gather (plain a ∷ angle e text v ∷ ps) s (h, hs) =
      scan_more lib a (flag e) (text ∷ args ps) s h
      ∙ scan-gather (angle e text v ∷ ps) (keep lib (a ∷ []) s) hs
  scan-gather (angle e text v ∷ ps) s (h, hs) =
      scan_angle e text v (args ps) s h ∙ scan-gather ps (turn e v s) hs

  -- No flag but those of angles has been seen.
  record IsPlain (s : State D) : Type 0 where
    no_help : s.help ≡ false
    no_frame : s.saw_frame_flag ≡ false
    no_trans : s.saw_trans_flag ≡ false
    no_quat : s.saw_quat_flag ≡ false

  turn-IsPlain :
      (e : Euler) (v : D) (s : State D)
      → IsPlain s
      → IsPlain (turn e v s) × ((turn e v s).no_flag_args ≡ s.no_flag_args)
  unfolding turn
  turn-IsPlain roll v s h = (
    record {
      no_help = h.no_help;
      no_frame = h.no_frame;
      no_trans = h.no_trans;
      no_quat = h.no_quat;
    },
    refl,
  )
  turn-IsPlain pitch v s h = (
    record {
      no_help = h.no_help;
      no_frame = h.no_frame;
      no_trans = h.no_trans;
      no_quat = h.no_quat;
    },
    refl,
  )
  turn-IsPlain yaw v s h = (
    record {
      no_help = h.no_help;
      no_frame = h.no_frame;
      no_trans = h.no_trans;
      no_quat = h.no_quat;
    },
    refl,
  )

  gather-IsPlain :
      (ps : List (Part D)) (s : State D)
      → IsPlain s
      → IsPlain (gather ps s) × ((gather ps s).no_flag_args ≡ s.no_flag_args ++ plains ps)
  unfolding gather keep
  gather-IsPlain [] s h = (h, sym (append-nil s.no_flag_args))
  gather-IsPlain (plain a ∷ ps) s h =
      let (k, e) = gather-IsPlain ps (keep lib (a ∷ []) s) (record {
        no_help = h.no_help;
        no_frame = h.no_frame;
        no_trans = h.no_trans;
        no_quat = h.no_quat;
      }) in
      (k, e ∙ append_assoc s.no_flag_args (a ∷ []) (plains ps))
  gather-IsPlain (angle x text v ∷ ps) s h =
      let (h', e') = turn-IsPlain x v s h in
      let (k, e) = gather-IsPlain ps (turn x v s) h' in (k, e ∙ ap (λ l. l ++ plains ps) e')

  combine-false : (s : State D) → s.saw_rpy_flag ≡ false → combine_rotations lib s ≡ parsed s
  unfolding combine_rotations
  combine-false s e = ground (arith, e)

  combine-true :
      (s : State D)
      → s.saw_rpy_flag ≡ true
      → s.saw_quat_flag ≡ false
      → combine_rotations lib s ≡ parsed (record s { quat = lib.rpy s.roll s.pitch s.yaw })
  unfolding combine_rotations
  combine-true s e f = ground (arith, e, f)

  finish-old_style :
      (s u : State D) (l : List String)
      → s.help ≡ false
      → combine_rotations lib s ≡ parsed u
      → u.no_flag_args ≡ l
      → finish lib s ≡ (old_style lib l u >>= check_frames lib)
  unfolding finish
  finish-old_style s u l h e f =
      ap
        (λ b.
          if b
          then parsed s
          else combine_rotations lib s
            >>= (λ t. old_style lib t.no_flag_args t)
            >>= check_frames lib)
        h
      ∙ ap (λ r. r >>= (λ t. old_style lib t.no_flag_args t) >>= check_frames lib) e
      ∙ ap (λ words. old_style lib words u >>= check_frames lib) f

  finish-sends :
      (b : Bool) (seconds : ℕ → ℕ) (now : ℕ) (t : Texts) (d : TransformData D) (s : State D)
      → Describes lib t d
      → IsPlain s
      → s.saw_rpy_flag ≡ b
      → s.no_flag_args ≡ old_args t
      → after_parse seconds now (finish lib s)
        ≡ sends (record { sec = seconds now; nanosec = now % 2 ^ 32; transform = d })
  finish-sends false seconds now t d s h k e l =
      ap (after_parse seconds now)
        (finish-old_style s s (old_args t) k.no_help (combine-false s e) l)
      ∙ old_style-sends lib seconds now t d s h k.no_help k.no_frame k.no_trans k.no_quat
  finish-sends true seconds now t d s h k e l =
      let u = record s { quat = lib.rpy s.roll s.pitch s.yaw } in
      ap (after_parse seconds now)
        (finish-old_style s u (old_args t) k.no_help (combine-true s e k.no_quat) l)
      ∙ old_style-sends lib seconds now t d u h k.no_help k.no_frame k.no_trans k.no_quat

  initial-IsPlain : IsPlain (initial lib)
  unfolding initial
  initial-IsPlain = record { no_help = refl; no_frame = refl; no_trans = refl; no_quat = refl }

  parse_args-cons :
      (p : Part D) (ps : List (Part D))
      → parse_args lib (args (p ∷ ps)) ≡ (scan lib (args (p ∷ ps)) (initial lib) >>= finish lib)
  unfolding parse_args
  parse_args-cons (plain a) ps = refl
  parse_args-cons (angle e text v) ps = refl

  -- Angles by a flag, of any of the three names and any number of them, before, between or behind nine
  -- arguments without a flag are read and then ignored: the program sends the transform of the nine
  -- arguments and reports no mixture of the styles.
  pub main-angles :
      (seconds : ℕ → ℕ) (now : ℕ) (t : Texts) (d : TransformData D) (ps : List (Part D))
      → Describes lib t d
      → plains ps ≡ old_args t
      → All IsRead ps
      → main lib seconds now (args ps)
        ≡ sends (record { sec = seconds now; nanosec = now % 2 ^ 32; transform = d })
  unfolding main initial
  main-angles seconds now t d [] h e hs = absurd (ground (arith, e))
  main-angles seconds now t d (p ∷ ps) h e hs =
      let (k, l) = gather-IsPlain (p ∷ ps) (initial lib) initial-IsPlain in
      ap (after_parse seconds now)
        (parse_args-cons p ps ∙ ap (λ r. r >>= finish lib) (scan-gather (p ∷ ps) (initial lib) hs))
      ∙ finish-sends _ seconds now t d (gather (p ∷ ps) (initial lib)) h k refl (l ∙ e)
