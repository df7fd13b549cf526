-- ===== src/StaticProgram.antt =====
-- lwrcl/libraries/src/tf2_ros/src/static_transform_broadcaster_program.cpp: the options of the
-- static transform publisher and `parse_args`. The numbers of type double, `std::stod` and the
-- quaternion of three Euler angles are a parameter.
pub mod Main
pub mod Outcomes
pub mod Styles
pub mod Angles
pub mod Tests
use rcl_like_wrapper_for_fas.Base.{
  Bool, true, false, ◌&&◌, ◌||◌, Option, none, some, List, [], ◌∷◌, ◌++◌, if◌then◌else◌,
}
use Prim.Native.String.{String}
use text.Mathlib.Text.{◌==◌}

-- What `std::stod` does: a value, `invalid_argument`, or `out_of_range`.
pub data Stod (D : Type 0) : Type 0 where
  converted : D → Stod D
  invalid_argument out_of_range : Stod D

pub record Quaternion (D : Type 0) : Type 0 where
  pub qx : D
  pub qy : D
  pub qz : D
  pub qw : D

pub record Vector3 (D : Type 0) : Type 0 where
  pub x : D
  pub y : D
  pub z : D

pub record Library (D : Type 0) : Type 0 where
  pub zero_ : D
  pub one_ : D
  pub stod : String → Stod D
  -- `tf2::Quaternion::setRPY`, from roll, pitch and yaw
  pub rpy : D → D → D → Quaternion D

-- The objects of the table `options`, by their names in `parse_args`.
pub data Flag : Type 0 where
  qx_opt qy_opt qz_opt qw_opt roll_opt pitch_opt yaw_opt trans_x_opt trans_y_opt trans_z_opt : Flag
  frame_id_opt child_frame_id_opt help_opt : Flag

-- The string that `parse_args` returns; `failed_to_parse` is the message of `DoubleOption::visit`.
pub data Message : Type 0 where
  nothing_to_parse both_rotations both_styles extra_arguments : Message
  empty_frame_id empty_child_frame_id : Message
  failed_to_parse missing_argument : String → Message

-- How a call ends: with the empty string, with a message, or with the exception `out_of_range`,
-- which nothing catches.
pub data Parse (A : Type 0) : Type 0 where
  parsed : A → Parse A
  failed : Message → Parse A
  thrown : Parse A

infixl 5 ◌>>=◌
abbrev pub ◌>>=◌ : {A B : Type 0} → Parse A → (A → Parse B) → Parse B
parsed a >>= f = f a
failed m >>= f = failed m
thrown >>= f = thrown

-- The variables of `parse_args`, its reference parameters included.
pub record State (D : Type 0) : Type 0 where
  pub help : Bool
  pub quat : Quaternion D
  pub trans : Vector3 D
  pub frame_id : String
  pub child_frame_id : String
  pub saw_frame_flag : Bool
  pub saw_quat_flag : Bool
  pub saw_rpy_flag : Bool
  pub saw_trans_flag : Bool
  pub roll : D
  pub pitch : D
  pub yaw : D
  pub no_flag_args : List String

-- The table `options`.
unfoldable pub options : String → Option Flag
options s =
    if s == "--qx"
    then some qx_opt
    else if s == "--qy"
    then some qy_opt
    else if s == "--qz"
    then some qz_opt
    else if s == "--qw"
    then some qw_opt
    else if s == "--roll"
    then some roll_opt
    else if s == "--pitch"
    then some pitch_opt
    else if s == "--yaw"
    then some yaw_opt
    else if s == "--x"
    then some trans_x_opt
    else if s == "--y"
    then some trans_y_opt
    else if s == "--z"
    then some trans_z_opt
    else if s == "--frame-id"
    then some frame_id_opt
    else if s == "--child-frame-id"
    then some child_frame_id_opt
    else if s == "--help"
    then some help_opt
    else if s == "-h"
    then some help_opt
    else none

unfoldable pub has_argument : Flag → Bool
has_argument help_opt = false
has_argument _ = true

module _ {D : Type 0} (lib : Library D) where
  -- `DoubleOption::visit`.
  unfoldable pub number : String → String → (D → State D) → Parse (State D)
  number optname text callback = elim (lib.stod text) [
    | converted value ↦ parsed (callback value)
    | invalid_argument ↦ failed (failed_to_parse optname)
    | out_of_range ↦ thrown
  ]

  -- `visit` of each object, with its callback.
  unfoldable pub visit : Flag → String → String → State D → Parse (State D)
  visit qx_opt name text s =
      number name text (λ v. record s { quat = record (s.quat) { qx = v }; saw_quat_flag = true })
  visit qy_opt name text s =
      number name text (λ v. record s { quat = record (s.quat) { qy = v }; saw_quat_flag = true })
  visit qz_opt name text s =
      number name text (λ v. record s { quat = record (s.quat) { qz = v }; saw_quat_flag = true })
  visit qw_opt name text s =
      number name text (λ v. record s { quat = record (s.quat) { qw = v }; saw_quat_flag = true })
  visit roll_opt name text s = number name text (λ v. record s { roll = v; saw_rpy_flag = true })
  visit pitch_opt name text s = number name text (λ v. record s { pitch = v; saw_rpy_flag = true })
  visit yaw_opt name text s = number name text (λ v. record s { yaw = v; saw_rpy_flag = true })
  visit trans_x_opt name text s =
      number name text (λ v. record s { trans = record (s.trans) { x = v }; saw_trans_flag = true })
  visit trans_y_opt name text s =
      number name text (λ v. record s { trans = record (s.trans) { y = v }; saw_trans_flag = true })
  visit trans_z_opt name text s =
      number name text (λ v. record s { trans = record (s.trans) { z = v }; saw_trans_flag = true })
  visit frame_id_opt name text s = parsed (record s { frame_id = text; saw_frame_flag = true })
  visit child_frame_id_opt name text s =
      parsed (record s { child_frame_id = text; saw_frame_flag = true })
  visit help_opt name text s = parsed (record s { help = true })

  -- The loop over the arguments.
  unfoldable pub scan : List String → State D → Parse (State D)
  scan [] s = parsed s
  scan (optname ∷ []) s = elim (options optname) [
    | none ↦ parsed (record s { no_flag_args = s.no_flag_args ++ (optname ∷ []) })
    | some opt ↦
        if has_argument opt then failed (missing_argument optname) else visit opt optname optname s
  ]
  scan (optname ∷ value ∷ rest) s = elim (options optname) [
    | none ↦ scan (value ∷ rest) (record s { no_flag_args = s.no_flag_args ++ (optname ∷ []) })
    | some opt ↦ elim (has_argument opt) [
      | true ↦ visit opt optname value s >>= (λ t. scan rest t)
      | false ↦ visit opt optname optname s >>= (λ t. scan (value ∷ rest) t)
    ]
  ]

  unfoldable pub combine_rotations : State D → Parse (State D)
  combine_rotations s =
      if s.saw_rpy_flag && s.saw_quat_flag
      then failed both_rotations
      else if s.saw_rpy_flag
      then parsed (record s { quat = lib.rpy s.roll s.pitch s.yaw })
      else parsed s

  saw_flags : State D → Bool
  saw_flags s = s.saw_frame_flag || s.saw_trans_flag || s.saw_quat_flag

  -- The arguments without a flag; the results of the eight or nine cases are read in their order.
  unfoldable pub old_style : List String → State D → Parse (State D)
  unfolding saw_flags
  old_style [] s = parsed s
  old_style (a ∷ b ∷ c ∷ d ∷ e ∷ f ∷ frame ∷ child ∷ []) s =
      if saw_flags s then failed both_styles else do
        s ← visit trans_x_opt "x" a s
        s ← visit trans_y_opt "y" b s
        s ← visit trans_z_opt "z" c s
        s ← visit yaw_opt "yaw" d s
        s ← visit pitch_opt "pitch" e s
        s ← visit roll_opt "roll" f s
        parsed (record s {
          quat = lib.rpy s.roll s.pitch s.yaw;
          frame_id = frame;
          child_frame_id = child;
        })
  old_style (a ∷ b ∷ c ∷ d ∷ e ∷ f ∷ g ∷ frame ∷ child ∷ []) s =
      if saw_flags s then failed both_styles else do
        s ← visit trans_x_opt "x" a s
        s ← visit trans_y_opt "y" b s
        s ← visit trans_z_opt "z" c s
        s ← visit qx_opt "qx" d s
        s ← visit qy_opt "qy" e s
        s ← visit qz_opt "qz" f s
        s ← visit qw_opt "qw" g s
        parsed (record s { frame_id = frame; child_frame_id = child })
  old_style _ s = failed extra_arguments

  unfoldable pub check_frames : State D → Parse (State D)
  check_frames s =
      if s.frame_id == ""
      then failed empty_frame_id
      else if s.child_frame_id == ""
      then failed empty_child_frame_id
      else parsed s

  -- What follows the loop.
  unfoldable pub finish : State D → Parse (State D)
  finish s =
      if s.help
      then parsed s
      else combine_rotations s >>= (λ t. old_style t.no_flag_args t) >>= check_frames

  -- The state that the declarations of `main` and the first lines of `parse_args` set up.
  unfoldable pub initial : State D
  initial = record {
    help = false;
    quat = record { qx = lib.zero_; qy = lib.zero_; qz = lib.zero_; qw = lib.one_ };
    trans = record { x = lib.zero_; y = lib.zero_; z = lib.zero_ };
    frame_id = "";
    child_frame_id = "";
    saw_frame_flag = false;
    saw_quat_flag = false;
    saw_rpy_flag = false;
    saw_trans_flag = false;
    roll = lib.zero_;
    pitch = lib.zero_;
    yaw = lib.zero_;
    no_flag_args = [];
  }

  unfoldable pub parse_args : List String → Parse (State D)
  parse_args [] = failed nothing_to_parse
  parse_args (arg ∷ args) = scan (arg ∷ args) initial >>= finish
