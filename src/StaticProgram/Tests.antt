-- ===== src/StaticProgram/Tests.antt =====
-- Runs of the static transform publisher with natural numbers for the numbers of type double.
use rcl_like_wrapper_for_fas.Base.{ℕ, ◌/◌, ◌≡◌, refl, ◌≢◌, All, true, List, [], ◌∷◌, if◌then◌else◌}
use Prim.Native.String.{String}
use text.Mathlib.Text.{◌==◌}
use rcl_like_wrapper_for_fas.StaticProgram.{
  Library, State, Stod, converted, invalid_argument, out_of_range, parsed, parse_args, options,
  number, visit, scan, combine_rotations, old_style, check_frames, finish, initial, has_argument,
}
use rcl_like_wrapper_for_fas.StaticProgram.Main.{
  TransformStamped, TransformData, sends, aborts, exits, main, after_parse,
}
use rcl_like_wrapper_for_fas.StaticProgram.Outcomes.{main_sends}
use rcl_like_wrapper_for_fas.StaticProgram.Styles.{Texts, Describes, new_args, main-new_args}
use rcl_like_wrapper_for_fas.StaticProgram.Angles.{
  Part, roll, yaw, plain, angle, args, IsRead, main-angles,
}

abbrev digits : String → Stod ℕ
digits s =
    if s == "0"
    then converted 0
    else if s == "1"
    then converted 1
    else if s == "7"
    then converted 7
    else if s == "1e999"
    then out_of_range
    else invalid_argument

abbrev numbers : Library ℕ
numbers = record {
  zero_ = 0;
  one_ = 1;
  stod = digits;
  rpy = λ r p y. record { qx = r; qy = p; qz = y; qw = 0 };
}

abbrev seconds : ℕ → ℕ
seconds now = now / 1000000000

abbrev texts : Texts
texts = record {
  tx = "1";
  ty = "0";
  tz = "7";
  rx = "0";
  ry = "0";
  rz = "1";
  rw_ = "0";
  frame = "map";
  child = "laser";
}

abbrev data_ : TransformData ℕ
data_ = record {
  translation = record { x = 1; y = 0; z = 7 };
  rotation = record { qx = 0; qy = 0; qz = 1; qw = 0 };
  frame_id = "map";
  child_frame_id = "laser";
}

abbrev message : TransformStamped ℕ
message = record { sec = 5; nanosec = 705032704; transform = data_ }

describes : Describes numbers texts data_
describes = record {
  tx_ok = refl;
  ty_ok = refl;
  tz_ok = refl;
  rx_ok = refl;
  ry_ok = refl;
  rz_ok = refl;
  rw_ok = refl;
  frame_ok = refl;
  child_ok = refl;
  frame_named = λ e. cc;
  child_named = λ e. cc;
  frames_differ = λ e. cc;
}

-- A number that is too large for a double ends the program by an exception.
main-overflow : main numbers seconds 5000000000 ("--x" ∷ "1e999" ∷ []) ≡ aborts
unfolding main after_parse parse_args scan options has_argument visit number
main-overflow = refl

main-missing : main numbers seconds 5000000000 ("--x" ∷ []) ≡ exits 1
unfolding main after_parse parse_args scan options has_argument visit number
main-missing = refl

new_args_run : main numbers seconds 5000000000 (new_args texts) ≡ sends message
new_args_run = main-new_args numbers seconds 5000000000 texts data_ describes

-- With a roll before the nine arguments and a yaw behind the first.
abbrev turned : List (Part ℕ)
turned =
    angle roll "7" 7
    ∷ plain texts.tx
    ∷ angle yaw "1" 1
    ∷ plain texts.ty
    ∷ plain texts.tz
    ∷ plain texts.rx
    ∷ plain texts.ry
    ∷ plain texts.rz
    ∷ plain texts.rw_
    ∷ plain texts.frame
    ∷ plain texts.child
    ∷ []

turned-IsRead : All (IsRead numbers) turned
unfolding options
turned-IsRead =
    (refl, (refl, (refl, (refl, (refl, (refl, (refl, (refl, (refl, (refl, (refl, tt)))))))))))

main-angles_example :
    main numbers seconds 5000000000 (args turned)
    ≡ sends (record { sec = seconds 5000000000; nanosec = 705032704; transform = data_ })
main-angles_example =
    main-angles numbers seconds 5000000000 texts data_ turned describes refl turned-IsRead

main_sends_example :
    (message.transform.frame_id ≢ "")
    × (message.transform.child_frame_id ≢ "")
    × (message.transform.frame_id ≢ message.transform.child_frame_id)
main_sends_example = main_sends numbers seconds 5000000000 (new_args texts) message new_args_run

abbrev short_state : State ℕ
short_state = record (initial numbers) {
  frame_id = "map";
  child_frame_id = "laser";
  saw_frame_flag = true;
}

abbrev short_args : List String
short_args = "--frame-id" ∷ "map" ∷ "--child-frame-id" ∷ "laser" ∷ []

short_run : parse_args numbers short_args ≡ parsed short_state
unfolding parse_args scan options has_argument visit number initial finish combine_rotations
    old_style check_frames
short_run = refl
