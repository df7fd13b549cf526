-- ===== src/StaticProgram/Main.antt =====
-- `main` of lwrcl/libraries/src/tf2_ros/src/static_transform_broadcaster_program.cpp and the
-- constructor of StaticTransformBroadcasterNode, up to the message that it sends. The time is an
-- argument in nanoseconds; its conversion to seconds goes through double and is a parameter.
use rcl_like_wrapper_for_fas.Base.{ℕ, ◌%◌, ◌^◌, Option, none, some, List, if◌then◌else◌}
use Prim.Native.String.{String}
use text.Mathlib.Text.{◌==◌}
use rcl_like_wrapper_for_fas.StaticProgram.{
  Library, Quaternion, Vector3, State, Parse, parsed, failed, thrown, parse_args,
}

pub record TransformData (D : Type 0) : Type 0 where
  pub translation : Vector3 D
  pub rotation : Quaternion D
  pub frame_id : String
  pub child_frame_id : String

pub record TransformStamped (D : Type 0) : Type 0 where
  pub sec : ℕ
  pub nanosec : ℕ
  pub transform : TransformData D

-- How the program goes on: it ends with a status, an exception leaves `main`, or it sends the
-- message and spins.
pub data Run (D : Type 0) : Type 0 where
  exits : ℕ → Run D
  aborts : Run D
  sends : TransformStamped D → Run D

module _ {D : Type 0} where
  -- The constructor of the node; `none` is its `runtime_error`.
  unfoldable pub node_message : (ℕ → ℕ) → ℕ → TransformData D → Option (TransformStamped D)
  node_message seconds now d =
      if d.frame_id == d.child_frame_id
      then none
      else some (record { sec = seconds now; nanosec = now % 2 ^ 32; transform = d })

  unfoldable pub transform_data : State D → TransformData D
  transform_data s = record {
    translation = s.trans;
    rotation = s.quat;
    frame_id = s.frame_id;
    child_frame_id = s.child_frame_id;
  }

  construct : Option (TransformStamped D) → Run D
  construct none = aborts
  construct (some message) = sends message

  -- `main` after the call of `parse_args`.
  unfoldable pub after_parse : (ℕ → ℕ) → ℕ → Parse (State D) → Run D
  unfolding construct
  after_parse seconds now (failed message) = exits 1
  after_parse seconds now thrown = aborts
  after_parse seconds now (parsed s) =
      if s.help then exits 0 else construct (node_message seconds now (transform_data s))

  unfoldable pub main : Library D → (ℕ → ℕ) → ℕ → List String → Run D
  main lib seconds now args = after_parse seconds now (parse_args lib args)
