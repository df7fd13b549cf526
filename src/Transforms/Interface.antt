-- ===== src/Transforms/Interface.antt =====
-- The `transform` templates of BufferInterface
-- (lwrcl/libraries/src/tf2_ros/include/tf2_ros/buffer_interface.h). The virtual lookupTransform is
-- an argument, as are the functions of tf2 for the type of the data.
use rcl_like_wrapper_for_fas.Base.Int.{ℤ}
use rcl_like_wrapper_for_fas.Transforms.Buffer.{
  Query, plain, fixed, Found, found, thrown, Run, returned, ◌>>=◌,
}
use Prim.Native.String.{String}

-- `getFrameId`, `getTimestamp`, `doTransform`, which writes to its second argument and may throw,
-- and what the default constructor makes.
pub record Geometry (T X E : Type 0) : Type 0 where
  pub frame_id : T → String
  pub timestamp : T → ℤ
  pub do_transform : T → T → X → Found T E
  pub fresh : T

-- Where the data goes: into a frame, or into a frame at a time through a fixed frame.
pub data Target : Type 0 where
  into : (target_frame : String) → Target
  into_at : (target_frame : String) (target_time : ℤ) (fixed_frame : String) → Target

module _ {T X E : Type 0} (g : Geometry T X E) where
  unfoldable pub query : Target → T → Query
  query (into target) x = plain target (g.frame_id x) (g.timestamp x)
  query (into_at target time frame) x = fixed target time (g.frame_id x) (g.timestamp x) frame

  unfoldable pub applied : T → T → Found X E → Found T E
  applied x out (found t) = g.do_transform x out t
  applied x out (thrown e) = thrown e

module _ {T U E : Type 0} (convert : T → U → U) where
  unfoldable pub converted : U → Found T E → Found U E
  converted out (found copy) = found (convert copy out)
  converted out (thrown e) = thrown e

module _ {T X E W : Type 0} (g : Geometry T X E) (lookup : Query → ℤ → W → Run (Found X E) W) where
  -- The overload with an output of the caller.
  unfoldable pub transform_into : Target → T → T → ℤ → W → Run (Found T E) W
  unfolding query applied
  transform_into target x out timeout w =
      lookup (query g target x) timeout w >>= λ r w'. returned (applied g x out r) w'

  -- The overload that returns the output.
  unfoldable pub transform : Target → T → ℤ → W → Run (Found T E) W
  unfolding transform_into
  transform target x timeout w = transform_into target x g.fresh timeout w

  -- The overload that converts the output to another type.
  unfoldable pub transform_convert :
      {U : Type 0} → (T → U → U) → Target → T → U → ℤ → W → Run (Found U E) W
  unfolding transform converted
  transform_convert convert target x out timeout w =
      transform target x timeout w >>= λ r w'. returned (converted convert out r) w'
