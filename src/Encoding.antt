-- ===== src/Encoding.antt =====
-- fastdds_ws/apps/ImageTest/ImageSubscriber.cpp: the encodings of an image, that is numChannels,
-- bitDepth and getCvType. Each chain of comparisons is a table that is searched in its order. The
-- C library's atoi is a parameter.
pub mod Agree
pub mod Image
pub mod Tests
use rcl_like_wrapper_for_fas.Base.{
  ℕ, Bool, true, false, not, ◌||◌, Option, none, some, List, [], ◌∷◌, ◌==◌, if◌then◌else◌,
}
use rcl_like_wrapper_for_fas.Base.Int.{ℤ, pos, negsuc, eqb_ℤ}
use Prim.Native.String.{String, len, slice}
use text.Mathlib.Text.{starts_with}
use text.Mathlib.Text

-- The types of OpenCV: `cv u8 3` is CV_8UC3.
pub data Depth : Type 0 where
  u8 s8 u16 s16 s32 f32 f64 : Depth

pub data CvType : Type 0 where
  cv : Depth → ℕ → CvType

unfoldable pub bits : Depth → ℕ
bits u8 = 8
bits s8 = 8
bits u16 = 16
bits s16 = 16
bits s32 = 32
bits f32 = 32
bits f64 = 64

abbrev pub lookup : List (String × CvType) → String → Option CvType
lookup [] e = none
lookup ((name, t) ∷ table) e = if Text.◌==◌ e name then some t else lookup table e

abbrev pub any_of : List String → String → Bool
any_of [] e = false
any_of (name ∷ names) e = Text.◌==◌ e name || any_of names e

abbrev pub prefixes : List String
prefixes = "8UC" ∷ "8SC" ∷ "16UC" ∷ "16SC" ∷ "32SC" ∷ "32FC" ∷ "64FC" ∷ []

abbrev pub cv_types : List (String × CvType)
cv_types =
    ("bgr8", cv u8 3)
    ∷ ("mono8", cv u8 1)
    ∷ ("rgb8", cv u8 3)
    ∷ ("mono16", cv u16 1)
    ∷ ("bgr16", cv u16 3)
    ∷ ("rgb16", cv u16 3)
    ∷ ("bgra8", cv u8 4)
    ∷ ("rgba8", cv u8 4)
    ∷ ("bgra16", cv u16 4)
    ∷ ("rgba16", cv u16 4)
    ∷ ("bayer_rggb8", cv u8 1)
    ∷ ("bayer_bggr8", cv u8 1)
    ∷ ("bayer_gbrg8", cv u8 1)
    ∷ ("bayer_grbg8", cv u8 1)
    ∷ ("bayer_rggb16", cv u16 1)
    ∷ ("bayer_bggr16", cv u16 1)
    ∷ ("bayer_gbrg16", cv u16 1)
    ∷ ("bayer_grbg16", cv u16 1)
    ∷ ("8UC1", cv u8 1)
    ∷ ("8UC2", cv u8 2)
    ∷ ("8UC3", cv u8 3)
    ∷ ("8UC4", cv u8 4)
    ∷ ("8SC1", cv s8 1)
    ∷ ("8SC2", cv s8 2)
    ∷ ("8SC3", cv s8 3)
    ∷ ("8SC4", cv s8 4)
    ∷ ("16UC1", cv u16 1)
    ∷ ("16UC2", cv u16 2)
    ∷ ("16UC3", cv u16 3)
    ∷ ("16UC4", cv u16 4)
    ∷ ("16SC1", cv s16 1)
    ∷ ("16SC2", cv s16 2)
    ∷ ("16SC3", cv s16 3)
    ∷ ("16SC4", cv s16 4)
    ∷ ("32SC1", cv s32 1)
    ∷ ("32SC2", cv s32 2)
    ∷ ("32SC3", cv s32 3)
    ∷ ("32SC4", cv s32 4)
    ∷ ("32FC1", cv f32 1)
    ∷ ("32FC2", cv f32 2)
    ∷ ("32FC3", cv f32 3)
    ∷ ("32FC4", cv f32 4)
    ∷ ("64FC1", cv f64 1)
    ∷ ("64FC2", cv f64 2)
    ∷ ("64FC3", cv f64 3)
    ∷ ("64FC4", cv f64 4)
    ∷ []

-- `none` is the call of exit.
unfoldable pub get_cv_type : String → Option CvType
get_cv_type e = lookup cv_types e

abbrev suffix : String → String → String
suffix e p = slice e (len p) (len e)

module _ (atoi : String → ℤ) where
  -- The loop over the prefixes of numChannels; `none` when it ends without a return.
  unfoldable pub channels_loop : List String → String → Option ℤ
  channels_loop [] e = none
  channels_loop (p ∷ ps) e =
      let rest = channels_loop ps e in
      if not (starts_with e p)
      then rest
      else if len e == len p
      then some (pos 1)
      else if not (eqb_ℤ (atoi (suffix e p)) (pos 0))
      then some (atoi (suffix e p))
      else rest

  -- The loop of bitDepth.
  unfoldable pub depth_loop : List String → String → Option ℤ
  depth_loop [] e = none
  depth_loop (p ∷ ps) e =
      let rest = depth_loop ps e in
      if not (starts_with e p)
      then rest
      else if len e == len p
      then some (atoi p)
      else if not (eqb_ℤ (atoi (suffix e p)) (pos 0))
      then some (atoi p)
      else rest

  unfoldable pub num_channels : String → ℤ
  num_channels e =
      if any_of ("mono8" ∷ "mono16" ∷ []) e
      then pos 1
      else if any_of ("bgr8" ∷ "rgb8" ∷ "bgr16" ∷ "rgb16" ∷ []) e
      then pos 3
      else if any_of ("bgra8" ∷ "rgba8" ∷ "bgra16" ∷ "rgba16" ∷ []) e
      then pos 4
      else if any_of
          ("bayer_rggb8" ∷ "bayer_bggr8" ∷ "bayer_gbrg8" ∷ "bayer_grbg8" ∷ "bayer_rggb16"
            ∷ "bayer_bggr16" ∷ "bayer_gbrg16" ∷ "bayer_grbg16" ∷ [])
          e
      then pos 1
      else elim (channels_loop prefixes e) [
        | some n ↦ n
        | none ↦ if Text.◌==◌ e "yuv422" then pos 2 else negsuc 0
      ]

  unfoldable pub bit_depth : String → ℤ
  bit_depth e =
      if Text.◌==◌ e "mono16"
      then pos 16
      else if any_of
          ("mono8" ∷ "bgr8" ∷ "rgb8" ∷ "bgra8" ∷ "rgba8" ∷ "bayer_rggb8" ∷ "bayer_bggr8"
            ∷ "bayer_gbrg8" ∷ "bayer_grbg8" ∷ [])
          e
      then pos 8
      else if any_of
          ("mono16" ∷ "bgr16" ∷ "rgb16" ∷ "bgra16" ∷ "rgba16" ∷ "bayer_rggb16" ∷ "bayer_bggr16"
            ∷ "bayer_gbrg16" ∷ "bayer_grbg16" ∷ [])
          e
      then pos 16
      else elim (depth_loop prefixes e) [
        | some n ↦ n
        | none ↦ if Text.◌==◌ e "yuv422" then pos 8 else negsuc 0
      ]
