-- ===== src/Encoding/Tests.antt =====
-- Images of four by two pixels, with atoi on the texts that come up.
use rcl_like_wrapper_for_fas.Base.{
  ◌+◌, ◌*◌, ◌≡◌, ◌≢◌, ◌≤◌, refl, [], ◌∷◌, some, if◌then◌else◌, arith,
}
use rcl_like_wrapper_for_fas.Base.Int.{as_u32, ℤ, pos}
use Prim.Native.String.{String}
use text.Mathlib.Text.{◌==◌}
use rcl_like_wrapper_for_fas.Encoding.{
  cv, u16, bits, get_cv_type, num_channels, bit_depth, channels_loop, depth_loop,
}
use rcl_like_wrapper_for_fas.Encoding.Agree.{IsAtoi, Agrees, get_cv_type-Agrees}
use rcl_like_wrapper_for_fas.Encoding.Image.{
  Image, exits, swapped, mat_from_image, byte_depth, is_malformed, as_bound, from_to, swaps_of,
}
use rcl_like_wrapper_for_fas.Encoding.Image.Bounds.{mat_from_image-rows}

abbrev digits : String → ℤ
digits s =
    if s == "1"
    then pos 1
    else if s == "2"
    then pos 2
    else if s == "3"
    then pos 3
    else if s == "4"
    then pos 4
    else if s == "8UC"
    then pos 8
    else if s == "8SC"
    then pos 8
    else if s == "16UC"
    then pos 16
    else if s == "16SC"
    then pos 16
    else if s == "32SC"
    then pos 32
    else if s == "32FC"
    then pos 32
    else if s == "64FC"
    then pos 64
    else pos 0

digits-IsAtoi : IsAtoi digits
digits-IsAtoi = record {
  one = refl;
  two = refl;
  three = refl;
  four = refl;
  u8_ = refl;
  s8_ = refl;
  u16_ = refl;
  s16_ = refl;
  s32_ = refl;
  f32_ = refl;
  f64_ = refl;
}

abbrev deep : Image
deep = record {
  height = 2;
  width = 1;
  encoding = "16UC2";
  step = 4;
  data_ = 1 ∷ 2 ∷ 3 ∷ 4 ∷ 5 ∷ 6 ∷ 7 ∷ 8 ∷ [];
}

deep_swaps : mat_from_image digits deep ≡ swapped 4 ((0, 1) ∷ (1, 0) ∷ (2, 3) ∷ (3, 2) ∷ [])
unfolding mat_from_image get_cv_type num_channels bit_depth channels_loop depth_loop byte_depth
    is_malformed as_u32 as_bound from_to swaps_of
deep_swaps = refl

deep_type : get_cv_type "16UC2" ≡ some (cv u16 2)
unfolding get_cv_type
deep_type = refl

get_cv_type-Agrees_example : Agrees digits digits-IsAtoi "16UC2" (cv u16 2)
get_cv_type-Agrees_example = get_cv_type-Agrees digits digits-IsAtoi "16UC2" (cv u16 2) deep_type

deep-ne-exits : mat_from_image digits deep ≢ exits
deep-ne-exits e = cc (e, deep_swaps)

mat_from_image-rows_example : 1 * 4 + 1 * 4 ≤ 8
unfolding bits
mat_from_image-rows_example =
    mat_from_image-rows digits deep (cv u16 2) digits-IsAtoi deep_type (omega arith) (omega arith)
      deep-ne-exits 1 (omega arith)
