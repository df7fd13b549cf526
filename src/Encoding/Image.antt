-- ===== src/Encoding/Image.antt =====
-- matFromImage of fastdds_ws/apps/ImageTest/ImageSubscriber.cpp: the checks of an image's sizes,
-- in the 32 bits that the code computes in, and the list of byte swaps for cv::mixChannels.
pub mod Bounds
pub mod Swaps
use rcl_like_wrapper_for_fas.Base.{
  ℕ, zero, suc, ◌+◌, ◌-◌, ◌*◌, ◌/◌, ◌%◌, ◌^◌, ◌≤◌, ◌<◌, ◌≡◌, refl, Bool, true, false, not, ◌||◌,
  Option, none, some, List, [], ◌∷◌, ◌++◌, All, length, ltb, ◌==◌, if◌then◌else◌, arith,
}
use rcl_like_wrapper_for_fas.Base.Int.{as_u32, ℤ, pos, negsuc}
use Prim.Native.String.{String}
use rcl_like_wrapper_for_fas.Encoding.{CvType, cv, get_cv_type, num_channels, bit_depth, bits}
use rcl_like_wrapper_for_fas.Encoding.Agree.{
  IsAtoi, Agrees, channels, depth_bits, get_cv_type-Agrees,
}

pub record Image : Type 0 where
  pub height : ℕ
  pub width : ℕ
  pub encoding : String
  pub step : ℕ
  pub data_ : List ℕ

-- A matrix over the image's own bytes, a new one with the bytes swapped, or a call of exit.
pub data Mat : Type 0 where
  shared : CvType → Mat
  swapped : ℕ → List (ℕ × ℕ) → Mat
  exits : Mat

negative : ℕ → ℤ
negative zero = pos 0
negative (suc n) = negsuc n

-- `/ 8` on an int, which rounds to zero.
unfoldable pub byte_depth : ℤ → ℤ
unfolding negative
byte_depth (pos n) = pos (n / 8)
byte_depth (negsuc n) = negative (suc n / 8)

-- An int as the bound of a loop that counts up from 0.
unfoldable pub as_bound : ℤ → ℕ
as_bound (pos n) = n
as_bound (negsuc n) = 0

-- The inner loop, up to `j`, and the outer loop, up to `i`.
unfoldable pub swaps_of : ℕ → ℕ → ℕ → List (ℕ × ℕ)
swaps_of bytes i zero = []
swaps_of bytes i (suc j) = swaps_of bytes i j ++ ((bytes * i + j, bytes * i + bytes - 1 - j) ∷ [])

unfoldable pub from_to : ℕ → ℕ → List (ℕ × ℕ)
from_to bytes zero = []
from_to bytes (suc i) = from_to bytes i ++ swaps_of bytes i bytes

unfoldable pub is_malformed : Image → ℕ → ℕ → Bool
is_malformed m bytes n =
    ltb m.step ((m.width * bytes * n) % 2 ^ 32)
    || not ((m.height * m.step) % 2 ^ 32 == length m.data_)

mat_of : Image → CvType → ℤ → ℤ → Mat
mat_of m t bytes n =
    if is_malformed m (as_u32 bytes) (as_u32 n)
    then exits
    else if as_bound bytes == 1
    then shared t
    else swapped (as_bound n * as_bound bytes) (from_to (as_bound bytes) (as_bound n))

mat_of_type : (String → ℤ) → Image → Option CvType → Mat
unfolding mat_of
mat_of_type atoi m none = exits
mat_of_type atoi m (some t) =
    mat_of m t (byte_depth (bit_depth atoi m.encoding)) (num_channels atoi m.encoding)

unfoldable pub mat_from_image : (String → ℤ) → Image → Mat
unfolding mat_of_type
mat_from_image atoi m = mat_of_type atoi m (get_cv_type m.encoding)
