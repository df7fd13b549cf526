-- ===== src/Encoding/Agree.antt =====
-- The three functions on encodings against each other: an encoding with an OpenCV type has the
-- number of channels and the depth of that type.
use rcl_like_wrapper_for_fas.Base.{ℕ, ◌≡◌, refl, some, List, [], ◌∷◌, All, arith}
use rcl_like_wrapper_for_fas.Base.Int.{ℤ, pos}
use Prim.Native.String.{String}
use text.Mathlib.TextEquality.{eq_iff}
use rcl_like_wrapper_for_fas.Encoding.{
  CvType, cv, lookup, cv_types, get_cv_type, num_channels, bit_depth, bits, channels_loop,
  depth_loop,
}

-- What a search in a table finds has every property that all entries have.
pub lookup-All :
    (P : String → CvType → Type 0) (table : List (String × CvType)) (e : String) (t : CvType)
    → All (λ x. P (x.0) (x.1)) table
    → lookup table e ≡ some t
    → P e t
lookup-All P [] e t h k = cc
lookup-All P ((name, u) ∷ table) e t (h, hs) k =
    ground (arith, eq_iff e name, lookup-All P table e t hs)

-- What atoi is documented to do on the texts that come up: the digits up to the first character
-- that is none.
pub record IsAtoi (atoi : String → ℤ) : Type 0 where
  pub one : atoi "1" ≡ pos 1
  pub two : atoi "2" ≡ pos 2
  pub three : atoi "3" ≡ pos 3
  pub four : atoi "4" ≡ pos 4
  pub u8_ : atoi "8UC" ≡ pos 8
  pub s8_ : atoi "8SC" ≡ pos 8
  pub u16_ : atoi "16UC" ≡ pos 16
  pub s16_ : atoi "16SC" ≡ pos 16
  pub s32_ : atoi "32SC" ≡ pos 32
  pub f32_ : atoi "32FC" ≡ pos 32
  pub f64_ : atoi "64FC" ≡ pos 64

All-both : {A B : Type 0} (f g : A → B) (l : List A) → All (λ x. (f x ≡ f x) × (g x ≡ g x)) l
All-both f g [] = tt
All-both f g (x ∷ l) = ((refl, refl), All-both f g l)

abbrev pub channels : CvType → ℕ
channels (cv depth n) = n

abbrev pub depth_bits : CvType → ℕ
depth_bits (cv depth n) = bits depth

module _ (atoi : String → ℤ) (h : IsAtoi atoi) where
  abbrev pub Agrees : String → CvType → Type 0
  Agrees e t = (num_channels atoi e ≡ pos (channels t)) × (bit_depth atoi e ≡ pos (depth_bits t))

  entries-Agrees : All (λ x. Agrees (x.0) (x.1)) cv_types
  unfolding num_channels bit_depth channels_loop depth_loop bits
  entries-Agrees =
      simp (h.one, h.two, h.three, h.four, h.u8_, h.s8_, h.u16_, h.s16_, h.s32_, h.f32_, h.f64_)
        (All-both (λ x. pos (channels (x.1))) (λ x. pos (depth_bits (x.1))) cv_types)

  -- Every encoding that has an OpenCV type has as many channels, and as deep ones, as the type
  -- says, if atoi reads the digits of the generic encodings.
  pub get_cv_type-Agrees : (e : String) (t : CvType) → get_cv_type e ≡ some t → Agrees e t
  unfolding get_cv_type
  get_cv_type-Agrees e t k = lookup-All Agrees cv_types e t entries-Agrees k
