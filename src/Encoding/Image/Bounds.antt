-- ===== src/Encoding/Image/Bounds.antt =====
-- What the checks of matFromImage are good for: rows that lie within the data.
use rcl_like_wrapper_for_fas.Base.{
  ℕ, ◌+◌, ◌*◌, ◌/◌, ◌^◌, ◌≤◌, ◌<◌, ◌≡◌, false, some, All, length, ◌≢◌, ◌∙◌, sym, ap, subst, arith,
}
use rcl_like_wrapper_for_fas.Base.Int.{as_u32, ℤ, pos}
use Prim.Native.String.{String}
use rcl_like_wrapper_for_fas.Encoding.{CvType, cv_types, get_cv_type, bits}
use rcl_like_wrapper_for_fas.Encoding.Agree.{
  IsAtoi, channels, depth_bits, get_cv_type-Agrees, lookup-All,
}
use rcl_like_wrapper_for_fas.Encoding.Image.{
  Image, exits, mat_from_image, mat_of, is_malformed, byte_depth,
}

-- The bytes of a pixel of the type.
abbrev pub pixel_bytes : CvType → ℕ
pixel_bytes t = depth_bits t / 8 * channels t

is_malformed-false :
    (m : Image) (bytes n : ℕ)
    → m.width * bytes * n < 2 ^ 32
    → m.height * m.step < 2 ^ 32
    → is_malformed m bytes n ≡ false
    → (m.width * bytes * n ≤ m.step) × (m.height * m.step ≡ length m.data_)
unfolding is_malformed
is_malformed-false m bytes n h k e = ground arith

cv_types-small : All (λ x. (channels (x.1) ≤ 4) × (depth_bits (x.1) ≤ 64)) cv_types
unfolding bits
cv_types-small = ground arith

get_cv_type-small :
    (e : String) (t : CvType) → get_cv_type e ≡ some t → (channels t ≤ 4) × (depth_bits t ≤ 64)
unfolding get_cv_type
get_cv_type-small e t k =
    lookup-All (λ e t. (channels t ≤ 4) × (depth_bits t ≤ 64)) cv_types e t cv_types-small k

row-le : (r h step w size : ℕ) → r < h → w ≤ step → h * step ≡ size → r * step + w ≤ size
row-le r h step w size a b c = grind arith

assoc-small : (w b c : ℕ) → w * (b * c) ≡ w * b * c
assoc-small w b c = omega arith

mat_of-eq :
    (atoi : String → ℤ) (m : Image) (t : CvType)
    → IsAtoi atoi
    → get_cv_type m.encoding ≡ some t
    → mat_from_image atoi m ≡ mat_of m t (pos (depth_bits t / 8)) (pos (channels t))
unfolding mat_from_image byte_depth
mat_of-eq atoi m t h k = let (n, d) = get_cv_type-Agrees atoi h m.encoding t k in rw (k, n, d)

mat_of-ok :
    (m : Image) (t : CvType) (bytes n : ℤ)
    → mat_of m t bytes n ≢ exits
    → is_malformed m (as_u32 bytes) (as_u32 n) ≡ false
unfolding mat_of
mat_of-ok m t bytes n h = ground (arith)

as_u32-small : (n : ℕ) → n < 2 ^ 32 → as_u32 (pos n) ≡ n
unfolding as_u32
as_u32-small n h = omega arith

-- If matFromImage accepts an image, and the bytes of a row of pixels and the product of height and
-- step are below 2 ^ 32, then each row of the matrix lies within the data.
pub mat_from_image-rows :
    (atoi : String → ℤ) (m : Image) (t : CvType)
    → IsAtoi atoi
    → get_cv_type m.encoding ≡ some t
    → m.width * pixel_bytes t < 2 ^ 32
    → m.height * m.step < 2 ^ 32
    → mat_from_image atoi m ≢ exits
    → (r : ℕ) → r < m.height
    → r * m.step + m.width * pixel_bytes t ≤ length m.data_
mat_from_image-rows atoi m t h k a b ok r lt =
    let (c, d) = get_cv_type-small m.encoding t k in
    let e =
      mat_of-ok m t (pos (depth_bits t / 8)) (pos (channels t))
        (λ x. ok (mat_of-eq atoi m t h k ∙ x)) in
    let q = assoc-small m.width (depth_bits t / 8) (channels t) in
    let (f, g) =
      is_malformed-false m (depth_bits t / 8) (channels t) (subst (λ x. x < 2 ^ 32) q a) b (
        ap (λ x. is_malformed m x (channels t))
          (sym (as_u32-small (depth_bits t / 8) (omega (arith, d))))
        ∙ ap (is_malformed m (as_u32 (pos (depth_bits t / 8))))
            (sym (as_u32-small (channels t) (omega (arith, c))))
        ∙ e) in
    row-le r m.height m.step (m.width * pixel_bytes t) (length m.data_) lt
      (subst (λ x. x ≤ m.step) (sym q) f) g
