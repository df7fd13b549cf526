-- ===== src/Encoding/Image/Swaps.antt =====
-- The list that matFromImage hands to cv::mixChannels.
use rcl_like_wrapper_for_fas.Base.{
  ℕ, zero, suc, ◌+◌, ◌-◌, ◌*◌, ◌≤◌, ◌<◌, ◌≡◌, List, [], ◌∷◌, ◌++◌, All, arith,
}
use rcl_like_wrapper_for_fas.Encoding.Image.{swaps_of, from_to}

All-append : {A : Type 0} (P : A → Type 0) (xs ys : List A) → All P xs → All P ys → All P (xs ++ ys)
All-append P [] ys h k = k
All-append P (x ∷ xs) ys (p, h) k = (p, All-append P xs ys h k)

All-weaken :
    {A : Type 0} (P Q : A → Type 0) (xs : List A) → ((a : A) → P a → Q a) → All P xs → All Q xs
All-weaken P Q [] f h = tt
All-weaken P Q (x ∷ xs) f (p, h) = (f x p, All-weaken P Q xs f h)

-- A byte of channel `i` and its mirror image in the same channel.
abbrev pub IsMirrored : ℕ → ℕ → ℕ × ℕ → Type 0
IsMirrored bytes i (a, b) =
    (bytes * i ≤ a) × (a < bytes * i + bytes) × (a + b + 1 ≡ bytes * i + (bytes * i + bytes))

abbrev pub IsSwap : ℕ → ℕ → ℕ × ℕ → Type 0
IsSwap bytes n x = (i : ℕ) × (i < n) × IsMirrored bytes i x

swaps_of-IsMirrored : (bytes i j : ℕ) → j ≤ bytes → All (IsMirrored bytes i) (swaps_of bytes i j)
unfolding swaps_of
swaps_of-IsMirrored bytes i zero h = tt
swaps_of-IsMirrored bytes i (suc j) h =
    All-append (IsMirrored bytes i) (swaps_of bytes i j)
      ((bytes * i + j, bytes * i + bytes - 1 - j) ∷ [])
      (swaps_of-IsMirrored bytes i j (omega arith)) ((omega arith, omega arith, omega arith), tt)

-- Every entry of the list takes a byte to its mirror image within its channel.
from_to-IsSwap : (bytes n : ℕ) → All (IsSwap bytes n) (from_to bytes n)
unfolding from_to
from_to-IsSwap bytes zero = tt
from_to-IsSwap bytes (suc n) =
    All-append (IsSwap bytes (suc n)) (from_to bytes n) (swaps_of bytes n bytes)
      (All-weaken (IsSwap bytes n) (IsSwap bytes (suc n)) (from_to bytes n)
        (λ x (i, h, k). (i, omega arith, k)) (from_to-IsSwap bytes n))
      (All-weaken (IsMirrored bytes n) (IsSwap bytes (suc n)) (swaps_of bytes n bytes)
        (λ x k. (n, omega arith, k)) (swaps_of-IsMirrored bytes n bytes (omega arith)))
