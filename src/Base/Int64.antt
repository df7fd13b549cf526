-- ===== src/Base/Int64.antt =====
-- int64_t arithmetic: an integer, whose operations are undefined in the source, and `none` here,
-- where the exact result leaves the range.
use rcl_like_wrapper_for_fas.Base.Tests.{if◌then◌else◌}
use rcl_like_wrapper_for_fas.Base.Int.{ℤ, pos, negsuc, pos_part, neg_part, sub_ℕ, ◌+ℤ◌, leb_ℤ, ◌≤ℤ◌}
use Prim.Native.Nat.{ℕ, ◌*◌, ◌-◌, ◌^◌, ◌<◌}
use mathlib.Core.Path.{◌≡◌}
use mathlib.Core.Bool.{◌&&◌}
use mathlib.Core.Option.{Option, none, some}
use native.Mathlib.Omega.{arith}

abbrev pub int64_min : ℤ
int64_min = negsuc (2 ^ 63 - 1)

abbrev pub int64_max : ℤ
int64_max = pos (2 ^ 63 - 1)

abbrev pub InRange : ℤ → Type 0
InRange a = (int64_min ≤ℤ a) × (a ≤ℤ int64_max)

-- The value of an operation whose exact result is `a`.
unfoldable pub checked : ℤ → Option ℤ
checked a = if leb_ℤ int64_min a && leb_ℤ a int64_max then some a else none

pub checked_range : (a : ℤ) → InRange a → checked a ≡ some a
unfolding checked
checked_range a h = ground arith

pub checked-some : (a b : ℤ) → checked a ≡ some b → (b ≡ a) × InRange a
unfolding checked
checked-some a b h = ground arith

infixl 5 ◌>>=◌
abbrev pub ◌>>=◌ {ℓ κ} : {A : Type ℓ} {B : Type κ} → Option A → (A → Option B) → Option B
none >>= f = none
some a >>= f = f a

-- An int32_t times the constant 1000000000, exactly.
abbrev pub times_billion : ℤ → ℤ
times_billion a = sub_ℕ (pos_part a * 1_000_000_000) (neg_part a * 1_000_000_000)

-- `static_cast<int64_t>(seconds) * 1000000000 + nanoseconds`
unfoldable pub from_parts : ℤ → ℕ → Option ℤ
from_parts seconds nanoseconds = do
  scaled ← checked (times_billion seconds)
  checked (scaled +ℤ pos nanoseconds)

abbrev pub IsInt32 : ℤ → Type 0
IsInt32 a = (negsuc (2 ^ 31 - 1) ≤ℤ a) × (a ≤ℤ pos (2 ^ 31 - 1))

pub from_parts_lem :
    (seconds : ℤ) (nanoseconds : ℕ)
    → IsInt32 seconds
    → nanoseconds < 2 ^ 32
    → from_parts seconds nanoseconds ≡ some (times_billion seconds +ℤ pos nanoseconds)
unfolding from_parts checked ◌+ℤ◌
from_parts_lem (pos s) n h lt = ground arith
from_parts_lem (negsuc s) n h lt = ground arith
