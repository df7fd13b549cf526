-- ===== src/Rate/Signed.antt =====
-- `Rate` of lwrcl/libraries/src/lwrcl/src/lwrcl.cpp with any period: the division of durations rounds
-- towards 0. Readings of the clock, times and the period are integers of nanoseconds; the range of
-- int64_t is left out.
use rcl_like_wrapper_for_fas.Base.{
  ℕ, zero, suc, ◌+◌, ◌*◌, ◌-◌, ◌/◌, ◌≤◌, ◌≡◌, refl, Bool-cases, inl, inr, true, false, Option, none,
  some, ◌==◌, leb, if◌then◌else◌, arith,
}
use rcl_like_wrapper_for_fas.Base.Int.{
  ℤ, pos, negsuc, pos_part, neg_part, sub_ℕ, ◌+ℤ◌, ◌-ℤ◌, ◌≤ℤ◌, leb_ℤ,
}
use rcl_like_wrapper_for_fas.Rate

pub record SignedRate : Type 0 where
  pub period : ℤ
  pub next_time : ℤ

unfoldable pub make : ℤ → ℤ → SignedRate
make period now = record { period = period; next_time = now +ℤ period }

infixl 70 ◌*ℤ◌
unfoldable pub ◌*ℤ◌ : ℤ → ℤ → ℤ
a *ℤ b =
    sub_ℕ (pos_part a * pos_part b + neg_part a * neg_part b)
      (pos_part a * neg_part b + neg_part a * pos_part b)

-- The quotient of a duration that is not negative; `none` is a division by 0.
unfoldable pub quotient : ℕ → ℤ → Option ℤ
quotient a (pos n) = if n == 0 then none else some (pos (a / n))
quotient a (negsuc n) = some (sub_ℕ 0 (a / suc n))

-- `next_time_` moved on by the periods missed; `now - next_time_` is not negative there.
skip : SignedRate → Option ℤ → Option ℤ
skip r none = none
skip r (some missed) = some (r.next_time +ℤ (missed +ℤ pos 1) *ℤ r.period)

unfoldable pub wake_time : SignedRate → ℤ → Option ℤ
unfolding skip quotient
wake_time r now =
    if leb_ℤ r.next_time now
    then skip r (quotient (pos_part (now -ℤ r.next_time)) r.period)
    else some r.next_time

after_wake : SignedRate → Option ℤ → Option (ℤ × SignedRate)
after_wake r none = none
after_wake r (some t) = some (t, record r { next_time = t +ℤ r.period })

-- `sleep`: the time slept until, and the new state.
unfoldable pub sleep : SignedRate → ℤ → Option (ℤ × SignedRate)
unfolding wake_time after_wake
sleep r now = after_wake r (wake_time r now)

-- A state of the rate with a positive period, and its time to come after the clock's epoch.
abbrev signed : Rate.Rate → SignedRate
signed r = record { period = pos r.period; next_time = pos r.next_time }

as_signed : Option (ℕ × Rate.Rate) → Option (ℤ × SignedRate)
as_signed none = none
as_signed (some (t, r)) = some (pos t, signed r)

pos-+ : (a b : ℕ) → pos a +ℤ pos b ≡ pos (a + b)
unfolding ◌+ℤ◌
pos-+ a b = ground arith

pos-* : (a b : ℕ) → pos a *ℤ pos b ≡ pos (a * b)
unfolding ◌*ℤ◌
pos-* a b = grind arith

elapsed-pos : (a b : ℕ) → b ≤ a → pos_part (pos a -ℤ pos b) ≡ a - b
unfolding ◌-ℤ◌
elapsed-pos a b h = ground arith

-- The two tests.
is_late : (r : Rate.Rate) (now : ℕ) → leb_ℤ (pos r.next_time) (pos now) ≡ leb r.next_time now
is_late r now = ground arith

wake_time-late :
    (r : Rate.Rate) (now : ℕ)
    → leb r.next_time now ≡ true
    → (r.period == 0) ≡ false
    → wake_time (signed r) (pos now) ≡ some (pos (Rate.wake_time r now))
unfolding wake_time skip quotient Rate.wake_time
wake_time-late r now late nonzero =
    let d = (now - r.next_time) / r.period in
    rw (is_late r now, late, elapsed-pos now r.next_time (ground arith), nonzero, skip)
      (rw (pos-+ d 1, pos-* (d + 1) r.period, pos-+ r.next_time ((d + 1) * r.period)) refl)

wake_time-early :
    (r : Rate.Rate) (now : ℕ)
    → leb r.next_time now ≡ false
    → wake_time (signed r) (pos now) ≡ some (pos (Rate.wake_time r now))
unfolding wake_time Rate.wake_time
wake_time-early r now early = rw (is_late r now, early) refl

wake_time-zero :
    (r : Rate.Rate) (now : ℕ)
    → leb r.next_time now ≡ true
    → (r.period == 0) ≡ true
    → wake_time (signed r) (pos now) ≡ none
unfolding wake_time skip quotient
wake_time-zero r now late zero_period = rw (is_late r now, late, zero_period, skip) refl

-- With a period that is not negative, this is `sleep` on natural numbers.
sleep-signed : (r : Rate.Rate) (now : ℕ) → sleep (signed r) (pos now) ≡ as_signed (Rate.sleep r now)
unfolding sleep as_signed Rate.sleep after_wake
sleep-signed r now = elim (Bool-cases (leb r.next_time now)) [
  | inr early ↦
      rw (wake_time-early r now early, early, after_wake) (rw (pos-+ r.next_time r.period) refl)
  | inl late ↦ elim (Bool-cases (r.period == 0)) [
    | inl z ↦ rw (wake_time-zero r now late z, late, z) refl
    | inr nz ↦
        rw (wake_time-late r now late nz, late, nz, after_wake)
          (rw (pos-+ (r.next_time + ((now - r.next_time) / r.period + 1) * r.period) r.period) refl)
  ]
]

-- Periods of -(m + 1), of which `q` have gone by.
one_more : (k : ℕ) → sub_ℕ 0 (suc k) +ℤ pos 1 ≡ sub_ℕ 0 k
unfolding ◌+ℤ◌
one_more k = ground arith

minus-suc : (k : ℕ) → sub_ℕ 0 (suc k) ≡ negsuc k
minus-suc k = ground arith

minus-* : (k m : ℕ) → sub_ℕ 0 k *ℤ negsuc m ≡ pos (suc m * k)
unfolding ◌*ℤ◌
minus-* zero m = grind arith
minus-* (suc k) m = rw (minus-suc k) (grind arith)

less_one : (k m : ℕ) → sub_ℕ (suc m * suc k) (suc m) ≡ pos (suc m * k)
less_one k m = let e : suc m * suc k ≡ suc m + suc m * k = grind arith in ground (arith, e)

skipped : (q m : ℕ) → (sub_ℕ 0 q +ℤ pos 1) *ℤ negsuc m ≡ sub_ℕ (suc m * q) (suc m)
unfolding ◌+ℤ◌ ◌*ℤ◌
skipped zero m = grind arith
skipped (suc k) m = rw (one_more k, minus-* k m, less_one k m) refl

product_le : (a m : ℕ) → suc m * (a / suc m) ≤ a
product_le a m = grind arith

abbrev woken : ℕ → ℤ → ℤ → ℤ
woken m next now = next +ℤ sub_ℕ (suc m * (pos_part (now -ℤ next) / suc m)) (suc m)

falls_back :
    (x m : ℕ) (next now : ℤ)
    → next ≤ℤ now
    → x ≤ pos_part (now -ℤ next)
    → (next +ℤ sub_ℕ x (suc m) +ℤ pos 1 ≤ℤ now) × (next +ℤ sub_ℕ x (suc m) +ℤ negsuc m ≤ℤ now)
unfolding ◌-ℤ◌ ◌+ℤ◌
falls_back x m next now passed fits = (ground arith, ground arith)

-- With a negative period `sleep` never waits: once the time to come has passed, as it has when the
-- rate is made, `sleep` sleeps until a time before the present, and the next one has passed too.
pub sleep-negative :
    (m : ℕ) (next now : ℤ)
    → next ≤ℤ now
    → (t : ℤ) × (u : ℤ) × (sleep (record { period = negsuc m; next_time = next }) now
        ≡ some (t, record { period = negsuc m; next_time = u }))
      × (t +ℤ pos 1 ≤ℤ now)
      × (u ≤ℤ now)
unfolding sleep after_wake wake_time skip quotient
sleep-negative m next now passed =
    let (before, again) =
      falls_back (suc m * (pos_part (now -ℤ next) / suc m)) m next now passed
        (product_le (pos_part (now -ℤ next)) m) in
    let late : leb_ℤ next now ≡ true = ground arith in
    (
      woken m next now,
      woken m next now +ℤ negsuc m,
      rw (late, skipped (pos_part (now -ℤ next) / suc m) m) refl,
      before,
      again,
    )
