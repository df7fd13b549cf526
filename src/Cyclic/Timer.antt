-- ===== src/Cyclic/Timer.antt =====
-- `run` of the cyclic publishers: the POSIX timer that is set from the interval in milliseconds.
-- `timer_settime` is an argument. The product of the nanoseconds is computed in int, whose overflow is
-- undefined in C++: it is taken to wrap around, which is what the processors that it runs on do.
use rcl_like_wrapper_for_fas.Base.{
  ℕ, ◌-◌, ◌*◌, ◌/◌, ◌%◌, ◌^◌, ◌≤◌, ◌<◌, ◌≡◌, refl, ◌⊎◌, inl, inr, Bool, true, false, ◌&&◌, ltb,
  if◌then◌else◌, arith,
}
use rcl_like_wrapper_for_fas.Base.Int.{ℤ, pos, negsuc}

pub record Timespec : Type 0 where
  pub tv_sec : ℕ
  pub tv_nsec : ℕ

-- An int from a product.
unfoldable pub as_int : ℕ → ℤ
as_int n = let v = n % 2 ^ 32 in if ltb v (2 ^ 31) then pos v else negsuc (2 ^ 32 - 1 - v)

-- One of the two equal parts of `ts`.
pub record Setting : Type 0 where
  pub tv_sec : ℕ
  pub tv_nsec : ℤ

unfoldable pub timer_spec : ℕ → Setting
unfolding as_int
timer_spec interval_ms = record {
  tv_sec = interval_ms / 1000;
  tv_nsec = as_int (interval_ms % 1000000 * 1000000);
}

-- `exited` is exit(1).
pub data Armed : Type 0 where
  armed : Setting → Armed
  exited : Armed

-- `run` up to the start of its thread: what `signal`, timer_create and timer_settime answer, and
-- the interval.
unfoldable pub arm : Bool → Bool → (Setting → Bool) → ℕ → Armed
unfolding timer_spec
arm handler_set timer_created timer_settime interval_ms =
    let ts = timer_spec interval_ms in
    if handler_set && timer_created && timer_settime ts then armed ts else exited

-- What timer_settime is documented to do with a timer that exists: it fails with EINVAL exactly
-- for nanoseconds that are negative or not below a second.
pub record IsSettime (timer_settime : Setting → Bool) : Type 0 where
  pub accepts :
      (ts : Setting) (n : ℕ) → ts.tv_nsec ≡ pos n → n < 1000000000 → timer_settime ts ≡ true
  pub rejects_long :
      (ts : Setting) (n : ℕ) → ts.tv_nsec ≡ pos n → 1000000000 ≤ n → timer_settime ts ≡ false
  pub rejects_negative : (ts : Setting) (n : ℕ) → ts.tv_nsec ≡ negsuc n → timer_settime ts ≡ false

-- The product after its wrap-around.
abbrev pub product : ℕ → ℕ
product interval_ms = interval_ms * 1000000 % 2 ^ 32

-- The intervals whose timer can be set: those below a second, and longer ones whose product wraps
-- around to less than a second.
abbrev pub Fits : ℕ → Type 0
Fits interval_ms =
    (interval_ms < 1000) ⊎ ((4295 ≤ interval_ms) × (product interval_ms < 1000000000))

abbrev pub TooLong : ℕ → Type 0
TooLong interval_ms =
    (1000 ≤ interval_ms) × ((interval_ms < 4295) ⊎ (1000000000 ≤ product interval_ms))

ranges :
    (interval_ms : ℕ)
    → (Fits interval_ms × (product interval_ms < 1000000000))
      ⊎ (TooLong interval_ms × (1000000000 ≤ product interval_ms))
ranges interval_ms = ground arith

below : (n bound : ℕ) → (n < bound) ⊎ (bound ≤ n)
below n bound = ground arith

whole : (interval_ms : ℕ) → interval_ms < 2 ^ 16 → interval_ms % 1000000 ≡ interval_ms
whole interval_ms h = omega (arith, h)

as_int-cases :
    (n : ℕ)
    → (as_int n ≡ pos (n % 2 ^ 32)) ⊎ ((m : ℕ) × (as_int n ≡ negsuc m) × (2 ^ 31 ≤ n % 2 ^ 32))
unfolding as_int
as_int-cases n = elim (below (n % 2 ^ 32) (2 ^ 31)) [
  | inl h ↦ inl (ground (arith, h))
  | inr h ↦ inr (2 ^ 32 - 1 - n % 2 ^ 32, ground (arith, h), h)
]

settime-accepts :
    (timer_settime : Setting → Bool) (interval_ms : ℕ)
    → IsSettime timer_settime
    → interval_ms < 2 ^ 16
    → product interval_ms < 1000000000
    → timer_settime (timer_spec interval_ms) ≡ true
unfolding timer_spec
settime-accepts timer_settime interval_ms law h k =
    elim (as_int-cases (interval_ms % 1000000 * 1000000)) [
      | inl e ↦ law.accepts _ _ e (rw (whole interval_ms h) k)
      | inr (m, e, l) ↦ absurd (omega (arith, whole interval_ms h, k, l))
    ]

settime-rejects :
    (timer_settime : Setting → Bool) (interval_ms : ℕ)
    → IsSettime timer_settime
    → interval_ms < 2 ^ 16
    → 1000000000 ≤ product interval_ms
    → timer_settime (timer_spec interval_ms) ≡ false
unfolding timer_spec
settime-rejects timer_settime interval_ms law h k =
    elim (as_int-cases (interval_ms % 1000000 * 1000000)) [
      | inl e ↦ law.rejects_long _ _ e (rw (whole interval_ms h) k)
      | inr (m, e, l) ↦ law.rejects_negative _ m e
    ]

-- Where the signal handler is set and the timer made, the timer is set where the interval fits, and
-- exit(1) ends the program where it does not.
pub arm-cases :
    (timer_settime : Setting → Bool) (interval_ms : ℕ)
    → IsSettime timer_settime
    → interval_ms < 2 ^ 16
    → (Fits interval_ms × ((ts : Setting) × (arm true true timer_settime interval_ms ≡ armed ts)))
      ⊎ (TooLong interval_ms × (arm true true timer_settime interval_ms ≡ exited))
unfolding arm
arm-cases timer_settime interval_ms law h = elim (ranges interval_ms) [
  | inl (fits, k) ↦
      inl (
        fits,
        (timer_spec interval_ms, rw (settime-accepts timer_settime interval_ms law h k) refl),
      )
  | inr (long, k) ↦ inr (long, rw (settime-rejects timer_settime interval_ms law h k) refl)
]
