-- ===== src/Time/Laws.antt =====
-- The arithmetic and the order of `Time` and `Duration`.
use rcl_like_wrapper_for_fas.Base.{
  ℕ, ◌≡◌, ◌<◌, ◌^◌, true, false, some, not, refl, ◌||◌, ◌⊎◌, ◌↔◌, arith,
}
use rcl_like_wrapper_for_fas.Base.Int.{ℤ, pos, ◌+ℤ◌, ◌-ℤ◌, +ℤ_parts, eq_of_parts, int_laws}
use rcl_like_wrapper_for_fas.Base.Int64.{
  checked, InRange, checked_range, checked-some, times_billion, IsInt32, from_parts_lem,
}
use rcl_like_wrapper_for_fas.Duration.{Duration}
use rcl_like_wrapper_for_fas.Time
use rcl_like_wrapper_for_fas.Time.{Time}

-- The constructor from an int32_t of seconds and a uint32_t of nanoseconds never overflows.
of_parts-total :
    (seconds : ℤ) (nanoseconds : ℕ)
    → IsInt32 seconds
    → nanoseconds < 2 ^ 32
    → Time.of_parts seconds nanoseconds
      ≡ some (Time.of_nanoseconds (times_billion seconds +ℤ pos nanoseconds))
unfolding Time.of_parts
of_parts-total seconds nanoseconds h lt = rw (from_parts_lem seconds nanoseconds h lt)

add-some :
    (t u : Time) (d : Duration)
    → Time.add t d ≡ some u
    → (u.nanoseconds ≡ t.nanoseconds +ℤ d.nanoseconds)
unfolding Time.add
add-some t u d e = ground (arith, checked-some (t.nanoseconds +ℤ d.nanoseconds) u.nanoseconds)

checked_eq : (a b : ℤ) → a ≡ b → InRange b → checked a ≡ some b
checked_eq a b e h = rw e (checked_range b h)

minus_of_plus : (a b c : ℤ) → c ≡ a +ℤ b → (c -ℤ b ≡ a) × (c -ℤ a ≡ b)
minus_of_plus a b c e = rw e (omega int_laws, omega int_laws)

-- Where the sum of a time and a duration is defined, both subtractions are defined and undo it.
sub-add :
    (t u : Time) (d : Duration)
    → InRange t.nanoseconds
    → InRange d.nanoseconds
    → Time.add t d ≡ some u
    → (Time.sub u d ≡ some t) × (Time.diff u t ≡ some d)
unfolding Time.sub Time.diff
sub-add t u d ht hd e =
    let (back, gap) = minus_of_plus t.nanoseconds d.nanoseconds u.nanoseconds (add-some t u d e) in
    (rw (checked_eq _ _ back ht), rw (checked_eq _ _ gap hd))

-- The six comparisons are one total order: exactly one of `<`, `==` and `>` holds, `==` holds on
-- equal times only, and the other three are what those say.
compare_lem :
    (t u : Time)
    → (((Time.lt t u ≡ true) × (Time.eq t u ≡ false) × (Time.gt t u ≡ false))
        ⊎ ((Time.lt t u ≡ false) × (Time.eq t u ≡ true) × (Time.gt t u ≡ false))
        ⊎ ((Time.lt t u ≡ false) × (Time.eq t u ≡ false) × (Time.gt t u ≡ true)))
      × ((Time.eq t u ≡ true) ↔ (t ≡ u))
      × (Time.ne t u ≡ not (Time.eq t u))
      × (Time.le t u ≡ (Time.lt t u || Time.eq t u))
      × (Time.ge t u ≡ (Time.gt t u || Time.eq t u))
unfolding Time.lt Time.eq Time.gt Time.ne Time.le Time.ge
compare_lem t u = (
  ground arith,
  (
    λ h i. record { nanoseconds = eq_of_parts t.nanoseconds u.nanoseconds (ground arith) i },
    λ e. ground arith,
  ),
  refl,
  ground arith,
  ground arith,
)

-- Adding one duration to two times keeps their order.
lt-add :
    (t u v w : Time) (d : Duration)
    → Time.lt t u ≡ true
    → Time.add t d ≡ some v
    → Time.add u d ≡ some w
    → Time.lt v w ≡ true
unfolding Time.lt
lt-add t u v w d h e f =
    rw (add-some t v d e, add-some u w d f)
      (ground (arith, +ℤ_parts t.nanoseconds d.nanoseconds, +ℤ_parts u.nanoseconds d.nanoseconds))
