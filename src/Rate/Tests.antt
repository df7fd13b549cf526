-- ===== src/Rate/Tests.antt =====
-- A rate with a period of ten nanoseconds, one of minus ten milliseconds, and one of zero.
use rcl_like_wrapper_for_fas.Base.{◌≡◌, refl, arith, none, some, [], ◌∷◌}
use rcl_like_wrapper_for_fas.Base.Int.{ℤ, pos, negsuc, ◌+ℤ◌, ◌≤ℤ◌}
use rcl_like_wrapper_for_fas.Rate
use rcl_like_wrapper_for_fas.Rate.Signed
use rcl_like_wrapper_for_fas.Rate.Signed.{sleep-negative}

abbrev tens : Rate.Rate
tens = record { period = 10; next_time = 110 }

make-tens : Rate.make 10 100 ≡ tens
unfolding Rate.make
make-tens = refl

-- On time, early, and late by two periods.
sleeps-tens : Rate.sleeps tens (104 ∷ 115 ∷ 142 ∷ []) ≡ some (110 ∷ 120 ∷ 150 ∷ [])
unfolding Rate.sleeps Rate.sleep
sleeps-tens = refl

-- The period is zero, and the time to come has passed.
sleep-none : Rate.sleep (record { period = 0; next_time = 5 }) 7 ≡ none
unfolding Rate.sleep
sleep-none = refl

sleep-negative_example :
    (t : ℤ) × (u : ℤ) × (Signed.sleep
        (record { period = negsuc 9999999; next_time = pos 5 })
        (pos 40000000)
      ≡ some (t, record { period = negsuc 9999999; next_time = u }))
    × (t +ℤ pos 1 ≤ℤ pos 40000000)
    × (u ≤ℤ pos 40000000)
sleep-negative_example = sleep-negative 9999999 (pos 5) (pos 40000000) (omega arith)
