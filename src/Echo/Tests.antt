-- ===== src/Echo/Tests.antt =====
-- tf2_echo with a rate of one, a transform that comes after two tests, and one failure.
use rcl_like_wrapper_for_fas.Base.{
  ℕ, ◌≡◌, refl, arith, Bool, true, false, some, List, [], ◌∷◌, ◌++◌, length,
}
use rcl_like_wrapper_for_fas.Rate.{Rate}
use rcl_like_wrapper_for_fas.Rate.Grid.{OnGrid}
use rcl_like_wrapper_for_fas.Transforms.Buffer.{Found, found, thrown}
use rcl_like_wrapper_for_fas.Echo.{
  Library, converted, main, echoes, exits, Tick, waiting, transform, failure, report, wait_loop,
}
use rcl_like_wrapper_for_fas.Echo.Reports.{finished, wait_loop-reports}
use Prim.Native.String.{String}

abbrev tick : {A : Type 0} → Bool → A → ℕ → Tick A
tick b a n = record { is_ok = b; answer = a; now = n }

-- Rates are numbers of hertz, and every text stands for 4 of them in one character.
abbrev whole_hertz : Library ℕ
whole_hertz = record { stof = λ s. converted 4 1; one = 1; period = λ hz. some 1000000000 }

main-rate : main whole_hertz ("map" ∷ "laser" ∷ "4x" ∷ []) ≡ exits 3
unfolding main
main-rate = refl

main-default : main whole_hertz ("map" ∷ "laser" ∷ []) ≡ echoes "map" "laser" 1000000000
unfolding main
main-default = refl

abbrev rate : Rate
rate = record { period = 1000; next_time = 1000 }

abbrev waits : List (Tick Bool)
waits = tick true false 10 ∷ tick true false 1010 ∷ []

abbrev looks : List (Tick (Found ℕ String))
looks = tick true (found 7) 2010 ∷ tick true (thrown "old") 5500 ∷ []

wait_loop-reports_example :
    (ts : List ℕ) × (wait_loop
        (waits ++ (tick true true 2000 ∷ []))
        (looks ++ (tick false (found 8) 6000 ∷ []))
        rate
      ≡ finished (waiting ∷ waiting ∷ transform 7 ∷ failure "old" ∷ []) ts)
    × (length ts ≡ 4)
    × OnGrid 1000 1000 ts
unfolding report
wait_loop-reports_example =
    wait_loop-reports waits [] (tick true true 2000) looks [] (tick false (found 8) 6000) rate
      (omega arith) (refl, (refl, tt)) refl (refl, (refl, tt)) refl
