-- ===== src/App/Example/Programs/Whole.antt =====
-- The two examples of lwrcl_example from their node to the end of `main`.
use rcl_like_wrapper_for_fas.Base.{
  ℕ, ◌≡◌, ◌<◌, ◌^◌, refl, Bool, true, false, List, [], arith, length,
}
use rcl_like_wrapper_for_fas.Outcome.{done}
use rcl_like_wrapper_for_fas.Endpoint.{Entity, Answers, Result, ok, threw}
use rcl_like_wrapper_for_fas.Node.Ownership.{nothing}
use rcl_like_wrapper_for_fas.Rate.{make}
use rcl_like_wrapper_for_fas.Cyclic.Timer.{Timespec}
use rcl_like_wrapper_for_fas.App.{Init, create_until}
use rcl_like_wrapper_for_fas.App.Life.{create_until-IsBalanced}
use rcl_like_wrapper_for_fas.App.Main.{Ran, after_init, failed, spun}
use rcl_like_wrapper_for_fas.App.Main.Balance.{
  IsBalanced, after_init-IsBalanced, failed-IsBalanced, spun-IsBalanced,
}
use rcl_like_wrapper_for_fas.App.Example.{Round, Report}
use rcl_like_wrapper_for_fas.App.Example.Rounds.{loop-returns}
use rcl_like_wrapper_for_fas.App.Example.Programs.{
  timer_creates, spin_creates, timer_main, start, run_rounds, spin_main,
}
use Prim.Native.String.{String}

-- Where example_timer exits, its participant has been given back each entity as often as it was
-- created or found.
timer_main-IsBalanced :
    (e : Entity) (made : Bool) (participant : String → Answers)
    → IsBalanced e (timer_main made participant)
unfolding timer_main
timer_main-IsBalanced e true participant =
    let i = create_until (timer_creates participant) nothing in
    after_init-IsBalanced e i.ended i spun (create_until-IsBalanced e (timer_creates participant))
      (spun-IsBalanced e)
timer_main-IsBalanced e false participant = failed-IsBalanced e

module _ {M : Type 0} (e : Entity) where
  abbrev EndsBalanced :
      (rounds : List (Round M)) → Timespec → ℕ → Bool → (String → Answers) → Type 0
  EndsBalanced rounds wall steady made participant =
      (r : Ran) × (reports : List Report) × (spin_main rounds wall steady made participant
        ≡ done (r, reports))
      × IsBalanced e r

  run_rounds-ends :
      (rounds : List (Round M)) (wall : Timespec) (steady : ℕ) (i : Init) (ended : Result Bool)
      → length rounds < 2 ^ 31
      → IsBalanced e (after_init ended i spun)
      → (r : Ran) × (reports : List Report) × (run_rounds rounds wall steady i ended
          ≡ done (r, reports))
        × IsBalanced e r
  unfolding run_rounds start make
  run_rounds-ends rounds wall steady i (ok b) short balanced =
      let (l, xs, run, _, _, _) =
        loop-returns rounds (start wall steady) tt (omega arith) (omega (arith, short)) in
      (after_init (ok b) i spun, xs, rw run refl, balanced)
  run_rounds-ends rounds wall steady i (threw x) short balanced =
      (after_init (threw x) i spun, [], refl, balanced)

  -- example_spin, whatever the participant answers and arrives: it comes to its end, before 2^31 rounds
  -- have gone by, and where it exits, its participant has been given back each entity as often as it was
  -- created or found.
  spin_main-ends :
      (rounds : List (Round M)) (wall : Timespec) (steady : ℕ) (made : Bool)
      (participant : String → Answers)
      → length rounds < 2 ^ 31
      → EndsBalanced rounds wall steady made participant
  unfolding spin_main
  spin_main-ends rounds wall steady true participant short =
      let i = create_until (spin_creates participant) nothing in
      run_rounds-ends rounds wall steady i i.ended short (
        after_init-IsBalanced e i.ended i spun
          (create_until-IsBalanced e (spin_creates participant)) (spun-IsBalanced e))
  spin_main-ends rounds wall steady false participant short =
      (failed, [], refl, failed-IsBalanced e)
