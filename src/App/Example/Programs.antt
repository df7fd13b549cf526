-- ===== src/App/Example/Programs.antt =====
-- `main` of lwrcl/apps/lwrcl_example/src/example_timer.cpp and example_spin.cpp: one node, whose
-- creations are as those of `init` of the other applications, and then `spin`, or the loop. An
-- exception of the constructor or of a creation is not caught.
pub mod Whole
use rcl_like_wrapper_for_fas.Base.{
  ℕ, ◌≡◌, refl, ap, Bool, true, false, List, [], ◌∷◌, ◌++◌, if◌then◌else◌, arith,
}
use Prim.Native.String.{String}
use rcl_like_wrapper_for_fas.Outcome.{Outcome, done, ◌>>=◌}
use rcl_like_wrapper_for_fas.Endpoint.{Entity, Answers, Result, ok, threw}
use rcl_like_wrapper_for_fas.Channel.{empty}
use rcl_like_wrapper_for_fas.Rate.{make}
use rcl_like_wrapper_for_fas.Node.Ownership.{
  nothing, Create, publisher, subscription, timer, destroy,
}
use rcl_like_wrapper_for_fas.Node.Ownership.Counts.{taken, given_back}
use rcl_like_wrapper_for_fas.Node.Ownership.Balance.{destroy-balance}
use rcl_like_wrapper_for_fas.Cyclic.Timer.{Timespec}
use rcl_like_wrapper_for_fas.App.{Init, create_until}
use rcl_like_wrapper_for_fas.App.Life.{create_until-IsBalanced}
use rcl_like_wrapper_for_fas.App.Main.{Exit, exits, Ran, after_init, failed, spun}
use rcl_like_wrapper_for_fas.App.Main.Balance.{
  IsBalanced, after_init-IsBalanced, failed-IsBalanced, spun-IsBalanced,
}
use rcl_like_wrapper_for_fas.App.Example.{Round, Loop, Report, loop}

timer_creates : (String → Answers) → List Create
timer_creates participant =
    publisher participant "TESTTopic2" ∷ subscription participant "TESTTopic1" ∷ timer 0 ∷ []

spin_creates : (String → Answers) → List Create
spin_creates participant =
    publisher participant "TESTTopic1" ∷ subscription participant "TESTTopic2" ∷ []

-- From whether the constructor of the node returned, when `spin` has returned.
unfoldable pub timer_main : Bool → (String → Answers) → Ran
unfolding timer_creates
timer_main made participant =
    let i = create_until (timer_creates participant) nothing in
    if made then after_init i.ended i spun else failed

module _ {M : Type 0} where
  -- The values of the loop's variables before it, at the readings of both clocks.
  start : Timespec → ℕ → Loop M
  start wall steady = record {
    data_value = 0;
    last_time = wall;
    rate = make 100000000 steady;
    node = record { channel = empty; buffers = λ i. [] };
    printed = [];
  }

  run_rounds : List (Round M) → Timespec → ℕ → Init → Result Bool → Outcome (Ran × List Report)
  unfolding start
  run_rounds rounds wall steady i (threw e) = done (after_init (threw e) i spun, [])
  run_rounds rounds wall steady i (ok b) = do
    r ← loop rounds (start wall steady)
    done (after_init (ok b) i spun, r.1)

  -- Until `ok` fails after these rounds.
  unfoldable pub spin_main :
      List (Round M) → Timespec → ℕ → Bool → (String → Answers) → Outcome (Ran × List Report)
  unfolding spin_creates run_rounds
  spin_main rounds wall steady made participant =
      let i = create_until (spin_creates participant) nothing in
      if made then run_rounds rounds wall steady i i.ended else done (failed, [])
