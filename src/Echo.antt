-- ===== src/Echo.antt =====
-- `main` of lwrcl/libraries/src/tf2_ros/src/tf2_echo.cpp: its arguments and its two loops. The
-- answers of the buffer, the flag that `ok` reads and the readings of the steady clock are arguments
-- for each round; `std::stof` and the division that makes a period of a rate are parameters. A rate
-- whose period is negative or no int64_t is left out, as in `Rate`.
pub mod Reports
pub mod Tests
use rcl_like_wrapper_for_fas.Base.{
  ℕ, Bool, not, ◌&&◌, ◌==◌, Option, none, some, List, [], ◌∷◌, if◌then◌else◌,
}
use rcl_like_wrapper_for_fas.Rate.{Rate, make, sleep}
use rcl_like_wrapper_for_fas.Transforms.Buffer.{Found, found, thrown}
use Prim.Native.String.{String, len}

-- What `std::stof` does: a value with the number of characters read, or an exception.
pub data Stof (D : Type 0) : Type 0 where
  converted : D → ℕ → Stof D
  invalid_argument out_of_range : Stof D

-- `period` is 1.0 / rate_hz * 1000000000 as a number of nanoseconds.
pub record Library (D : Type 0) : Type 0 where
  pub stof : String → Stof D
  pub one : D
  pub period : D → Option ℕ

-- How `main` goes on after its arguments: it returns a status, an exception leaves it, or it echoes
-- the transform between two frames with a period.
pub data Started : Type 0 where
  exits : ℕ → Started
  aborts : Started
  echoes : (source_frameid target_frameid : String) (period : ℕ) → Started
  left_out : Started

module _ {D : Type 0} (lib : Library D) where
  at_rate : String → String → Option ℕ → Started
  at_rate source target none = left_out
  at_rate source target (some period) = echoes source target period

  parsed_rate : String → String → String → Stof D → Started
  unfolding at_rate
  parsed_rate source target rate (converted hz pos) =
      if pos == len rate then at_rate source target (lib.period hz) else exits 3
  parsed_rate source target rate invalid_argument = exits 2
  parsed_rate source target rate out_of_range = aborts

  -- The arguments are argv without the program's name.
  unfoldable pub main : List String → Started
  unfolding at_rate parsed_rate
  main (source ∷ target ∷ []) = at_rate source target (lib.period lib.one)
  main (source ∷ target ∷ rate ∷ []) = parsed_rate source target rate (lib.stof rate)
  main [] = exits 1
  main (a ∷ []) = exits 1
  main (a ∷ b ∷ c ∷ d ∷ rest) = exits 1

-- A test of a loop: what `ok` returns, what the buffer answers, and the clock at `rate.sleep()`.
pub record Tick (A : Type 0) : Type 0 where
  pub is_ok : Bool
  pub answer : A
  pub now : ℕ

pub data Line (X E : Type 0) : Type 0 where
  waiting : Line X E
  transform : X → Line X E
  failure : E → Line X E

pub data End : Type 0 where
  returned : ℕ → End
  aborted divided_by_zero running outside : End

-- What is printed, the times that `rate.sleep()` slept until, and how the run ends; `running` is a
-- run that has made all its tests,
-- and `outside` one that the model leaves out.
pub record Echo (X E : Type 0) : Type 0 where
  pub lines : List (Line X E)
  pub wakes : List ℕ
  pub end : End

module _ {X E : Type 0} where
  abbrev pub stopped : End → Echo X E
  stopped end = record { lines = []; wakes = []; end = end }

  unfoldable pub slept : Line X E → Option (ℕ × Rate) → (Rate → Echo X E) → Echo X E
  slept line none next = record { lines = line ∷ []; wakes = []; end = divided_by_zero }
  slept line (some (t, r)) next =
      let rest = next r in
      record { lines = line ∷ rest.lines; wakes = t ∷ rest.wakes; end = rest.end }

  unfoldable pub report : Found X E → Line X E
  report (found x) = transform x
  report (thrown e) = failure e

  -- The second loop.
  unfoldable pub echo_loop : List (Tick (Found X E)) → Rate → Echo X E
  unfolding slept report
  echo_loop [] r = stopped running
  echo_loop (t ∷ ts) r =
      let next = slept (report t.answer) (sleep r t.now) (echo_loop ts) in
      if t.is_ok then next else stopped (returned 0)

  -- The first loop, whose answers are those of canTransform, and then the second.
  unfoldable pub wait_loop : List (Tick Bool) → List (Tick (Found X E)) → Rate → Echo X E
  unfolding slept echo_loop
  wait_loop [] looks r = stopped running
  wait_loop (t ∷ ts) looks r =
      let next = slept waiting (sleep r t.now) (wait_loop ts looks) in
      if t.is_ok && not t.answer then next else echo_loop looks r

  -- From the arguments to the end of `main`; the rate is made at the first reading of the clock.
  unfoldable pub program : Started → ℕ → List (Tick Bool) → List (Tick (Found X E)) → Echo X E
  unfolding wait_loop
  program (exits status) now polls looks = stopped (returned status)
  program aborts now polls looks = stopped aborted
  program (echoes source target period) now polls looks = wait_loop polls looks (make period now)
  program left_out now polls looks = stopped outside
