-- ===== src/App/Example.antt =====
-- The loop of lwrcl/apps/lwrcl_example/src/example_spin.cpp: in each round, which begins when `ok`
-- holds, it prints the time since the last one, publishes, lets its node spin and sleeps. The wall
-- clock and the steady clock are arguments, as are the events before the node spins and while its
-- callbacks run.
pub mod Rounds
pub mod Programs
use rcl_like_wrapper_for_fas.Base.{
  ℕ, suc, ◌+◌, ◌^◌, Bool, true, false, Option, none, some, List, [], ◌∷◌, ◌++◌, length, ltb,
  if◌then◌else◌,
}
use rcl_like_wrapper_for_fas.Base.Int.{ℤ}
use rcl_like_wrapper_for_fas.Outcome.{Outcome, done, fault, exhausted, ◌>>=◌}
use rcl_like_wrapper_for_fas.Node.{Node, Event, Program, Reaction, happen_all}
use rcl_like_wrapper_for_fas.Node.SpinSome.{Result, returned, spin_some}
use rcl_like_wrapper_for_fas.Node.SpinSome as spin
use rcl_like_wrapper_for_fas.Rate.{Rate, sleep}
use rcl_like_wrapper_for_fas.Cyclic.Timer.{Timespec}
use rcl_like_wrapper_for_fas.Cyclic.Thread.{interval}

pub record Round (M : Type 0) : Type 0 where
  pub cur_time : Timespec
  pub arrived : List (Event M)
  -- for each callback that the node runs, while it runs; what no callback takes does not happen
  pub during : List (List (Event M))
  pub steady : ℕ

-- `printed` are the messages that `myCallbackFunction` has printed.
pub record Loop (M : Type 0) : Type 0 where
  pub data_value : ℕ
  pub last_time : Timespec
  pub rate : Rate
  pub node : Node M
  pub printed : List M

-- What a round prints and sends, and until when it sleeps.
pub record Report : Type 0 where
  pub elapsed : ℤ × ℤ
  pub stamp : ℕ
  pub slept_until : ℕ

abbrev pub Next : Type 0 → Type 0
Next M = Loop M × Report

-- What is printed, and the events of the callbacks to come.
abbrev pub Printer : Type 0 → Type 0
Printer M = List M × List (List (Event M))

module _ {M : Type 0} where
  unfoldable pub print : M → Printer M → Reaction M (Printer M)
  print m (w, []) = record { world = (w ++ (m ∷ []), []); threw = false; during = [] }
  print m (w, es ∷ script) = record { world = (w ++ (m ∷ []), script); threw = false; during = es }

  -- The node's program, whose subscription prints.
  unfoldable pub printing : Program M (Printer M)
  unfolding print
  printing = record {
    on_message = λ i m w. print m w;
    on_timer = λ t w. record { world = w; threw = false; during = [] };
  }

  abbrev pub total : List (List (Event M)) → ℕ
  total [] = 0
  total (es ∷ script) = length es + total script

  -- `spin_some` is given fuel for each callback that is queued or comes, one for the empty channel and
  -- one more.
  abbrev pub fuel : Node M → List (List (Event M)) → ℕ
  fuel n script = suc (suc (length n.channel.queue + total script))

  -- The end of a round; `fault` is the overflow of `data_value` or a division by a period of zero.
  pub after_sleep : Round M → Loop M → Node M × Printer M → Option (ℕ × Rate) → Outcome (Next M)
  after_sleep r l (n, (w, script)) none = fault
  after_sleep r l (n, (w, script)) (some (t, rate)) =
      if ltb (suc l.data_value) (2 ^ 31)
      then done (
        record {
          data_value = suc l.data_value;
          last_time = r.cur_time;
          rate = rate;
          node = n;
          printed = w;
        },
        record { elapsed = interval r.cur_time l.last_time; stamp = l.data_value; slept_until = t },
      )
      else fault

  pub after_spin : Round M → Loop M → Result (Node M × Printer M) → Outcome (Next M)
  unfolding after_sleep
  after_spin r l (returned s) = after_sleep r l s (sleep l.rate r.steady)
  after_spin r l spin.fault = fault
  after_spin r l spin.exhausted = exhausted

  unfoldable pub pass : Round M → Loop M → Outcome (Next M)
  unfolding after_spin printing
  pass r l =
      let n = happen_all r.arrived l.node in
      after_spin r l (spin_some printing (fuel n r.during) n (l.printed, r.during))

  -- The rounds until `ok` fails.
  unfoldable pub loop : List (Round M) → Loop M → Outcome (Loop M × List Report)
  loop [] l = done (l, [])
  loop (r ∷ rs) l = do (l', x) ← pass r l; (l'', xs) ← loop rs l'; done (l'', x ∷ xs)
