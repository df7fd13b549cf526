-- ===== src/Timer.antt =====
-- `Timer` of lwrcl/libraries/src/lwrcl/include/timer.hpp: a worker thread that produces the timer's
-- callback at the end of each period. Times are nanoseconds of the steady clock, and the period is
-- positive or zero. `TimerCallback::invoke` is in Node.antt.
pub mod Schedule
pub mod Tests
use rcl_like_wrapper_for_fas.Base.{
  ℕ, ◌+◌, Bool, true, false, List, [], ◌∷◌, Option, none, some, if◌then◌else◌,
}
use rcl_like_wrapper_for_fas.Channel.{Channel, produce}
use rcl_like_wrapper_for_fas.Subscriber.{Callback, timer}

-- Where the worker stands in `run`: at the test of the loop, asleep until `next_execution_time`,
-- or returned.
pub data Pc : Type 0 where
  checking asleep finished : Pc

pub record Timer : Type 0 where
  pub period : ℕ
  pub stop_flag : Bool
  pub next_execution_time : ℕ
  pub pc : Pc

-- The constructor, with the worker that `start` spawns at its first statement.
unfoldable pub make : ℕ → ℕ → Timer
make period now = record {
  period = period;
  stop_flag = false;
  next_execution_time = now + period;
  pc = checking;
}

-- A move of the worker of timer `id`, with the channel that it produces to and the time for which
-- the production was scheduled.
worker_pc :
    ℕ → Pc → Timer → Channel (Option Callback) → Timer × Channel (Option Callback) × Option ℕ
worker_pc id checking t c =
    if t.stop_flag
    then (record t { pc = finished }, c, none)
    else (record t { pc = asleep }, c, none)
worker_pc id asleep t c = (
  record t { next_execution_time = t.next_execution_time + t.period; pc = checking },
  produce (some (timer id)) c,
  some t.next_execution_time,
)
worker_pc id finished t c = (t, c, none)

unfoldable pub worker_move :
    ℕ → Timer → Channel (Option Callback) → Timer × Channel (Option Callback) × Option ℕ
unfolding worker_pc
worker_move id t c = worker_pc id t.pc t c

-- The assignment of `stop`; its `join` waits until the worker is `finished`.
unfoldable pub stop : Timer → Timer
stop t = record t { stop_flag = true }

-- A schedule of the worker and of calls of `stop`: the timer, the channel, and the times for which
-- the productions were scheduled.
pub data Act : Type 0 where
  work stopped : Act

fire : Option ℕ → List ℕ → List ℕ
fire none ts = ts
fire (some t) ts = t ∷ ts

unfoldable pub run :
    ℕ → List Act → Timer → Channel (Option Callback) → Timer × Channel (Option Callback) × List ℕ
unfolding fire
run id [] t c = (t, c, [])
run id (stopped ∷ acts) t c = run id acts (stop t) c
run id (work ∷ acts) t c =
    let (t', c', fired) = worker_move id t c in
    let (last, d, ts) = run id acts t' c' in (last, d, fire fired ts)
