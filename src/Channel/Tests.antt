-- ===== src/Channel/Tests.antt =====
-- The channel at concrete inputs.
use rcl_like_wrapper_for_fas.Base.{ℕ, ◌≡◌, refl, List, [], ◌∷◌, ◌++◌, true, false}
use rcl_like_wrapper_for_fas.Channel.{
  Channel, empty, produce, consume, consume_nowait, close, waits,
}
use rcl_like_wrapper_for_fas.Channel.Trace.{Op, produces, takes, closes, run, accepted, run-Fifo}
use rcl_like_wrapper_for_fas.Channel.Wait.{
  Room, asleep, awake, start, enters, puts, Reach, here, next, Reach-asleep, try_once, put, attempt,
  wake, notify_all,
}

abbrev backlog : Channel ℕ
backlog = record { queue = 7 ∷ []; closed = false }

-- 9 comes after the close and is dropped.
abbrev calls : List (Op ℕ)
calls = produces 1 ∷ takes ∷ closes ∷ produces 9 ∷ takes ∷ takes ∷ []

run_calls : run calls backlog ≡ (7 ∷ 1 ∷ [], record { queue = []; closed = true })
unfolding run produce close consume_nowait
run_calls = refl

run-Fifo_example :
    ((run calls backlog).0 ++ (run calls backlog).1.queue ≡ 7 ∷ 1 ∷ [])
    × ((run calls backlog).1.closed ≡ true)
unfolding accepted
run-Fifo_example = run-Fifo calls backlog

consume-empty : consume (empty {A = ℕ}) ≡ waits
unfolding consume
consume-empty = refl

-- A consumer goes to sleep on the empty channel, and a production wakes it.
abbrev sleeping : Room ℕ
sleeping = try_once start 3

abbrev woken : Room ℕ
woken = put 5 sleeping

Reach-woken : Reach woken
Reach-woken = next (next here (enters 3 refl)) (puts 5)

sleeping_pc : sleeping.pc 3 ≡ asleep
unfolding try_once attempt consume
sleeping_pc = refl

woken_pc : woken.pc 3 ≡ awake
unfolding put try_once attempt consume notify_all wake
woken_pc = refl

Reach-asleep_example : (sleeping.channel.queue ≡ []) × (sleeping.channel.closed ≡ false)
Reach-asleep_example = Reach-asleep (next here (enters 3 refl)) 3 sleeping_pc
