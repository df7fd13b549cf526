-- ===== src/Node/Tests.antt =====
-- A node with two subscribers and a timer, and a program that logs what it is given.
use rcl_like_wrapper_for_fas.Base.{
  ℕ, ◌≡◌, refl, List, [], ◌∷◌, ◌++◌, true, false, some, arith, ◌==◌, if◌then◌else◌, update,
}
use rcl_like_wrapper_for_fas.Channel.{produce, consume, consume_nowait}
use rcl_like_wrapper_for_fas.Subscriber.{
  Callback, subscription, timer, sample, emplace_back, announce, writes_of, write,
  on_data_available, erase_begin,
}
use rcl_like_wrapper_for_fas.Node.{Node, Program, arrives, happen, happen_all, invoke}
use rcl_like_wrapper_for_fas.Node.SpinSome.{returned, drain, spin_some}
use rcl_like_wrapper_for_fas.Node.SpinSome.Total.{IsFrugal, spin_some-returns}
use rcl_like_wrapper_for_fas.Node.SpinSome.Order.{replay, IsCalm, with_queue, spin_some-replay}
use rcl_like_wrapper_for_fas.Node.Spin.{
  System, consuming, invoking, ended, spin_move, spin_moves, spins,
}
use rcl_like_wrapper_for_fas.Node.Spin.Threads.{
  Threads, write_node, moves, takes, writes, Reach, here, next,
}
use rcl_like_wrapper_for_fas.Node.Spin.Inbox.{Reach-buffer}
use rcl_like_wrapper_for_fas.Node.Spin.Drain.{shut_node, spin_moves-replay}
use rcl_like_wrapper_for_fas.Node.Spin.Delivery.{
  Act, spin, event, act, run, heard, handled, run-handled,
}

-- The world is the log of messages; message 0 makes the subscriber's function throw.
abbrev logger : Program ℕ (List ℕ)
logger = record {
  on_message = λ i m w. record { world = m ∷ w; threw = m == 0; during = [] };
  on_timer = λ t w. record { world = w; threw = false; during = [] };
}

logger-IsFrugal : IsFrugal logger (λ _. 0)
logger-IsFrugal = record { message = λ i m w. omega arith; tick = λ t w. omega arith }

logger-IsCalm : IsCalm logger
logger-IsCalm = record { message = λ i m w. refl; tick = λ t w. refl }

abbrev two_messages : ℕ → List ℕ
two_messages i = if i == 1 then 4 ∷ 5 ∷ [] else []

abbrev busy : Node ℕ
busy = record {
  channel = record {
    queue = some (subscription 1) ∷ some (timer 2) ∷ some (subscription 1) ∷ [];
    closed = false;
  };
  buffers = two_messages;
}

spin_some-busy :
    spin_some logger 5 busy []
    ≡ returned (
      record {
        channel = record { queue = []; closed = false };
        buffers =
            (invoke logger
              (subscription 1)
              (invoke logger (subscription 1) busy []).0
              []).0.buffers;
      },
      5 ∷ 4 ∷ [],
    )
unfolding spin_some drain invoke consume_nowait happen_all erase_begin
spin_some-busy = refl

spin_some-returns_example :
    (n' : Node ℕ) × (w' : List ℕ) × (spin_some logger 5 busy [] ≡ returned (n', w'))
    × (n'.channel.queue ≡ [])
spin_some-returns_example =
    spin_some-returns logger (λ _. 0) logger-IsFrugal 3 busy [] (tt, (tt, (tt, tt))) (omega arith)

abbrev queued : List Callback
queued = subscription 1 ∷ timer 2 ∷ subscription 1 ∷ []

spin_some-replay_example :
    spin_some logger 5 busy [] ≡ returned (replay logger queued (with_queue logger [] busy) [])
spin_some-replay_example = spin_some-replay logger logger-IsCalm queued busy [] refl

-- The node spins: at its inner `consume`, closed with its queue not empty.
abbrev stopped : System ℕ (List ℕ)
stopped = record {
  node = record {
    channel = record { queue = some (subscription 1) ∷ some (timer 2) ∷ []; closed = true };
    buffers = two_messages;
  };
  world = [];
  global_stop_flag = false;
  pc = consuming;
}

spin_moves-replay_example :
    let (n, w) = replay logger (subscription 1 ∷ timer 2 ∷ []) (shut_node [] two_messages) [] in
    (spin_moves logger 7 stopped
      ≡ record { node = n; world = w; global_stop_flag = false; pc = ended })
    × (n.channel ≡ record { queue = []; closed = true })
spin_moves-replay_example =
    spin_moves-replay logger (subscription 1 ∷ timer 2 ∷ []) stopped refl refl

-- The node spins with an empty channel; a message for subscriber 1 arrives, in the two writes of its
-- listener, and is taken.
abbrev quiet : System ℕ (List ℕ)
quiet = record {
  node = record { channel = record { queue = []; closed = false }; buffers = λ _. [] };
  world = [];
  global_stop_flag = false;
  pc = consuming;
}

abbrev resting : Threads ℕ (List ℕ)
resting = record { system = quiet; left = λ _. [] }

-- The listener has a sample, and one of its two writes done, and both.
abbrev called : Threads ℕ (List ℕ)
called = record resting { left = update resting.left 1 (writes_of (sample 4 true)) }

abbrev buffered : Threads ℕ (List ℕ)
buffered = record {
  system = record quiet { node = write_node 1 (emplace_back 4) quiet.node };
  left = update called.left 1 (announce ∷ []);
}

abbrev told : Threads ℕ (List ℕ)
told = record {
  system = record quiet { node = write_node 1 announce buffered.system.node };
  left = update buffered.left 1 [];
}

abbrev taken : System ℕ (List ℕ)
taken = spin_move logger told.system

Reach-taken : Reach logger resting (record told { system = taken })
unfolding writes_of
Reach-taken =
    next
      (next
        (next (next here (takes 1 (sample 4 true) refl))
          (writes 1 (emplace_back 4) (announce ∷ []) refl))
        (writes 1 announce [] refl))
      (moves spins)

taken_pc : taken.pc ≡ invoking (some (subscription 1))
unfolding spin_move write_node write produce consume
taken_pc = refl

Reach-buffer_example : (m : ℕ) × (rest : List ℕ) × (taken.node.buffers 1 ≡ m ∷ rest)
Reach-buffer_example = Reach-buffer logger 1 (omega arith) Reach-taken taken_pc

-- Message 0 makes the function throw, and stays where it is.
abbrev schedule : List (Act ℕ)
schedule =
    event (arrives 1 (sample 4 true))
    ∷ event (arrives 1 (sample 0 true))
    ∷ event (arrives 1 (sample 9 false))
    ∷ spin
    ∷ spin
    ∷ spin
    ∷ spin
    ∷ event (arrives 1 (sample 6 true))
    ∷ []

run-schedule :
    (heard logger 1 schedule quiet ≡ 4 ∷ 0 ∷ 6 ∷ [])
    × (handled logger 1 schedule quiet ≡ 4 ∷ [])
    × ((run logger 1 schedule quiet).node.buffers 1 ≡ 0 ∷ 6 ∷ [])
unfolding heard handled run spin_move happen happen_all on_data_available produce consume invoke
    erase_begin act
run-schedule = (refl, refl, refl)

run-handled_example :
    heard logger 1 schedule quiet
    ≡ handled logger 1 schedule quiet ++ (run logger 1 schedule quiet).node.buffers 1
run-handled_example = run-handled logger 1 schedule quiet
