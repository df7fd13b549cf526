-- ===== src/Node.antt =====
-- The spinning part of `lwrcl::Node` (lwrcl/libraries/src/lwrcl/include/lwrcl.hpp and
-- src/lwrcl.cpp), with the `invoke` methods of subscriber.hpp and timer.hpp that it calls.
-- The user's callbacks are a `Program`: what they do to the world, whether they throw, and what
-- other threads do to the node while they run. Each access to a buffer is one atomic step.
pub mod Ownership
pub mod Participant
pub mod SpinSome
pub mod Spin
pub mod Tests
use rcl_like_wrapper_for_fas.Base.{
  ℕ, suc, zero, Bool, true, false, Option, none, some, List, [], ◌∷◌, ◌++◌, if◌then◌else◌, update,
}
use rcl_like_wrapper_for_fas.Channel.{Channel, produce, consume_nowait, close}
use rcl_like_wrapper_for_fas.Subscriber.{
  Callback, subscription, timer, Sample, not_ok, sample, on_data_available, erase_begin,
}

-- `buffers i` is the message buffer of subscriber `i`.
pub record Node (M : Type 0) : Type 0 where
  pub channel : Channel (Option Callback)
  pub buffers : ℕ → List M

-- What threads other than the spinning one do to a node.
pub data Event (M : Type 0) : Type 0 where
  arrives : ℕ → Sample M → Event M
  fires : ℕ → Event M
  stops : Event M

pub record Reaction (M W : Type 0) : Type 0 where
  pub world : W
  pub threw : Bool
  pub during : List (Event M)

-- The user's functions, by the subscriber or timer that they are registered with.
pub record Program (M W : Type 0) : Type 0 where
  pub on_message : ℕ → M → W → Reaction M W
  pub on_timer : ℕ → W → Reaction M W

module _ {M : Type 0} where
  unfoldable pub stop_spin : Node M → Node M
  stop_spin n = record n { channel = close n.channel }

  unfoldable pub shutdown : Node M → Node M
  shutdown n = record n { channel = close n.channel }

  arrive : ℕ → List M × Channel (Option Callback) → Node M → Node M
  arrive i (buffer, c) n = record { channel = c; buffers = update n.buffers i buffer }

  unfoldable pub happen : Event M → Node M → Node M
  unfolding arrive stop_spin
  happen (arrives i s) n = arrive i (on_data_available i s (n.buffers i, n.channel)) n
  happen (fires t) n = record n { channel = produce (some (timer t)) n.channel }
  happen stops n = stop_spin n

  unfoldable pub happen_all : List (Event M) → Node M → Node M
  happen_all [] n = n
  happen_all (e ∷ es) n = happen_all es (happen e n)

module _ {M W : Type 0} (p : Program M W) where
  -- The end of `SubscriptionCallback::invoke`: the front is erased unless the user's function threw.
  unfoldable pub after_message : ℕ → Reaction M W → Node M → Node M × W
  after_message i r n = if r.threw then (happen_all r.during n, r.world) else (
    let n' = happen_all r.during n in
        record n' { buffers = update n'.buffers i (erase_begin (n'.buffers i)) },
    r.world,
  )

  unfoldable pub invoke_buffer : ℕ → List M → Node M → W → Node M × W
  invoke_buffer i [] n w = (n, w)
  invoke_buffer i (m ∷ rest) n w = after_message i (p.on_message i m w) n

  -- `ChannelCallback::invoke`.
  unfoldable pub invoke : Callback → Node M → W → Node M × W
  unfolding invoke_buffer after_message
  invoke (subscription i) n w = invoke_buffer i (n.buffers i) n w
  invoke (timer t) n w = let r = p.on_timer t w in (happen_all r.during n, r.world)
