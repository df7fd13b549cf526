-- ===== src/Channel.antt =====
-- lwrcl/libraries/src/lwrcl/include/channel.hpp: the queue between the threads that produce
-- callbacks and the thread that spins. Every method runs under the channel's mutex, so that each
-- is one atomic step on the two fields.
pub mod Trace
pub mod Wait
pub mod Tests
use rcl_like_wrapper_for_fas.Base.{
  Bool, true, false, Option, none, some, List, [], ◌∷◌, ◌++◌, if◌then◌else◌,
}

-- The head of the list is `queue_.front()`.
pub record Channel {ℓ} (A : Type ℓ) : Type ℓ where
  pub queue : List A
  pub closed : Bool

-- What a call of `consume` does: it waits on the condition variable, returns false, or returns
-- true with a value.
pub data Consumed {ℓ} (A : Type ℓ) : Type ℓ where
  waits : Consumed A
  finished : Consumed A
  took : A → Channel A → Consumed A

module _ {ℓ} {A : Type ℓ} where
  abbrev pub empty : Channel A
  empty = record { queue = []; closed = false }

  unfoldable pub produce : A → Channel A → Channel A
  produce x c = if c.closed then c else record c { queue = c.queue ++ (x ∷ []) }

  consume_queue : List A → Bool → Consumed A
  consume_queue [] false = waits
  consume_queue [] true = finished
  consume_queue (x ∷ xs) closed = took x (record { queue = xs; closed = closed })

  unfoldable pub consume : Channel A → Consumed A
  unfolding consume_queue
  consume c = consume_queue c.queue c.closed

  consume_nowait_queue : List A → Bool → Option (A × Channel A)
  consume_nowait_queue [] closed = none
  consume_nowait_queue (x ∷ xs) closed = some (x, record { queue = xs; closed = closed })

  unfoldable pub consume_nowait : Channel A → Option (A × Channel A)
  unfolding consume_nowait_queue
  consume_nowait c = consume_nowait_queue c.queue c.closed

  unfoldable pub close : Channel A → Channel A
  close c = record c { closed = true }

  unfoldable pub is_closed : Channel A → Bool
  is_closed c = c.closed
