-- ===== src/Subscriber.antt =====
-- lwrcl/libraries/src/lwrcl/include/subscriber.hpp: the callback object that the channel carries,
-- the listener that Fast DDS calls when data or a matched writer arrives. The message type, the
-- samples and the counts come from Fast DDS and are arguments.
pub mod Endpoint
use rcl_like_wrapper_for_fas.Base.{
  ℕ, Bool, true, false, Option, none, some, List, [], ◌∷◌, ◌++◌, if◌then◌else◌,
}
use rcl_like_wrapper_for_fas.Base.Int.{ℤ}
use rcl_like_wrapper_for_fas.Channel.{Channel, produce}

-- A `ChannelCallback *`, named by the class of the object and its owner.
pub data Callback : Type 0 where
  subscription : ℕ → Callback
  timer : ℕ → Callback

-- The fields of `SubscriberListener` that change.
pub record SubscriberListener {ℓ} (M : Type ℓ) : Type ℓ where
  pub count : ℤ
  pub message_ptr_buffer : List M

-- What `take_next_sample` gives: a return code other than RETCODE_OK, or a sample with its
-- `valid_data` flag.
pub data Sample {ℓ} (M : Type ℓ) : Type ℓ where
  not_ok : Sample M
  sample : M → Bool → Sample M

-- A write of the listener to what it shares with the spinning thread.
pub data Write {ℓ} (M : Type ℓ) : Type ℓ where
  emplace_back : M → Write M
  announce : Write M

module _ {ℓ} {M : Type ℓ} where
  unfoldable pub on_subscription_matched : ℤ → SubscriberListener M → SubscriberListener M
  on_subscription_matched current_count l = record l { count = current_count }

  unfoldable pub get_publisher_count : SubscriberListener M → ℤ
  get_publisher_count l = l.count

  -- The writes of `on_data_available`, in their order.
  unfoldable pub writes_of : Sample M → List (Write M)
  writes_of not_ok = []
  writes_of (sample m false) = []
  writes_of (sample m true) = emplace_back m ∷ announce ∷ []

  -- One of them, of subscriber `i`: `message_ptr_buffer_.emplace_back`, or `channel_.produce`.
  unfoldable pub write :
      ℕ → Write M → List M × Channel (Option Callback) → List M × Channel (Option Callback)
  write i (emplace_back m) (buffer, c) = (buffer ++ (m ∷ []), c)
  write i announce (buffer, c) = (buffer, produce (some (subscription i)) c)

  unfoldable pub write_all :
      ℕ → List (Write M) → List M × Channel (Option Callback) → List M × Channel (Option Callback)
  write_all i [] state = state
  write_all i (x ∷ xs) state = write_all i xs (write i x state)

  -- `on_data_available` of subscriber `i`, where no other thread comes between its writes.
  unfoldable pub on_data_available :
      ℕ → Sample M → List M × Channel (Option Callback) → List M × Channel (Option Callback)
  unfolding writes_of write write_all
  on_data_available i s state = write_all i (writes_of s) state

  -- `message_buffer_->erase(message_buffer_->begin())`, which `invoke` calls on a non-empty buffer.
  unfoldable pub erase_begin : List M → List M
  erase_begin [] = []
  erase_begin (m ∷ rest) = rest
