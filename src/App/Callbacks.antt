-- ===== src/App/Callbacks.antt =====
-- The functions that the timers of lwrcl/apps call: callbackPublish of ROSTypeImagePubSub and of
-- CustomROSTypeDataPublisher, and myTimerFunction of lwrcl_example/src/example_timer.cpp. The
-- counters are int, whose overflow is undefined behaviour.
use rcl_like_wrapper_for_fas.Base.{
  ℕ, suc, ◌+◌, ◌%◌, ◌^◌, Bool, true, List, [], ◌∷◌, ◌++◌, ltb, if◌then◌else◌,
}
use Prim.Native.String as string
use Prim.Native.String.{String}

-- `written` are the seconds of the stamps.
pub record ImagePubSub : Type 0 where
  pub counter_ : ℕ
  pub written : List ℕ
  pub overflow : Bool

unfoldable pub callback_publish : ℕ → ImagePubSub → ImagePubSub
callback_publish test s =
    if ltb (test + s.counter_) (2 ^ 31)
    then record s { counter_ = suc s.counter_; written = s.written ++ ((test + s.counter_) ∷ []) }
    else record s { overflow = true }

-- The message of a data publisher. It is made anew by each call, with the index 0.
pub record CustomMessage : Type 0 where
  pub index : ℕ
  pub message : String

unfoldable pub data_callback_publish : (ℕ → String) → List CustomMessage → List CustomMessage
data_callback_publish to_string published =
    let index = 0 + 1 in
    published
    ++ (record { index = index; message = string.◌++◌ "BigData" (to_string (index % 10)) } ∷ [])

-- The fields of the example's message that change.
pub record Stamp : Type 0 where
  pub sec : ℕ
  pub nanosec : ℕ

pub record Example : Type 0 where
  pub data_value : ℕ
  pub stamps : List Stamp
  pub overflowed : Bool

-- `data_value++` after the call of `publish`; a null publisher is refused.
unfoldable pub my_timer_function : Bool → Example → Example
my_timer_function has_publisher s =
    if has_publisher
    then record s {
      stamps = s.stamps ++ (record { sec = s.data_value; nanosec = s.data_value } ∷ []);
      data_value = suc s.data_value;
      overflowed = if ltb (suc s.data_value) (2 ^ 31) then s.overflowed else true;
    }
    else s
