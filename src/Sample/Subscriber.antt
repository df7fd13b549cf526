-- ===== src/Sample/Subscriber.antt =====
-- The running part of the sample subscribers (fastdds_ws/apps/HeaderTest/HeaderSubscriber.cpp and
-- its copies): the listener and `run` for a number of samples. What Fast DDS reports comes in
-- rounds, one before each test of the loop. `samples_` is a uint32_t.
use rcl_like_wrapper_for_fas.Base.{
  ℕ, ◌+◌, ◌%◌, ◌^◌, ◌<◌, ◌≡◌, Bool, true, false, ◌&&◌, Option, none, some, List, [], ◌∷◌, ltb,
  if◌then◌else◌, arith,
}
use rcl_like_wrapper_for_fas.Base.Int.{ℤ, pos, negsuc, eqb_ℤ}
use rcl_like_wrapper_for_fas.Sample.Publisher.{Match}

pub record Listener : Type 0 where
  pub matched_ : ℤ
  pub samples_ : ℕ

unfoldable pub on_subscription_matched : Match → Listener → Listener
on_subscription_matched info l =
    if eqb_ℤ info.current_count_change (pos 1)
    then record l { matched_ = info.total_count }
    else if eqb_ℤ info.current_count_change (negsuc 0)
    then record l { matched_ = info.total_count }
    else l

-- What `take_next_sample` gives: whether it is RETCODE_OK, whether the instance is alive, and the
-- message.
pub record Take (M : Type 0) : Type 0 where
  pub is_ok : Bool
  pub is_alive : Bool
  pub message : M

pub data Report (M : Type 0) : Type 0 where
  matched : Match → Report M
  data_available : Take M → Report M

pub data Run : Type 0 where
  returned waiting : Listener → Run
  -- a call of exit in the listener
  exits : Run

-- With whether the callback comes back from what it does with a message; otherwise it ends the
-- program by exit, which is `none`.
module _ {M : Type 0} (shows : M → Bool) where
  unfoldable pub on_data_available : Take M → Listener → Option Listener
  on_data_available info l =
      if info.is_ok && info.is_alive
      then (if shows info.message
          then some (record l { samples_ = (l.samples_ + 1) % 2 ^ 32 })
          else none)
      else some l

  unfoldable pub notice : List (Report M) → Listener → Option Listener
  notice [] l = some l
  notice (matched m ∷ rs) l = notice rs (on_subscription_matched m l)
  notice (data_available i ∷ rs) l = elim (on_data_available i l) [
    | none ↦ none
    | some l' ↦ notice rs l'
  ]

  -- `run(number)`: the loop sleeps while `number > samples_`.
  unfoldable pub run : ℕ → List (List (Report M)) → Listener → Run
  run number [] l = if ltb l.samples_ number then waiting l else returned l
  run number (r ∷ rs) l = elim (ltb l.samples_ number) [
    | false ↦ returned l
    | true ↦ elim (notice r l) [ none ↦ exits | some l' ↦ run number rs l' ]
  ]

  -- The samples that are taken from instances that are alive.
  abbrev pub alive : List (Report M) → ℕ
  alive [] = 0
  alive (matched m ∷ rs) = alive rs
  alive (data_available i ∷ rs) = (if i.is_ok && i.is_alive then 1 else 0) + alive rs

  notice-samples :
      (rs : List (Report M)) (l l' : Listener)
      → notice rs l ≡ some l'
      → l.samples_ + alive rs < 2 ^ 32
      → l'.samples_ ≡ l.samples_ + alive rs
  unfolding notice on_subscription_matched on_data_available
  notice-samples [] l l' e h = ground (arith, e)
  notice-samples (matched m ∷ rs) l l' e h =
      ground (arith, notice-samples rs (on_subscription_matched m l) l' e)
  notice-samples (data_available i ∷ rs) l l' e h = ground (
    arith,
    e,
    notice-samples rs l l',
    notice-samples rs (record l { samples_ = (l.samples_ + 1) % 2 ^ 32 }) l',
  )
