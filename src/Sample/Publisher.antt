-- ===== src/Sample/Publisher.antt =====
-- The running part of the sample publishers (fastdds_ws/apps/HeaderTest/HeaderPublisher.cpp and
-- its copies): the listener, `publish` and `runThread`. What Fast DDS reports to the listener and
-- the end of the run come in rounds, one before each test of a loop. The number in the message is
-- an int32_t, whose overflow is undefined behaviour, and the loop's counter a uint32_t.
pub mod Sends
use rcl_like_wrapper_for_fas.Base.{
  ℕ, zero, suc, ◌+◌, ◌-◌, ◌%◌, ◌^◌, Bool, true, false, not, ◌||◌, Option, none, some, List, [], ◌∷◌,
  ◌++◌, ltb, ◌==◌, if◌then◌else◌,
}
use rcl_like_wrapper_for_fas.Base.Int.{ℤ, pos, negsuc, eqb_ℤ, ltb_ℤ}

pub record Listener : Type 0 where
  pub matched_ : ℤ
  pub first_connected_ : Bool

-- A `PublicationMatchedStatus`.
pub record Match : Type 0 where
  pub current_count_change : ℤ
  pub total_count : ℤ

unfoldable pub on_publication_matched : Match → Listener → Listener
on_publication_matched info l =
    if eqb_ℤ info.current_count_change (pos 1)
    then record { matched_ = info.total_count; first_connected_ = true }
    else if eqb_ℤ info.current_count_change (negsuc 0)
    then record l { matched_ = info.total_count }
    else l

-- `sec` is the number of the last message, `written` what `write` was called with.
pub record Publisher : Type 0 where
  pub listener_ : Listener
  pub sec : ℕ
  pub written : List ℕ

abbrev pub start : Publisher
start = record {
  listener_ = record { matched_ = pos 0; first_connected_ = false };
  sec = 0;
  written = [];
}

-- `publish` with its result; `none` is the overflow of `sec`.
unfoldable pub publish : Bool → Publisher → Option (Publisher × Bool)
publish wait_for_listener s =
    let l = s.listener_ in
    if l.first_connected_ || not wait_for_listener || ltb_ℤ (pos 0) l.matched_
    then if ltb (suc s.sec) (2 ^ 31)
      then some (record s { sec = suc s.sec; written = s.written ++ (suc s.sec ∷ []) }, true)
      else none
    else some (s, false)

-- What happens between two tests of a loop.
pub record Round : Type 0 where
  pub matches : List Match
  pub stops : Bool

unfoldable pub notice_all : List Match → Listener → Listener
notice_all [] l = l
notice_all (m ∷ ms) l = notice_all ms (on_publication_matched m l)

unfoldable pub notice : List Match → Publisher → Publisher
notice ms s = record s { listener_ = notice_all ms s.listener_ }

-- `waiting` is a loop that goes on when the given rounds are over.
pub data Run : Type 0 where
  returned : Publisher → Run
  waiting : Publisher → Run
  overflow : Run

-- `--i` where nothing was sent, and the `++i` of the loop.
unfoldable pub next_index : Bool → ℕ → ℕ
next_index true i = (i + 1) % 2 ^ 32
next_index false i = ((i + (2 ^ 32 - 1)) % 2 ^ 32 + 1) % 2 ^ 32

-- The loop for a number of samples.
unfoldable pub for_loop : ℕ → ℕ → List Round → Publisher → Run
for_loop samples i [] s = if ltb i samples then waiting s else returned s
for_loop samples i (r ∷ rs) s = elim (ltb i samples) [
  | false ↦ returned s
  | true ↦ elim (publish true (notice r.matches s)) [
    | none ↦ overflow
    | some (t, sent) ↦ for_loop samples (next_index sent i) rs t
  ]
]

-- The loop until `stop_`.
unfoldable pub while_loop : List Round → Publisher → Run
while_loop [] s = waiting s
while_loop (r ∷ rs) s = elim (r.stops) [
  | true ↦ returned s
  | false ↦ elim (publish false (notice r.matches s)) [
    | none ↦ overflow
    | some (t, sent) ↦ while_loop rs t
  ]
]

unfoldable pub run_thread : ℕ → List Round → Publisher → Run
run_thread samples rs s = if samples == 0 then while_loop rs s else for_loop samples 0 rs s
