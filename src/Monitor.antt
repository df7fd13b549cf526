-- ===== src/Monitor.antt =====
-- TFMonitor and `main` of lwrcl/libraries/src/tf2_ros/src/tf2_monitor.cpp: the logs that the
-- callback keeps, what is printed of them, and the rounds of `spin`. The doubles and what the code
-- does with them are an argument. A map is a function from its keys.
pub mod Window
pub mod Logs
pub mod Rounds
pub mod Output
pub mod Tests
use rcl_like_wrapper_for_fas.Base.{
  ℕ, zero, suc, ◌+◌, Bool, true, false, Option, none, some, List, [], ◌∷◌, ◌++◌, length, ltb,
  if◌then◌else◌,
}
use Prim.Native.String.{String}
use text.Mathlib.Text.{◌==◌}

pub record Double (D : Type 0) : Type 0 where
  pub nought : D
  pub add : D → D → D
  pub sub : D → D → D
  pub mul : D → D → D
  pub over : D → ℕ → D
  pub max : D → D → D

-- A transform of a message, with what the clock shows when the callback comes to it.
pub record Seen (D : Type 0) : Type 0 where
  pub child_frame_id : String
  pub stamp : D
  pub now : D

abbrev pub Map : Type 0 → Type 0
Map A = String → Option A

abbrev pub put : {A : Type 0} → Map A → String → A → Map A
put m key a k = if key == k then some a else m k

pub record Monitor (D : Type 0) : Type 0 where
  pub frame_authority_map : Map String
  pub delay_map : Map (List D)
  pub authority_map : Map (List D)
  pub authority_frequency_map : Map (List D)

pub tail : {D : Type 0} → List D → List D
tail [] = []
tail (x ∷ xs) = xs

-- `push_back`, and the erasure of the front.
pub logged : {D : Type 0} → D → Option (List D) → List D
unfolding tail
logged x none = x ∷ []
logged x (some xs) =
    let pushed = xs ++ (x ∷ []) in if ltb 1000 (length pushed) then tail pushed else pushed

unfoldable pub log : {D : Type 0} → String → D → Map (List D) → Map (List D)
unfolding logged
log key x m = put m key (logged x (m key))

abbrev pub authority : String
authority = "<no authority available>"

pub record Spin (D : Type 0) : Type 0 where
  pub counter : ℕ
  pub avg_diff : D
  pub max_diff : D

module _ {D : Type 0} (d : Double D) where
  abbrev pub offset : Seen D → D
  offset t = d.sub t.now t.stamp

  -- The loop over the transforms of a message.
  unfoldable pub see_all : List (Seen D) → Monitor D → Monitor D
  see_all [] m = m
  see_all (t ∷ ts) m = see_all ts (record m {
    frame_authority_map = put m.frame_authority_map t.child_frame_id authority;
    delay_map = log t.child_frame_id (offset t) m.delay_map;
  })

  sum_offsets : List (Seen D) → D → D
  sum_offsets [] average = average
  sum_offsets (t ∷ ts) average = sum_offsets ts (d.add average (offset t))

  abbrev pub at_least_one : ℕ → ℕ
  at_least_one n = if ltb 1 n then n else 1

  unfoldable pub average_offset : List (Seen D) → D
  unfolding sum_offsets
  average_offset ts = d.over (sum_offsets ts d.nought) (at_least_one (length ts))

  -- The callback, with what the clock shows at its end.
  unfoldable pub callback : List (Seen D) → D → Monitor D → Monitor D
  callback ts now m =
      let m' = see_all ts m in
      record m' {
        authority_map = log authority (average_offset ts) m'.authority_map;
        authority_frequency_map = log authority now m'.authority_frequency_map;
      }

  total : List D → D → D
  total [] sum = sum
  total (x ∷ xs) sum = total xs (d.add sum x)

  largest : List D → D → D
  largest [] most = most
  largest (x ∷ xs) most = largest xs (d.max most x)

  -- The average and the largest delay that outputFrameInfo prints.
  unfoldable pub output_frame_info : List D → D × D
  unfolding total largest
  output_frame_info delays =
      (d.over (total delays d.nought) (length delays), largest delays d.nought)

  pub net_delay : D → D → Option D → Spin D → Spin D
  net_delay lowpass rest none s = s
  net_delay lowpass rest (some diff) s = record s {
    avg_diff = d.add (d.mul lowpass diff) (d.mul rest s.avg_diff);
    max_diff = d.max s.max_diff diff;
  }

  -- A round of `spin`, with the delay of a specific chain, and whether the results are printed. The
  -- constants are 0.01 and 1 - 0.01.
  unfoldable pub round : D → D → Option D → Spin D → Spin D × Bool
  unfolding net_delay
  round lowpass rest diff s =
      let s' = net_delay lowpass rest diff s in
      if ltb 20 (s.counter + 1)
      then (record s' { counter = 0 }, true)
      else (record s' { counter = s.counter + 1 }, false)

-- The frames that `main` is called with, or its usage text and exit code -1: argv without
-- the program's name.
pub data Started : Type 0 where
  all_frames : Started
  chain : String → String → Started
  usage : Started

unfoldable pub main : List String → Started
main [] = all_frames
main (a ∷ []) = usage
main (framea ∷ frameb ∷ []) = chain framea frameb
main (a ∷ b ∷ c ∷ rest) = usage
