-- ===== src/Monitor/Tests.antt =====
-- The monitor on two frames, with whole milliseconds for doubles.
use rcl_like_wrapper_for_fas.Base.{
  ℕ, true, false, map, ◌+◌, ◌*◌, ◌-◌, ◌/◌, ◌≡◌, refl, none, some, List, [], ◌∷◌, ◌++◌, ltb,
  if◌then◌else◌,
}
use Prim.Native.String.{String}
use text.Mathlib.Text.{◌==◌}
use rcl_like_wrapper_for_fas.Monitor.{
  Double, Seen, Monitor, Spin, log, see_all, callback, output_frame_info, round, main, usage,
}
use rcl_like_wrapper_for_fas.Monitor.Output.{waiting, built, construct, frame_lines, node_lines}
use rcl_like_wrapper_for_fas.Monitor.Output.Chain.{frame_lines-named}
use rcl_like_wrapper_for_fas.Monitor.Window.{window}
use rcl_like_wrapper_for_fas.Monitor.Logs.{Message, callbacks, all_offsets, callbacks-window}
use rcl_like_wrapper_for_fas.Monitor.Rounds.{rounds}

abbrev millis : Double ℕ
millis = record {
  nought = 0;
  add = λ a b. a + b;
  sub = λ a b. a - b;
  mul = λ a b. a * b;
  over = λ a n. a / n;
  max = λ a b. if ltb a b then b else a;
}

abbrev seen : String → ℕ → ℕ → Seen ℕ
seen frame stamp now = record { child_frame_id = frame; stamp = stamp; now = now }

abbrev messages : List (Message ℕ)
messages =
    record { transforms = seen "arm" 10 14 ∷ seen "leg" 11 18 ∷ []; now = 20 }
    ∷ record { transforms = seen "arm" 30 36 ∷ []; now = 40 }
    ∷ []

abbrev fresh : Monitor ℕ
fresh = record {
  frame_authority_map = λ k. none;
  delay_map = λ k. none;
  authority_map = λ k. none;
  authority_frequency_map = λ k. none;
}

arm_delays : (callbacks millis messages fresh).delay_map "arm" ≡ some (4 ∷ 6 ∷ [])
unfolding callbacks callback see_all log
arm_delays = refl

arm_info : output_frame_info millis (4 ∷ 6 ∷ []) ≡ (5, 6)
unfolding output_frame_info
arm_info = refl

callbacks-window_example :
    (callbacks millis messages fresh).delay_map "arm"
    ≡ window ([] ++ all_offsets millis "arm" messages)
callbacks-window_example = callbacks-window millis "arm" messages fresh [] refl

abbrev late : Spin ℕ
late = record { counter = 20; avg_diff = 0; max_diff = 3 }

-- The first of these rounds prints.
printed_once : (rounds millis 1 0 (none ∷ some 5 ∷ []) late).1 ≡ 1
unfolding rounds round
printed_once = refl

one_frame : main ("map" ∷ []) ≡ usage
unfolding main
one_frame = refl

abbrev gathered : Monitor ℕ
gathered = record {
  frame_authority_map = λ k. none;
  delay_map = λ k. if k == "arm" then some (4 ∷ 6 ∷ []) else some (7 ∷ []);
  authority_map = λ k. some (5 ∷ 6 ∷ []);
  authority_frequency_map = λ k. some (20 ∷ 40 ∷ []);
}

frame_lines-named_example :
    map
      (λ l. l.frame)
      (frame_lines millis gathered (some ("map" ∷ "arm" ∷ [])) ("arm" ∷ "leg" ∷ []))
    ≡ "arm" ∷ []
frame_lines-named_example =
    frame_lines-named millis gathered (some ("map" ∷ "arm" ∷ [])) ("arm" ∷ "leg" ∷ [])
      (refl, (refl, tt)) ((4 ∷ 6 ∷ [], refl), ((7 ∷ [], refl), tt))

one_node :
    map (λ l. l.frequency_out) (node_lines millis (λ n time. 1000 * n / time) gathered ("a" ∷ []))
    ≡ 100 ∷ []
unfolding node_lines
one_node = refl

still_waiting : construct true (false ∷ false ∷ []) (some ("map" ∷ [])) ≡ waiting
unfolding construct
still_waiting = refl

-- The exception leaves a monitor that has not subscribed.
not_subscribed : construct true (false ∷ true ∷ []) none ≡ built [] false
unfolding construct
not_subscribed = refl
