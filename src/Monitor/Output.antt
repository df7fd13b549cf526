-- ===== src/Monitor/Output.antt =====
-- The constructor of TFMonitor and the results that its `spin` prints
-- (lwrcl/libraries/src/tf2_ros/src/tf2_monitor.cpp). The keys of a map, in the order in which an
-- iterator comes to them, are arguments, as are the answers of the buffer.
pub mod Chain
use rcl_like_wrapper_for_fas.Base.{
  ℕ, Bool, true, false, Option, none, some, List, [], ◌∷◌, ◌++◌, length, if◌then◌else◌,
}
use Prim.Native.String.{String}
use text.Mathlib.Text.{◌==◌}
use rcl_like_wrapper_for_fas.Monitor.{Double, Monitor, Map, output_frame_info}

-- The constructor: it waits for the transform of a chain, or it is made, with its chain and whether it
-- has subscribed.
pub data Built : Type 0 where
  waiting : Built
  built : List String → Bool → Built

-- From `_chainAsVector`, where `none` is its exception.
chained : Option (List String) → Built
chained none = built [] false
chained (some chain) = built chain true

wait_for : List Bool → Option (List String) → Built
unfolding chained
wait_for [] chain = waiting
wait_for (answer ∷ answers) chain =
    let rest = wait_for answers chain in if answer then chained chain else rest

unfoldable pub construct : Bool → List Bool → Option (List String) → Built
unfolding wait_for
construct false answers chain = built [] true
construct true answers chain = wait_for answers chain

pub record FrameLine (D : Type 0) : Type 0 where
  pub frame : String
  pub frame_authority : String
  pub average_delay : D
  pub max_delay : D

pub record NodeLine (D : Type 0) : Type 0 where
  pub node : String
  pub frequency_out : D
  pub average_delay : D
  pub max_delay : D

-- `operator[]` of a map, whose new value is the empty text.
abbrev authority_of : Option String → String
authority_of none = ""
authority_of (some a) = a

-- The last of a vector that is not empty.
last : {D : Type 0} → D → List D → D
last x [] = x
last x (y ∷ ys) = last y ys

module _ {D : Type 0} (d : Double D) where
  -- A line of an entry of `delay_map`; `none` is no entry, which an iterator never comes to.
  unfoldable pub frame_line : Monitor D → String → Option (List D) → List (FrameLine D)
  frame_line m frame none = []
  frame_line m frame (some delays) =
      record {
        frame = frame;
        frame_authority = authority_of (m.frame_authority_map frame);
        average_delay = (output_frame_info d delays).0;
        max_delay = (output_frame_info d delays).1;
      }
      ∷ []

  -- The loop over the chain, for one frame.
  unfoldable pub in_chain : String → List String → List (FrameLine D) → List (FrameLine D)
  in_chain frame [] line = []
  in_chain frame (c ∷ chain) line =
      let rest = in_chain frame chain line in if frame == c then line ++ rest else rest

  unfoldable pub frame_lines : Monitor D → Option (List String) → List String → List (FrameLine D)
  unfolding frame_line in_chain
  frame_lines m chain [] = []
  frame_lines m none (k ∷ keys) = frame_line m k (m.delay_map k) ++ frame_lines m none keys
  frame_lines m (some chain) (k ∷ keys) =
      in_chain k chain (frame_line m k (m.delay_map k)) ++ frame_lines m (some chain) keys

  -- With the quotient of a size and of a time that is at least 0.00000001. Both maps have the same
  -- keys and no empty vector; the last clause, where an iterator or `back` is not valid, never runs.
  node_line : (ℕ → D → D) → String → Option (List D) → Option (List D) → List (NodeLine D)
  unfolding last
  node_line frequency node (some delays) (some (first ∷ times)) =
      record {
        node = node;
        frequency_out = frequency (length (first ∷ times)) (d.sub (last first times) first);
        average_delay = (output_frame_info d delays).0;
        max_delay = (output_frame_info d delays).1;
      }
      ∷ []
  node_line frequency node _ _ = []

  unfoldable pub node_lines : (ℕ → D → D) → Monitor D → List String → List (NodeLine D)
  unfolding node_line
  node_lines frequency m [] = []
  node_lines frequency m (k ∷ keys) =
      node_line frequency k (m.authority_map k) (m.authority_frequency_map k)
      ++ node_lines frequency m keys
