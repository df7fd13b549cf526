-- ===== src/Monitor/Output/Chain.antt =====
-- Which frames the results of tf2_monitor name.
use rcl_like_wrapper_for_fas.Base.{
  ◌≡◌, ◌∙◌, ap, refl, Bool, true, false, ◌||◌, Option, none, some, List, [], ◌∷◌, ◌++◌, map, filter,
  All, if◌then◌else◌, arith, append-nil,
}
use Prim.Native.String.{String}
use text.Mathlib.Text.{◌==◌}
use text.Mathlib.TextEquality.{eq_iff}
use rcl_like_wrapper_for_fas.Monitor.{Double, Monitor}
use rcl_like_wrapper_for_fas.Monitor.Output.{FrameLine, frame_line, in_chain, frame_lines}

abbrev has : List String → String → Bool
has [] k = false
has (c ∷ chain) k = k == c || has chain k

-- No frame stands in the chain twice.
abbrev IsSimple : List String → Type 0
IsSimple [] = Unit
IsSimple (c ∷ chain) = (has chain c ≡ false) × IsSimple chain

abbrev OptIsSimple : Option (List String) → Type 0
OptIsSimple none = Unit
OptIsSimple (some chain) = IsSimple chain

abbrev shown : Option (List String) → String → Bool
shown none k = true
shown (some chain) k = has chain k

module _ {D : Type 0} (d : Double D) (m : Monitor D) where
  -- The keys of the map.
  abbrev HasDelays : String → Type 0
  HasDelays k = (delays : List D) × (m.delay_map k ≡ some delays)

  abbrev named : List (FrameLine D) → List String
  named = map (λ l. l.frame)

  line-named : (k : String) → HasDelays k → named (frame_line d m k (m.delay_map k)) ≡ k ∷ []
  unfolding frame_line
  line-named k (delays, e) = rw e refl

  absent-named :
      (k : String) (chain : List String) (line : List (FrameLine D))
      → has chain k ≡ false
      → in_chain d k chain line ≡ []
  unfolding in_chain
  absent-named k [] line h = refl
  absent-named k (c ∷ chain) line h = ground (arith, absent-named k chain line)

  chain-named :
      (k : String) (chain : List String) (line : List (FrameLine D))
      → IsSimple chain
      → in_chain d k chain line ≡ (if has chain k then line else [])
  unfolding in_chain
  chain-named k [] line h = refl
  chain-named k (c ∷ chain) line (fresh, h) =
      ground
        (arith, eq_iff k c, absent-named k chain line, chain-named k chain line h, append-nil line)

  named-append : (xs ys : List (FrameLine D)) → named (xs ++ ys) ≡ named xs ++ named ys
  named-append [] ys = refl
  named-append (x ∷ xs) ys = ap (λ ks. x.frame ∷ ks) (named-append xs ys)

  named-choice :
      (b : Bool) (k : String) (line rest : List (FrameLine D)) (ks : List String)
      → named line ≡ k ∷ []
      → named rest ≡ ks
      → named ((if b then line else []) ++ rest) ≡ (if b then k ∷ ks else ks)
  named-choice true k line rest ks e h = named-append line rest ∙ (rw e (rw h refl))
  named-choice false k line rest ks e h = h

  -- With a chain in which no frame stands twice, the results name the frames of `delay_map` that stand
  -- in it; without, they name each frame of `delay_map`; both once and in the map's order.
  pub frame_lines-named :
      (chain : Option (List String)) (keys : List String)
      → OptIsSimple chain
      → All HasDelays keys
      → named (frame_lines d m chain keys) ≡ filter (shown chain) keys
  unfolding frame_lines
  frame_lines-named chain [] s h = refl
  frame_lines-named none (k ∷ keys) s (hk, h) =
      named-choice true k (frame_line d m k (m.delay_map k)) (frame_lines d m none keys)
        (filter (shown none) keys) (line-named k hk) (frame_lines-named none keys s h)
  frame_lines-named (some chain) (k ∷ keys) s (hk, h) =
      let rest = frame_lines d m (some chain) keys in
      let line = frame_line d m k (m.delay_map k) in
      ap (λ ls. named (ls ++ rest)) (chain-named k chain line s)
      ∙ named-choice (has chain k) k line rest (filter (shown (some chain)) keys) (line-named k hk)
          (frame_lines-named (some chain) keys s h)
