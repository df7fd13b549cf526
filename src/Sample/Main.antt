-- ===== src/Sample/Main.antt =====
-- `main` of the samples (fastdds_ws/apps/HeaderTest/Header_main.cpp and its copies), and the check
-- `Arg::NumericRange` of the options that take a number. The option parser is a library: what it
-- has found is an argument, as are `strtol` and `atoi`.
pub mod Proper
use rcl_like_wrapper_for_fas.Base.{
  ℕ, zero, suc, ◌+◌, ◌-◌, ◌^◌, ◌≤◌, ◌<◌, ◌≡◌, ◌≢◌, refl, Bool, true, false, not, ◌&&◌, ◌||◌, Option,
  none, some, List, [], ◌∷◌, length, ltb, ◌==◌, if◌then◌else◌, arith, inl, inr, ◌⊎◌,
}
use rcl_like_wrapper_for_fas.Base.Int.{ℤ, pos, negsuc, as_u32, leb_ℤ}
use Prim.Native.String.{String}
use text.Mathlib.Text as text_
use text.Mathlib.TextEquality.{eq_iff}

-- What `strtol` reads: the number, and whether it read something and nothing is left.
pub record Number : Type 0 where
  pub value : ℤ
  pub is_whole : Bool

pub record Library : Type 0 where
  pub strtol : String → Number
  pub atoi : String → ℤ

-- `Arg::NumericRange<>`, whose range is that of the nonnegative numbers of type long.
unfoldable pub numeric_range : Library → Option String → Bool
numeric_range lib none = false
numeric_range lib (some text) =
    let n = lib.strtol text in
    n.is_whole && leb_ℤ (pos 0) n.value && leb_ℤ n.value (pos (2 ^ 63 - 1))

-- What the parser has found.
pub record Parsed : Type 0 where
  pub error : Bool
  pub help : Bool
  pub unknown : Bool
  pub non_options : List String
  pub options_count : ℕ
  -- some option stands before the first non-option
  pub option_first : Bool
  pub samples : Option String
  pub interval : Option String
  pub environment : Bool

pub data Kind : Type 0 where
  publisher subscriber : Kind

-- How `main` goes on: it prints the usage and ends with a status, or runs one of the two.
pub data Start : Type 0 where
  usage : ℕ → Start
  publishes : ℕ → ℕ → Bool → Start
  subscribes : Bool → Start

-- How the `try` block ends: with a thrown status, or with the kind that was chosen.
pub data Checked : Type 0 where
  threw : ℕ → Checked
  chosen : Kind → Checked

kind_of : String → Checked
kind_of name =
    if text_.◌==◌ name "publisher"
    then chosen publisher
    else if text_.◌==◌ name "subscriber"
    then chosen subscriber
    else threw 2

first_argument : Parsed → List String → Checked
unfolding kind_of
first_argument p [] = threw 2
first_argument p (name ∷ more) =
    if ltb 3 (length (name ∷ more))
    then threw 2
    else if not (p.options_count == 0) && p.option_first
    then threw 2
    else kind_of name

-- The `try` block.
check : Parsed → Checked
unfolding first_argument
check p =
    if p.error
    then threw 1
    else if p.help || p.unknown
    then threw 1
    else first_argument p p.non_options

module _ (lib : Library) where
  number_or : Option String → ℕ → ℕ
  number_or none default = default
  number_or (some text) default = let n = lib.strtol text in as_u32 n.value

  new_syntax : Parsed → Kind → Start
  unfolding number_or
  new_syntax p publisher =
      publishes (number_or p.samples 10) (number_or p.interval 100) p.environment
  new_syntax p subscriber = subscribes p.environment

  old_syntax : Parsed → Kind → List String → Start
  old_syntax p subscriber numbers = usage 1
  old_syntax p publisher [] = usage 1
  old_syntax p publisher (count ∷ []) =
      if p.options_count == 0 then publishes (as_u32 (lib.atoi count)) 100 false else usage 1
  old_syntax p publisher (count ∷ sleep ∷ more) =
      if p.options_count == 0
      then publishes (as_u32 (lib.atoi count)) (as_u32 (lib.atoi sleep)) false
      else usage 1

  run_kind : Parsed → Kind → List String → Start
  unfolding new_syntax old_syntax
  run_kind p kind (name ∷ count ∷ more) = old_syntax p kind (count ∷ more)
  run_kind p kind _ = new_syntax p kind

  after_check : Parsed → Checked → Start
  unfolding run_kind
  after_check p (threw status) = usage status
  after_check p (chosen kind) = run_kind p kind p.non_options

  unfoldable pub main : Parsed → Start
  unfolding check after_check
  main p = after_check p (check p)
