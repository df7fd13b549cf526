-- ===== src/Sample/Main/Proper.antt =====
-- Which arguments make the samples run.
use rcl_like_wrapper_for_fas.Base.{
  ◌≤◌, ◌≡◌, ◌↔◌, refl, ap, subst, ◌∙◌, false, Option, none, some, List, [], ◌∷◌, length, arith, ◌⊎◌,
}
use Prim.Native.String.{String}
use text.Mathlib.TextEquality.{eq_iff}
use rcl_like_wrapper_for_fas.Sample.Main.{
  Library, Parsed, Kind, publisher, subscriber, Start, usage, publishes, subscribes, Checked, threw,
  chosen, kind_of, first_argument, check, new_syntax, old_syntax, run_kind, after_check, main,
}

-- The name of the kind is the first argument that is no option.
abbrev pub name_of : Kind → String
name_of publisher = "publisher"
name_of subscriber = "subscriber"

abbrev pub kind_started : Start → Option Kind
kind_started (usage status) = none
kind_started (publishes count sleep environment) = some publisher
kind_started (subscribes environment) = some subscriber

-- Arguments that the programs take: the parser has found no error, no option for help and none that
-- is unknown, the kind comes
-- first, before every option, and numbers without a flag go with a publisher and no options.
pub record IsProper (p : Parsed) (kind : Kind) : Type 0 where
  pub no_error : p.error ≡ false
  pub no_help : p.help ≡ false
  pub no_unknown : p.unknown ≡ false
  pub numbers : List String
  pub first_is_kind : p.non_options ≡ name_of kind ∷ numbers
  pub few : length numbers ≤ 2
  pub options_follow : (p.options_count ≡ 0) ⊎ (p.option_first ≡ false)
  pub no_mixture : (numbers ≡ []) ⊎ ((kind ≡ publisher) × (p.options_count ≡ 0))

kind_of-chosen : (name : String) (kind : Kind) → kind_of name ≡ chosen kind → name ≡ name_of kind
unfolding kind_of
kind_of-chosen name publisher h = ground (arith, eq_iff name "publisher", eq_iff name "subscriber")
kind_of-chosen name subscriber h = ground (arith, eq_iff name "publisher", eq_iff name "subscriber")

first_argument-chosen :
    (p : Parsed) (args : List String) (kind : Kind)
    → first_argument p args ≡ chosen kind
    → (numbers : List String) × (args ≡ name_of kind ∷ numbers)
      × (length numbers ≤ 2)
      × ((p.options_count ≡ 0) ⊎ (p.option_first ≡ false))
unfolding first_argument
first_argument-chosen p [] kind h = cc
first_argument-chosen p (name ∷ more) kind h =
    (more, ground (arith, kind_of-chosen name kind), ground (arith), ground (arith))

check-chosen :
    (p : Parsed) (kind : Kind)
    → check p ≡ chosen kind
    → (p.error ≡ false)
      × (p.help ≡ false)
      × (p.unknown ≡ false)
      × (first_argument p p.non_options ≡ chosen kind)
unfolding check
check-chosen p kind h = ground (arith)

run_kind-started :
    (lib : Library) (p : Parsed) (kind k : Kind) (name : String) (numbers : List String)
    → kind_started (run_kind lib p k (name ∷ numbers)) ≡ some kind
    → (k ≡ kind) × ((numbers ≡ []) ⊎ ((kind ≡ publisher) × (p.options_count ≡ 0)))
unfolding run_kind new_syntax old_syntax
run_kind-started lib p kind publisher name [] h = ground (arith)
run_kind-started lib p kind subscriber name [] h = ground (arith)
run_kind-started lib p kind publisher name (c ∷ []) h = ground (arith)
run_kind-started lib p kind publisher name (c ∷ d ∷ more) h = ground (arith)
run_kind-started lib p kind subscriber name (c ∷ more) h = ground (arith)

started_check :
    (lib : Library) (p : Parsed) (kind : Kind) (c : Checked)
    → kind_started (after_check lib p c) ≡ some kind
    → (k : Kind) × (c ≡ chosen k) × (kind_started (run_kind lib p k p.non_options) ≡ some kind)
unfolding after_check
started_check lib p kind (threw status) h = cc
started_check lib p kind (chosen k) h = (k, refl, h)

started-IsProper :
    (lib : Library) (p : Parsed) (kind : Kind)
    → kind_started (main lib p) ≡ some kind
    → IsProper p kind
unfolding main
started-IsProper lib p kind h =
    let (k, c, r) = started_check lib p kind (check p) h in
    let (a, b, d, f) = check-chosen p k c in
    let (numbers, e, few, follow) = first_argument-chosen p p.non_options k f in
    let (q, m) =
      run_kind-started lib p kind k (name_of k) numbers
        (subst (λ l. kind_started (run_kind lib p k l) ≡ some kind) e r) in
    record {
      no_error = a;
      no_help = b;
      no_unknown = d;
      numbers = numbers;
      first_is_kind = e ∙ ap (λ x. name_of x ∷ numbers) q;
      few = few;
      options_follow = follow;
      no_mixture = m;
    }

proper_check : (p : Parsed) (kind : Kind) → IsProper p kind → check p ≡ chosen kind
unfolding check first_argument kind_of
proper_check p publisher h =
    ground (arith, h.no_error, h.no_help, h.no_unknown, h.first_is_kind, h.few, h.options_follow)
proper_check p subscriber h =
    ground (arith, h.no_error, h.no_help, h.no_unknown, h.first_is_kind, h.few, h.options_follow)

proper_run :
    (lib : Library) (p : Parsed) (kind : Kind) (name : String) (numbers : List String)
    → (numbers ≡ []) ⊎ ((kind ≡ publisher) × (p.options_count ≡ 0))
    → kind_started (run_kind lib p kind (name ∷ numbers)) ≡ some kind
unfolding run_kind new_syntax old_syntax
proper_run lib p publisher name [] h = refl
proper_run lib p subscriber name [] h = refl
proper_run lib p publisher name (c ∷ []) h = ground (arith)
proper_run lib p publisher name (c ∷ d ∷ more) h = ground (arith)
proper_run lib p subscriber name (c ∷ more) h = ground (arith)

IsProper-started :
    (lib : Library) (p : Parsed) (kind : Kind)
    → IsProper p kind
    → kind_started (main lib p) ≡ some kind
unfolding main after_check
IsProper-started lib p kind h =
    ap (λ c. kind_started (after_check lib p c)) (proper_check p kind h)
    ∙ ap (λ l. kind_started (run_kind lib p kind l)) h.first_is_kind
    ∙ proper_run lib p kind (name_of kind) h.numbers h.no_mixture

-- `main` runs a publisher or a subscriber exactly for the proper arguments of that kind, and prints
-- the usage for all others.
pub main-IsProper :
    (lib : Library) (p : Parsed) (kind : Kind)
    → (kind_started (main lib p) ≡ some kind) ↔ IsProper p kind
main-IsProper lib p kind = (started-IsProper lib p kind, IsProper-started lib p kind)
