-- ===== src/Transforms/Polling.antt =====
-- The polling of both Buffer::canTransform with a timeout, in
-- lwrcl/libraries/src/tf2_ros/src/buffer.cpp. The readings of the clock and the answers of tf2 are
-- arguments, one record for each test of the loop.
use rcl_like_wrapper_for_fas.Base.{
  ℕ, suc, ◌+◌, ◌*◌, ◌≡◌, ◌≢◌, refl, Bool, true, false, not, Option, none, some, List, [], ◌∷◌,
  if◌then◌else◌, length, arith,
}
use rcl_like_wrapper_for_fas.Base.Int.{pos, ◌+ℤ◌, ◌≤ℤ◌, +ℤ_parts}
use rcl_like_wrapper_for_fas.Base.Int64.{checked}
use rcl_like_wrapper_for_fas.Duration
use rcl_like_wrapper_for_fas.Duration.{Duration}
use rcl_like_wrapper_for_fas.Time
use rcl_like_wrapper_for_fas.Time.{Time}

-- One test of the loop: the two readings of the clock, the answer of canTransform without a
-- timeout, and its answer after the loop if the loop ends here.
pub record Poll : Type 0 where
  pub first : Time
  pub is_there : Bool
  pub second : Time
  pub answer : Bool

-- `overflow` is a sum of a time and a duration outside int64_t.
pub data Polled : Type 0 where
  returned : Bool → Polled
  overflow polling : Polled

after_wait : Time → Poll → Option Time → Polled → Polled
after_wait start p none rest = overflow
after_wait start p (some later) rest = if Time.ge later start then rest else returned p.answer

test : Time → Option Time → Poll → Polled → Polled
unfolding after_wait
test start none p rest = overflow
test start (some deadline) p rest =
    if not (Time.lt p.first deadline)
    then returned p.answer
    else if p.is_there
    then returned p.answer
    else after_wait start p (Time.add p.second (Duration.of_nanoseconds (pos 3000000000))) rest

loop : Time → Duration → List Poll → Polled
unfolding test
loop start timeout [] = polling
loop start timeout (p ∷ ps) = test start (Time.add start timeout) p (loop start timeout ps)

-- `canTransform` from the flag of the dedicated thread.
unfoldable pub can_transform : Bool → Time → Duration → List Poll → Polled
unfolding loop
can_transform false start timeout polls = returned false
can_transform true start timeout polls = loop start timeout polls

-- The clock has gone on by ten milliseconds for each sleep before a test.
abbrev pub IsPaced : Time → ℕ → List Poll → Type 0
IsPaced start k [] = Unit
IsPaced start k (p ∷ ps) =
    (start.nanoseconds +ℤ pos (10000000 * k) ≤ℤ p.first.nanoseconds) × IsPaced start (suc k) ps

deadline-nanoseconds :
    (start : Time) (timeout : Duration) (d : Time)
    → Time.add start timeout ≡ some d
    → d.nanoseconds ≡ start.nanoseconds +ℤ timeout.nanoseconds
unfolding Time.add checked
deadline-nanoseconds start timeout d h = ground arith

late :
    (start : Time) (timeout : Duration) (d first : Time) (k : ℕ)
    → Time.add start timeout ≡ some d
    → start.nanoseconds +ℤ pos (10000000 * k) ≤ℤ first.nanoseconds
    → timeout.nanoseconds ≤ℤ pos (10000000 * k)
    → Time.lt first d ≡ false
unfolding Time.lt
late start timeout d first k h a b = ground (
  arith,
  deadline-nanoseconds start timeout d h,
  +ℤ_parts start.nanoseconds timeout.nanoseconds,
  +ℤ_parts start.nanoseconds (pos (10000000 * k)),
)

test-ends :
    (start : Time) (o : Option Time) (p : Poll) (rest : Polled)
    → rest ≢ polling
    → test start o p rest ≢ polling
unfolding test
test-ends start none p rest h e = cc
test-ends start (some d) p rest h e =
    elim (Time.add p.second (Duration.of_nanoseconds (pos 3000000000)))
        as (λ w.
          (if not (Time.lt p.first d)
              then returned p.answer
              else if p.is_there
              then returned p.answer
              else after_wait start p w rest)
            ≡ polling
          → ⊥) [ none ↦ λ e. ground (arith, h) | some later ↦ λ e. ground (arith, h) ]
      e

test-late :
    (start : Time) (timeout : Duration) (o : Option Time) (p : Poll) (rest : Polled) (k : ℕ)
    → Time.add start timeout ≡ o
    → start.nanoseconds +ℤ pos (10000000 * k) ≤ℤ p.first.nanoseconds
    → timeout.nanoseconds ≤ℤ pos (10000000 * k)
    → test start o p rest ≢ polling
unfolding test
test-late start timeout none p rest k h a b e = cc
test-late start timeout (some d) p rest k h a b e =
    ground (arith, late start timeout d p.first k h a b)

loop-ends :
    (start : Time) (timeout : Duration) (k : ℕ) (p : Poll) (ps : List Poll)
    → IsPaced start k (p ∷ ps)
    → timeout.nanoseconds ≤ℤ pos (10000000 * (k + length ps))
    → loop start timeout (p ∷ ps) ≢ polling
unfolding loop
loop-ends start timeout k p [] (a, _) b =
    test-late start timeout (Time.add start timeout) p polling k refl a (omega (arith, b))
loop-ends start timeout k p (q ∷ ps) (a, c) b =
    test-ends start (Time.add start timeout) p (loop start timeout (q ∷ ps))
      (loop-ends start timeout (suc k) q ps c (omega (arith, b)))

-- canTransform ends: if the clock advances by ten milliseconds with each sleep, then no more tests
-- are made than the timeout has sleeps, and one.
pub can_transform-ends :
    (dedicated : Bool) (start : Time) (timeout : Duration) (p : Poll) (ps : List Poll)
    → IsPaced start 0 (p ∷ ps)
    → timeout.nanoseconds ≤ℤ pos (10000000 * length ps)
    → can_transform dedicated start timeout (p ∷ ps) ≢ polling
unfolding can_transform
can_transform-ends false start timeout p ps h k = λ e. cc
can_transform-ends true start timeout p ps h k = loop-ends start timeout 0 p ps h (omega (arith, k))
