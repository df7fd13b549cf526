-- ===== src/Transforms/Tests.antt =====
-- A static broadcaster with two frames, and a listener with an empty buffer.
use rcl_like_wrapper_for_fas.Base.{
  ℕ, ◌+◌, ◌≡◌, ◌≢◌, arith, false, refl, Bool, true, Option, none, some, List, [], ◌∷◌,
  if◌then◌else◌,
}
use rcl_like_wrapper_for_fas.Base.Int.{pos, ◌+ℤ◌}
use rcl_like_wrapper_for_fas.Duration
use rcl_like_wrapper_for_fas.Time
use rcl_like_wrapper_for_fas.Transforms.Polling.{Poll, polling, can_transform, can_transform-ends}
use Prim.Native.String.{String}
use text.Mathlib.Text.{◌==◌}
use rcl_like_wrapper_for_fas.Transforms.{
  Transform, SetResult, stored, send_static, subscription_callback, store, replace_match,
}
use rcl_like_wrapper_for_fas.Transforms.Arrival.{StoresStatic, callback-latest}

abbrev laser : ℕ → Transform ℕ
laser v = record { child_frame_id = "laser"; value = v }

abbrev camera : ℕ → Transform ℕ
camera v = record { child_frame_id = "camera"; value = v }

-- A buffer that keeps everything.
abbrev Buffer : Type 0
Buffer = String → Option (Transform ℕ)

abbrev keep_all : Transform ℕ → Bool → Buffer → SetResult Buffer
keep_all t is_static b = stored (λ c. if c == t.child_frame_id then some t else b c)

abbrev IsAny : Transform ℕ → Type 0
IsAny t = t ≡ t

keeps : StoresStatic IsAny (λ c b. b c) keep_all
keeps = record {
  buffer_after = λ t b c. if c == t.child_frame_id then some t else b c;
  accepts = λ t b v. refl;
  answers = λ t b c v. refl;
}

abbrev sent : List (Transform ℕ)
sent = camera 2 ∷ laser 3 ∷ []

abbrev before : List (Transform ℕ)
before = laser 1 ∷ []

send-sent : send_static sent before ≡ laser 3 ∷ camera 2 ∷ []
unfolding send_static store replace_match
send-sent = refl

callback-latest_example :
    subscription_callback keep_all (some (send_static sent before)) true (λ c. none) "laser"
    ≡ some (laser 3)
unfolding send_static store replace_match
callback-latest_example =
    callback-latest IsAny (λ c b. b c) keep_all keeps "laser" sent before (λ c. none) (refl, tt)
      (refl, (refl, tt))

-- A clock that gains ten milliseconds with each test, and a transform that never comes.
abbrev poll : ℕ → Poll
poll n = record {
  first = Time.of_nanoseconds (pos (5 + n));
  is_there = false;
  second = Time.of_nanoseconds (pos (6 + n));
  answer = false;
}

can_transform-ends_example :
    can_transform true
      (Time.of_nanoseconds (pos 5))
      (Duration.of_nanoseconds (pos 20000000))
      (poll 0 ∷ poll 10000000 ∷ poll 20000000 ∷ [])
    ≢ polling
unfolding ◌+ℤ◌
can_transform-ends_example =
    can_transform-ends true (Time.of_nanoseconds (pos 5)) (Duration.of_nanoseconds (pos 20000000))
      (poll 0) (poll 10000000 ∷ poll 20000000 ∷ []) (omega arith, (omega arith, (omega arith, tt)))
      (omega arith)
