-- ===== src/Transforms/Buffer/Steps.antt =====
-- What the steps of canTransform in buffer.cpp do to the clock and to the wanted transform, when the
-- clock only goes forward, no call takes longer than a second, and a transform that is there stays.
use rcl_like_wrapper_for_fas.Base.{
  ℕ, ◌+◌, ◌^◌, ◌≤◌, ◌<◌, ◌≡◌, ◌∙◌, ◌-◌, refl, Bool, true, Option, none, some, arith,
}
use rcl_like_wrapper_for_fas.Base.Int.{ℤ, pos, ◌+ℤ◌, ◌-ℤ◌}
use rcl_like_wrapper_for_fas.Base.Int64.{checked}
use rcl_like_wrapper_for_fas.Duration
use rcl_like_wrapper_for_fas.Duration.{Duration}
use rcl_like_wrapper_for_fas.Time
use rcl_like_wrapper_for_fas.Time.{Time, Clock, system_time}
use rcl_like_wrapper_for_fas.Transforms.Buffer.{
  Core, Buffer, Query, found, Run, returned, ◌>>=◌, exact, clock_now, with_loop, check_thread,
  conditionally_append_timeout_info,
}
use Prim.Native.String.{String}

-- A run ends, and does so with a value and in a world that satisfy a predicate.
pub data Ends {A W : Type 0} (P : A → W → Type 0) : Run A W → Type 0 where
  ends : (a : A) (w : W) → P a w → Ends P (returned a w)

pub Ends->>= :
    {A B W : Type 0} {P : A → W → Type 0} {Q : B → W → Type 0} {m : Run A W} {f : A → W → Run B W}
    → Ends P m
    → ((a : A) (w : W) → P a w → Ends Q (f a w))
    → Ends Q (m >>= f)
unfolding ◌>>=◌
Ends->>= (ends a w h) k = k a w h

pub >>=-returned :
    {A B W : Type 0} (a : A) (w : W) (f : A → W → Run B W) → (returned a w >>= f) ≡ f a w
unfolding ◌>>=◌
>>=-returned a w f = refl

pub weaken :
    {A W : Type 0} {P Q : A → W → Type 0} {m : Run A W}
    → Ends P m
    → ((a : A) (w : W) → P a w → Q a w)
    → Ends Q m
weaken (ends a w h) k = ends a w (k a w h)

pub Ends-returned :
    {A W : Type 0} {P : A → W → Type 0} {m : Run A W}
    → Ends P m
    → (a : A) × (w : W) × (m ≡ returned a w) × P a w
Ends-returned (ends a w h) = (a, w, refl, h)

-- The clock in nanoseconds since its epoch, a second, and whether the transform is there.
module _ {W X E : Type 0} (core : Core W X E) (q : Query) where
  -- A call that begins at `w` and ends at `w'` takes between `least` and 10^9 nanoseconds.
  pub record Observed : Type 0 where
    pub time : W → ℕ
    pub is_there : W → Bool

  abbrev pub Later : Observed → ℕ → ℕ → W → W → Type 0
  Later o least most w w' =
      (o.time w + least ≤ o.time w')
      × (o.time w' ≤ o.time w + most)
      × (o.is_there w ≡ true → o.is_there w' ≡ true)

  pub record Steady (o : Observed) : Type 0 where
    pub dedicated : (w : W) → core.using_dedicated_thread w ≡ true
    pub clock : (w : W) → (core.system_clock w).0 ≡ pos (o.time w)
    pub clock_later : (w : W) → Later o 0 1000000000 w (core.system_clock w).1
    pub answer : (e : Option String) (w : W) → (core.can q e w).0.0 ≡ o.is_there w
    pub can_later : (e : Option String) (w : W) → Later o 0 1000000000 w (core.can q e w).1
    pub sleep_later : (w : W) → Later o 10000000 1000000000 w (core.sleep_10ms w)
    pub lookup_found : (w : W) → o.is_there w ≡ true → (x : X) × ((core.lookup q w).0 ≡ found x)

abbrev pub at : ℕ → Time
at n = Time.of_nanoseconds (pos n)

now_lem : (c : Clock) (reading : ℤ) → Time.now c reading ≡ Time.of_nanoseconds reading
unfolding Time.now
now_lem c reading =
    elim c.type_
      as (λ r. elim r [ system_time ↦ Time.of_nanoseconds reading ] ≡ Time.of_nanoseconds reading) [
        | system_time ↦ refl
      ]

-- The largest time that the lemmas speak of is in the year 2116.
pub exact-add :
    {W : Type 0} (a b : ℕ) (w : W)
    → a + b < 2 ^ 63
    → exact (Time.add (at a) (Duration.of_nanoseconds (pos b))) w ≡ returned (at (a + b)) w
unfolding exact Time.add checked ◌+ℤ◌
exact-add a b w h = ground arith

exact-diff :
    {W : Type 0} (a b : ℕ) (w : W)
    → b ≤ a
    → a < 2 ^ 63
    → exact (Time.diff (at a) (at b)) w ≡ returned (Duration.of_nanoseconds (pos (a - b))) w
unfolding exact Time.diff checked ◌-ℤ◌
exact-diff a b w h lt = ground arith

module _ {W X E : Type 0} (core : Core W X E) (this : Buffer) (q : Query)
    (o : Observed core q) where
  pub clock_now_lem :
      Steady core q o
      → (w : W)
      → Ends
          (λ t w'. (t ≡ at (o.time w)) × Later core q o 0 1000000000 w w')
          (clock_now core this w)
  unfolding clock_now
  clock_now_lem s w = ends _ _ (now_lem this.clock_ _ ∙ rw (s.clock w) refl, s.clock_later w)

  pub append_lem :
      (errstr : Option String) (start current : ℕ) (timeout : Duration) (w : W)
      → start ≤ current
      → current < 2 ^ 63
      → Ends
          (λ e w'. w' ≡ w)
          (conditionally_append_timeout_info core this errstr (at start) (at current) timeout w)
  unfolding conditionally_append_timeout_info ◌>>=◌
  append_lem none start current timeout w h lt = ends _ _ refl
  append_lem (some e) start current timeout w h lt =
      rw (exact-diff current start w h lt) (ends _ _ refl)

  -- `canTransform` around a loop that ends in a world with `P`: the answer is that of this world.
  pub with_loop_lem :
      Steady core q o
      → (P : W → Type 0) → (body : Duration → Time → Option String → W → Run (Option String) W)
      → (timeout : Duration) (errstr : Option String) (w : W)
      → ((w1 : W)
          → Later core q o 0 1000000000 w w1
          → Ends
              (λ e w2. P w2 × (o.time w ≤ o.time w2) × (o.time w2 ≤ 2 ^ 62))
              (body timeout (at (o.time w)) errstr w1))
      → Ends
          (λ r w'. (w2 : W) × P w2 × (r.0 ≡ o.is_there w2) × Later core q o 0 2000000000 w2 w')
          (with_loop core this body q timeout errstr w)
  unfolding with_loop check_thread
  with_loop_lem s P body timeout errstr w h = rw (s.dedicated w) (
      Ends->>= (clock_now_lem s w) (λ start w1 (e, later). rw e (
        Ends->>= (h w1 later) (λ err w2 (p, a, b).
          let can = s.can_later err w2 in
          Ends->>= (clock_now_lem s _) (λ current w4 (f, l). rw f (
            Ends->>=
              (append_lem _ (o.time w) _ timeout w4 (omega (arith, can)) (omega (arith, can)))
              (λ err2 w5 g. rw g (
                ends _ _ (
                  w2,
                  p,
                  s.answer err w2,
                  (omega (arith, can, l), omega (arith, can, l), λ t. l.2 (can.2 t)),
                )))))))))
