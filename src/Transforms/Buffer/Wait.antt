-- ===== src/Transforms/Buffer/Wait.antt =====
-- canTransform and lookupTransform of buffer.cpp with a timeout wait for a transform that comes.
use rcl_like_wrapper_for_fas.Base.{
  ℕ, zero, suc, ◌+◌, ◌*◌, ◌^◌, ◌≤◌, ◌<◌, ◌≡◌, refl, sym, ◌∙◌, Bool, true, false, Option, some,
  arith, ◌⊎◌, inl, inr,
}
use rcl_like_wrapper_for_fas.Base.Int.{pos}
use rcl_like_wrapper_for_fas.Duration
use rcl_like_wrapper_for_fas.Duration.{Duration, zero_duration}
use rcl_like_wrapper_for_fas.Time
use rcl_like_wrapper_for_fas.Time.{Time}
use rcl_like_wrapper_for_fas.Transforms.Convert.{to_rclcpp}
use rcl_like_wrapper_for_fas.Transforms.Buffer.{
  Core, Buffer, Query, found, Run, returned, ◌>>=◌, with_loop, pause, loop, can_transform,
  lookup_transform,
}
use rcl_like_wrapper_for_fas.Transforms.Buffer.Steps.{
  Ends, ends, Ends->>=, weaken, >>=-returned, Ends-returned, Observed, Later, Steady, at, exact-add,
  clock_now_lem, with_loop_lem,
}
use Prim.Native.String.{String}

lt-at :
    (a b : ℕ)
    → ((Time.lt (at a) (at b) ≡ true) × (a < b)) ⊎ ((Time.lt (at a) (at b) ≡ false) × (b ≤ a))
unfolding Time.lt
lt-at a b = ground arith

ge-at : (a b : ℕ) → b ≤ a → Time.ge (at a) (at b) ≡ true
unfolding Time.ge
ge-at a b h = ground arith

module _ {W X E : Type 0} (core : Core W X E) (this : Buffer) (q : Query)
    (o : Observed core q) where
  -- A round of the loop, by whether its first test holds.
  round_lem :
      Steady core q o
      → (start t fuel : ℕ) (errstr : Option String) (w : W) (Q : Option String → W → Type 0)
      → start + t < 2 ^ 63
      → ((w1 : W) → Later core q o 0 1000000000 w w1 → start + t ≤ o.time w → Q errstr w1)
      → ((w1 : W)
          → Later core q o 0 1000000000 w w1
          → o.time w < start + t
          → Ends Q (
              with_loop core this (loop core this fuel q) q zero_duration errstr w1
              >>= pause core this
                  (loop core this fuel q (Duration.of_nanoseconds (pos t)) (at start))
                  (at start)))
      → Ends Q (loop core this (suc fuel) q (Duration.of_nanoseconds (pos t)) (at start) errstr w)
  unfolding loop
  round_lem s start t fuel errstr w Q bound expired again =
      Ends->>= (clock_now_lem core this q o s w) (λ first w1 (e, l).
        rw (e, exact-add start t w1 bound, >>=-returned)
          (elim (lt-at (o.time w) (start + t)) [
            | inl (h, before) ↦ rw h (again w1 l before)
            | inr (h, after) ↦ rw h (ends _ _ (expired w1 l after))
          ]))

  -- The test in the loop: canTransform with a timeout of zero waits for nothing.
  probe_lem :
      Steady core q o
      → (fuel : ℕ) (errstr : Option String) (w : W) → o.time w + 2000000000 ≤ 2 ^ 62
      → Ends
          (λ r w'. (r.0 ≡ true → o.is_there w' ≡ true) × Later core q o 0 4000000000 w w')
          (with_loop core this (loop core this (suc fuel) q) q zero_duration errstr w)
  probe_lem s fuel errstr w bound =
      weaken
        (with_loop_lem core this q o s (λ w2. Later core q o 0 2000000000 w w2)
          (loop core this (suc fuel) q) zero_duration errstr w
          (λ w1 later.
            round_lem s (o.time w) 0 fuel errstr w1 _ (omega arith)
              (λ w2 l t. (
                (omega arith, omega arith, λ t. l.2 (later.2 t)),
                omega (arith, l, later),
                omega (arith, l, later),
              ))
              (λ w2 l t. absurd (omega arith))))
        (λ r w' (w2, p, e, l).
          (λ t. l.2 (sym e ∙ t), (omega (arith, p, l), omega (arith, p, l), λ t. l.2 (p.2 t))))

  pause_lem :
      Steady core q o
      → (again : Option String → W → Run (Option String) W)
      → (start : ℕ) (r : Bool × Option String) (w : W) (Q : Option String → W → Type 0)
      → start ≤ o.time w
      → o.time w < 2 ^ 62
      → (r.0 ≡ true → Q r.1 w)
      → ((w1 : W) → Later core q o 10000000 2000000000 w w1 → Ends Q (again r.1 w1))
      → Ends Q (pause core this again (at start) r w)
  unfolding pause
  pause_lem s again start (true, e) w Q a b hit miss = ends _ _ (hit refl)
  pause_lem s again start (false, e) w Q a b hit miss =
      Ends->>= (clock_now_lem core this q o s w) (λ second w1 (f, l).
        rw
          (
            f,
            exact-add (o.time w) 3000000000 w1 (omega arith),
            >>=-returned,
            ge-at (o.time w + 3000000000) start (omega arith),
          )
          (let z = s.sleep_later w1 in
            miss _ (omega (arith, z, l), omega (arith, z, l), λ t. z.2 (l.2 t))))

  -- The loop ends with the transform there, if it comes before the timeout is over.
  loop_lem :
      Steady core q o
      → (start t : ℕ) → start + t + 20000000000 ≤ 2 ^ 62
      → ((w : W) → start + t ≤ o.time w → o.is_there w ≡ true)
      → (fuel k : ℕ) (errstr : Option String) (w : W) → start + 10000000 * k ≤ o.time w
      → o.time w ≤ start + t + 10000000000
      → t ≤ 10000000 * (k + fuel)
      → Ends
          (λ e w'. (o.is_there w' ≡ true) × (start ≤ o.time w') × (o.time w' ≤ 2 ^ 62))
          (loop core this (suc fuel) q (Duration.of_nanoseconds (pos t)) (at start) errstr w)
  loop_lem s start t bound comes zero k errstr w a b c =
      round_lem s start t 0 errstr w _ (omega (arith, bound))
        (λ w1 l d. (l.2 (comes w d), omega (arith, a, l), omega (arith, b, bound, l)))
        (λ w1 l d. absurd (omega (arith, a, c, d)))
  loop_lem s start t bound comes (suc n) k errstr w a b c =
      round_lem s start t (suc n) errstr w _ (omega (arith, bound))
        (λ w1 l d. (l.2 (comes w d), omega (arith, a, l), omega (arith, b, bound, l)))
        (λ w1 l d. Ends->>= (probe_lem s n errstr w1 (omega (arith, b, bound, l))) (λ r w2 (y, p).
          pause_lem s _ start r w2 _ (omega (arith, a, l, p)) (omega (arith, d, bound, l, p))
            (λ e. (y e, omega (arith, a, l, p), omega (arith, d, bound, l, p)))
            (λ w3 m.
              loop_lem s start t bound comes n (suc k) _ w3 (omega (arith, a, l, p, m))
                (omega (arith, d, l, p, m)) (omega (arith, c)))))

  can_transform_lem :
      Steady core q o
      → (t fuel : ℕ) (errstr : Option String) (w : W) → o.time w + t + 20000000000 ≤ 2 ^ 62
      → ((w' : W) → o.time w + t ≤ o.time w' → o.is_there w' ≡ true)
      → t ≤ 10000000 * fuel
      → Ends
          (λ r w'. (r.0 ≡ true) × (o.is_there w' ≡ true))
          (can_transform core this (suc fuel) q (pos t) errstr w)
  unfolding can_transform to_rclcpp
  can_transform_lem s t fuel errstr w bound comes enough =
      weaken
        (with_loop_lem core this q o s (λ w2. o.is_there w2 ≡ true) (loop core this (suc fuel) q)
          (Duration.of_nanoseconds (pos t)) errstr w
          (λ w1 l.
            loop_lem s (o.time w) t bound comes fuel 0 errstr w1 (omega (arith, l))
              (omega (arith, l)) (omega (arith, enough))))
        (λ r w' (w2, p, e, l). (e ∙ p, l.2 p))

  lookup_after :
      (fuel t : ℕ) (w : W) {r : Bool × Option String} {w' : W} {x : X}
      → can_transform core this fuel q (pos t) (some "") w ≡ returned r w'
      → (core.lookup q w').0 ≡ found x
      → lookup_transform core this fuel q (pos t) w ≡ returned (found x) (core.lookup q w').1
  unfolding lookup_transform
  lookup_after fuel t w e f = rw (e, >>=-returned, f) refl

  -- canTransform and lookupTransform with a timeout return, and the first says true and the second
  -- gives a transform: when a dedicated thread is used, the clock only goes forward, stays below the
  -- year 2116 and gains ten milliseconds in each pause, no call takes longer than a second, and the
  -- transform is there when the timeout is over and stays. The loop needs one test for each ten
  -- milliseconds of the timeout, and one more.
  pub lookup_transform-found :
      Steady core q o
      → (t fuel : ℕ) (errstr : Option String) (w : W) → o.time w + t + 20000000000 ≤ 2 ^ 62
      → ((w' : W) → o.time w + t ≤ o.time w' → o.is_there w' ≡ true)
      → t ≤ 10000000 * fuel
      → ((r : Bool × Option String) × (w' : W) × (can_transform core this
              (suc fuel)
              q
              (pos t)
              errstr
              w
            ≡ returned r w')
          × (r.0 ≡ true))
        × ((x : X) × (w' : W) × (lookup_transform core this (suc fuel) q (pos t) w
              ≡ returned (found x) w'))
  lookup_transform-found s t fuel errstr w bound comes enough =
      let (r, w1, e, h) = Ends-returned (can_transform_lem s t fuel errstr w bound comes enough) in
      let (_, w2, f, k) =
        Ends-returned (can_transform_lem s t fuel (some "") w bound comes enough) in
      let (x, g) = s.lookup_found w2 k.1 in
      ((r, w1, e, h.0), (x, (core.lookup q w2).1, lookup_after (suc fuel) t w f g))
