-- ===== src/Echo/Reports.antt =====
-- What tf2_echo prints, and when.
use rcl_like_wrapper_for_fas.Base.{
  ℕ, ◌<◌, ◌+◌, ◌≡◌, ◌∙◌, sym, refl, ap, Bool, true, false, not, ◌&&◌, some, List, [], ◌∷◌, ◌++◌,
  map, All, length,
}
use rcl_like_wrapper_for_fas.Rate.{Rate, sleep, sleeps}
use rcl_like_wrapper_for_fas.Rate.Grid.{OnGrid, sleep-IsDue, sleeps-OnGrid}
use rcl_like_wrapper_for_fas.Transforms.Buffer.{Found}
use rcl_like_wrapper_for_fas.Echo.{
  Tick, Line, waiting, returned, Echo, slept, report, echo_loop, wait_loop,
}

some_injective : {A : Type 0} {a b : A} → some a ≡ some b → a ≡ b
some_injective e = cc

-- A test after which the first loop goes round, and one after which the second does.
abbrev pub IsWaiting : Tick Bool → Type 0
IsWaiting t = (t.is_ok && not t.answer) ≡ true

abbrev pub IsLooking : {A : Type 0} → Tick A → Type 0
IsLooking t = t.is_ok ≡ true

abbrev pub times : {A : Type 0} → List (Tick A) → List ℕ
times = map (λ t. t.now)

module _ {X E : Type 0} where
  abbrev pub finished : List (Line X E) → List ℕ → Echo X E
  finished lines wakes = record { lines = lines; wakes = wakes; end = returned 0 }

  abbrev pub reports : List (Tick (Found X E)) → List (Line X E)
  reports = map (λ t. report t.answer)

  -- A run that ends well, having slept at these readings of the clock.
  abbrev pub Finishes : Rate → List ℕ → List (Line X E) → Echo X E → Type 0
  Finishes r nows lines run = (ts : List ℕ) × (sleeps r nows ≡ some ts) × (run ≡ finished lines ts)

  slept-Finishes :
      (r : Rate) (now : ℕ) (nows : List ℕ) (line : Line X E) (lines : List (Line X E))
      (next : Rate → Echo X E)
      → 0 < r.period
      → ((r' : Rate) → 0 < r'.period → Finishes r' nows lines (next r'))
      → Finishes r (now ∷ nows) (line ∷ lines) (slept line (sleep r now) next)
  unfolding slept sleeps
  slept-Finishes r now nows line lines next positive rest =
      let (t, one, due) = sleep-IsDue r now positive in
      let (ts, run, end) = rest (record { period = r.period; next_time = t + r.period }) positive in
      (t ∷ ts, rw (one, sleeps) (rw (run, sleeps)), rw (one, slept) (rw (end, slept)))

  echo_loop-Finishes :
      (looks more : List (Tick (Found X E))) (last : Tick (Found X E)) (r : Rate)
      → 0 < r.period
      → All IsLooking looks
      → last.is_ok ≡ false
      → Finishes r (times looks) (reports looks) (echo_loop (looks ++ (last ∷ more)) r)
  unfolding echo_loop sleeps
  echo_loop-Finishes [] more last r positive h e = ([], refl, rw e refl)
  echo_loop-Finishes (t ∷ looks) more last r positive h e = rw h.0 (
      slept-Finishes r t.now (times looks) (report t.answer) (reports looks) _ positive
        (λ r' p. echo_loop-Finishes looks more last r' p h.1 e))

  wait_loop-Finishes :
      (waits skipped : List (Tick Bool)) (there : Tick Bool) (looks more : List (Tick (Found X E)))
      (last : Tick (Found X E)) (r : Rate)
      → 0 < r.period
      → All IsWaiting waits
      → (there.is_ok && not there.answer) ≡ false
      → All IsLooking looks
      → last.is_ok ≡ false
      → Finishes r
          (times waits ++ times looks)
          (map (λ t. waiting) waits ++ reports looks)
          (wait_loop (waits ++ (there ∷ skipped)) (looks ++ (last ∷ more)) r)
  unfolding wait_loop
  wait_loop-Finishes [] skipped there looks more last r positive w stop h e =
      rw stop (echo_loop-Finishes looks more last r positive h e)
  wait_loop-Finishes (t ∷ waits) skipped there looks more last r positive w stop h e = rw w.0 (
      slept-Finishes r t.now (times waits ++ times looks) waiting _ _ positive
        (λ r' p. wait_loop-Finishes waits skipped there looks more last r' p w.1 stop h e))

  -- The loops with a positive period: for each test that finds the program running and no transform,
  -- a line that says so; then, from the first other test on, for each test that finds it running, the
  -- transform or the failure of that moment, in order, until the first that does not, when `main`
  -- returns 0. After each line it sleeps once, until a time on the grid of the period.
  pub wait_loop-reports :
      (waits skipped : List (Tick Bool)) (there : Tick Bool) (looks more : List (Tick (Found X E)))
      (last : Tick (Found X E)) (r : Rate)
      → 0 < r.period
      → All IsWaiting waits
      → (there.is_ok && not there.answer) ≡ false
      → All IsLooking looks
      → last.is_ok ≡ false
      → (ts : List ℕ) × (wait_loop (waits ++ (there ∷ skipped)) (looks ++ (last ∷ more)) r
          ≡ finished (map (λ t. waiting) waits ++ reports looks) ts)
        × (length ts ≡ length (times waits ++ times looks))
        × OnGrid r.next_time r.period ts
  wait_loop-reports waits skipped there looks more last r positive w stop h e =
      let (ts, run, end) =
        wait_loop-Finishes waits skipped there looks more last r positive w stop h e in
      let (us, same, size, grid) = sleeps-OnGrid r (times waits ++ times looks) positive in
      (us, end ∙ ap (finished _) (some_injective (sym run ∙ same)), size, grid)
