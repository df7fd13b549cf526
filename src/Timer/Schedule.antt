-- ===== src/Timer/Schedule.antt =====
-- When a timer fires, and that it stops.
use rcl_like_wrapper_for_fas.Base.{
  ℕ, zero, suc, ◌+◌, ◌≤◌, ◌≡◌, refl, ap, Bool, true, false, List, [], ◌∷◌, Option, some, length,
  arith,
}
use rcl_like_wrapper_for_fas.Channel.{Channel, produce}
use rcl_like_wrapper_for_fas.Subscriber.{Callback, timer}
use rcl_like_wrapper_for_fas.Timer.{
  Timer, Pc, checking, asleep, finished, worker_move, stop, Act, work, stopped, run,
}

-- first, first + period, first + 2 * period, …
abbrev pub progression : ℕ → ℕ → ℕ → List ℕ
progression first period zero = []
progression first period (suc n) = first ∷ progression (first + period) period n

-- `n` productions of the callback.
abbrev pub pushes : ℕ → ℕ → Channel (Option Callback) → Channel (Option Callback)
pushes id zero c = c
pushes id (suc n) c = pushes id n (produce (some (timer id)) c)

abbrev pub works : List Act → ℕ
works [] = 0
works (work ∷ acts) = suc (works acts)
works (stopped ∷ acts) = works acts

module _ (id : ℕ) where
  -- What a run has fired, for a timer due at `next`.
  abbrev OnTime :
      ℕ → ℕ → Channel (Option Callback) → Timer × Channel (Option Callback) × List ℕ → Type 0
  OnTime next period c (last, d, ts) =
      (ts ≡ progression next period (length ts)) × (d ≡ pushes id (length ts) c)

  run_fields :
      (acts : List Act) (pc : Pc) (flag : Bool) (period next : ℕ) (c : Channel (Option Callback))
      → OnTime next period c (
          run id acts
            (record { period = period; stop_flag = flag; next_execution_time = next; pc = pc })
            c)
  unfolding run stop worker_move
  run_fields [] pc flag period next c = (refl, refl)
  run_fields (stopped ∷ acts) pc flag period next c = run_fields acts pc true period next c
  run_fields (work ∷ acts) checking true period next c = run_fields acts finished true period next c
  run_fields (work ∷ acts) checking false period next c = run_fields acts asleep false period next c
  run_fields (work ∷ acts) finished flag period next c = run_fields acts finished flag period next c
  run_fields (work ∷ acts) asleep flag period next c =
      let (times, channel) =
        run_fields acts checking flag period (next + period) (produce (some (timer id)) c) in
      (ap (◌∷◌ next) times, channel)

  -- On every schedule the timer fires for its due time and then for one period after another,
  -- without drift or gap, and puts its callback into the channel once each time that it fires.
  pub run-OnTime :
      (acts : List Act) (t : Timer) (c : Channel (Option Callback))
      → let (last, d, ts) = run id acts t c in
        (ts ≡ progression t.next_execution_time t.period (length ts))
        × (d ≡ pushes id (length ts) c)
  run-OnTime acts t c = run_fields acts t.pc t.stop_flag t.period t.next_execution_time c

  abbrev Stopping : List Act → Pc → Timer × Channel (Option Callback) × List ℕ → Type 0
  Stopping acts asleep (last, d, ts) =
      (length ts ≤ 1) × (last.stop_flag ≡ true) × (2 ≤ works acts → last.pc ≡ finished)
  Stopping acts checking (last, d, ts) =
      (length ts ≤ 0) × (last.stop_flag ≡ true) × (1 ≤ works acts → last.pc ≡ finished)
  Stopping acts finished (last, d, ts) =
      (length ts ≤ 0) × (last.stop_flag ≡ true) × (last.pc ≡ finished)

  Stopping-fields :
      (acts : List Act) (pc : Pc) (period next : ℕ) (c : Channel (Option Callback))
      → Stopping acts pc (
          run id acts
            (record { period = period; stop_flag = true; next_execution_time = next; pc = pc })
            c)
  unfolding run stop worker_move
  Stopping-fields [] checking period next c = (omega arith, refl, λ h. absurd (omega arith))
  Stopping-fields [] asleep period next c = (omega arith, refl, λ h. absurd (omega arith))
  Stopping-fields [] finished period next c = (omega arith, refl, refl)
  Stopping-fields (stopped ∷ acts) checking period next c =
      Stopping-fields acts checking period next c
  Stopping-fields (stopped ∷ acts) asleep period next c = Stopping-fields acts asleep period next c
  Stopping-fields (stopped ∷ acts) finished period next c =
      Stopping-fields acts finished period next c
  Stopping-fields (work ∷ acts) checking period next c =
      let (few, flag, done) = Stopping-fields acts finished period next c in (few, flag, λ _. done)
  Stopping-fields (work ∷ acts) finished period next c = Stopping-fields acts finished period next c
  Stopping-fields (work ∷ acts) asleep period next c =
      let (few, flag, done) =
        Stopping-fields acts checking period (next + period) (produce (some (timer id)) c) in
      (omega arith, flag, λ h. done (omega arith))

  -- Once `stop` has set the flag, the timer fires at most once more, and two moves of its worker
  -- end it, so that the `join` of `stop` returns.
  run-stop :
      (acts : List Act) (t : Timer) (c : Channel (Option Callback))
      → let (last, d, ts) = run id acts (stop t) c in
        (length ts ≤ 1) × (2 ≤ works acts → last.pc ≡ finished)
  unfolding stop
  run-stop acts t c = by_pc t.pc (Stopping-fields acts t.pc t.period t.next_execution_time c)
    where
      by_pc :
          (pc : Pc)
          → Stopping acts pc (run id acts (record (stop t) { pc = pc }) c)
          → (length (run id acts (record (stop t) { pc = pc }) c).2 ≤ 1)
            × (2 ≤ works acts → (run id acts (record (stop t) { pc = pc }) c).0.pc ≡ finished)
      by_pc checking (few, flag, done) = (omega arith, λ h. done (omega arith))
      by_pc asleep (few, flag, done) = (few, done)
      by_pc finished (few, flag, done) = (omega arith, λ h. done)
