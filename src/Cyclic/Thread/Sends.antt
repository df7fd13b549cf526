-- ===== src/Cyclic/Thread/Sends.antt =====
-- What `runThread` of a cyclic publisher sends and prints until a SIGINT.
use rcl_like_wrapper_for_fas.Base.{
  ℕ, suc, ◌+◌, ◌-◌, ◌/◌, ◌%◌, ◌^◌, ◌≤◌, ◌≡◌, refl, ap, subst, Bool, true, false, List, [], ◌∷◌,
  ◌++◌, All, length, if◌then◌else◌, arith,
}
use rcl_like_wrapper_for_fas.Base.Int.{pos}
use Prim.Native.String.{String}
use rcl_like_wrapper_for_fas.Cyclic.Timer.{Timespec}
use rcl_like_wrapper_for_fas.Cyclic.Thread.{
  Wake, Report, report, run_thread, nanos, IsProper, interval-printed,
}

-- The readings of the successful wake-ups are times and do not go back.
abbrev pub Ascends : Timespec → List Wake → Type 0
Ascends last [] = IsProper last
Ascends last (w ∷ ws) = IsProper last × elim (w.ret_zero) [
  | true ↦ (nanos last ≤ nanos w.now) × Ascends w.now ws
  | false ↦ Ascends last ws
]

-- The reading of the last successful wake-up.
abbrev pub latest : Timespec → List Wake → Timespec
latest last [] = last
latest last (w ∷ ws) = latest (if w.ret_zero then w.now else last) ws

-- One after the other from `a` on, the indices are those after `index` and the printed intervals
-- are the times that add up to `b`.
abbrev pub Covers : ℕ → ℕ → ℕ → List Report → Type 0
Covers index a b [] = a ≡ b
Covers index a b (r ∷ rs) =
    (d : ℕ) × (r.index ≡ (index + 1) % 2 ^ 32)
    × (r.printed ≡ (pos (d / 1000000000), pos (d % 1000000000)))
    × Covers r.index (a + d) b rs

-- The wake-ups that publish.
abbrev pub woken : List Wake → ℕ
woken [] = 0
woken (w ∷ ws) = let rest = woken ws in if w.ret_zero then suc rest else rest

Done : ℕ → Timespec → List Wake → List Report → Type 0
Done index last ws rs =
    Covers index (nanos last) (nanos (latest last ws)) rs × (length rs ≡ woken ws)

Ascends-IsProper : (last : Timespec) (ws : List Wake) → Ascends last ws → IsProper last
Ascends-IsProper last [] h = h
Ascends-IsProper last (w ∷ ws) (h, _) = h

abbrev wake : Bool → Timespec → Bool → Wake
wake ret_zero now stops = record { ret_zero = ret_zero; now = now; stops = stops }

-- One wake-up and what follows it.
step-Done :
    (to_string : ℕ → String) (ret_zero : Bool) (now : Timespec) (stops : Bool) (ws all : List Wake)
    (index : ℕ) (last : Timespec)
    → Ascends last (wake ret_zero now stops ∷ ws)
    → ((k : ℕ) (l : Timespec) → Ascends l ws → Done k l ws (run_thread to_string stops k l all))
    → Done index last
        (wake ret_zero now stops ∷ ws)
        (run_thread to_string false index last (wake ret_zero now stops ∷ all))
unfolding run_thread report Done
step-Done to_string false now stops ws all index last (h, a) f = f index last a
step-Done to_string true now stops ws all index last (h, (le, a)) f =
    let (c, n) = f ((index + 1) % 2 ^ 32) now a in
    (
      (
        nanos now - nanos last,
        refl,
        interval-printed now last (Ascends-IsProper now ws a) h le,
        subst
            (λ t.
              Covers ((index + 1) % 2 ^ 32) t (nanos (latest now ws))
                (run_thread to_string stops ((index + 1) % 2 ^ 32) now all))
            (omega (arith, le)) c,
      ),
      ap suc n,
    )

stopped :
    (to_string : ℕ → String) (stop : Bool) (rest : List Wake) (index : ℕ) (last : Timespec)
    → stop ≡ true
    → Done index last [] (run_thread to_string stop index last rest)
unfolding run_thread Done
stopped to_string true [] index last e = (refl, refl)
stopped to_string true (w ∷ rest) index last e = (refl, refl)
stopped to_string false rest index last e = absurd (ground arith)

-- Until a SIGINT, and once more after it, every wake-up of the timer sends one message. Their
-- indices follow one another, and the printed intervals add up to the time from the start to the
-- last of them. Nothing that comes later is sent.
pub run_thread-Covers :
    (to_string : ℕ → String) (ws : List Wake) (w : Wake) (rest : List Wake) (index : ℕ)
    (last : Timespec)
    → All (λ v. v.stops ≡ false) ws
    → w.stops ≡ true
    → Ascends last (ws ++ (w ∷ []))
    → let sent = run_thread to_string false index last (ws ++ (w ∷ rest)) in
      Covers index (nanos last) (nanos (latest last (ws ++ (w ∷ [])))) sent
      × (length sent ≡ woken (ws ++ (w ∷ [])))
unfolding Done
run_thread-Covers to_string [] w rest index last q e a =
    step-Done to_string w.ret_zero w.now w.stops [] rest index last a
      (λ k l b. stopped to_string w.stops rest k l e)
run_thread-Covers to_string (v ∷ ws) w rest index last (d, q) e a =
    step-Done to_string v.ret_zero v.now v.stops (ws ++ (w ∷ [])) (ws ++ (w ∷ rest)) index last a
      (λ k l b. rw d (run_thread-Covers to_string ws w rest k l q e b))
