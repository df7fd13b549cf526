-- ===== src/Sample/Publisher/Sends.antt =====
-- What `runThread` of a sample publisher sends.
use rcl_like_wrapper_for_fas.Base.{
  ℕ, zero, suc, ◌+◌, ◌^◌, ◌≤◌, ◌<◌, ◌≡◌, refl, sym, ap, ◌∙◌, Bool, true, false, some, List, [], ◌∷◌,
  ◌++◌, All, length, append_assoc, append-nil, arith,
}
use rcl_like_wrapper_for_fas.Sample.Publisher.{
  Listener, Match, on_publication_matched, Publisher, start, publish, Round, notice_all, notice,
  Run, returned, next_index, for_loop, run_thread,
}

-- The `n` numbers after `k`.
abbrev pub numbers : ℕ → ℕ → List ℕ
numbers k zero = []
numbers k (suc n) = suc k ∷ numbers (suc k) n

match-connected :
    (m : Match) (l : Listener)
    → l.first_connected_ ≡ true
    → (on_publication_matched m l).first_connected_ ≡ true
unfolding on_publication_matched
match-connected m l h = ground arith

notice_all-connected :
    (ms : List Match) (l : Listener)
    → l.first_connected_ ≡ true
    → (notice_all ms l).first_connected_ ≡ true
unfolding notice_all
notice_all-connected [] l h = h
notice_all-connected (m ∷ ms) l h =
    notice_all-connected ms (on_publication_matched m l) (match-connected m l h)

-- A connected publisher sends in every round.
publish-connected :
    (s : Publisher)
    → s.listener_.first_connected_ ≡ true
    → suc s.sec < 2 ^ 31
    → publish true s
      ≡ some (record s { sec = suc s.sec; written = s.written ++ (suc s.sec ∷ []) }, true)
unfolding publish
publish-connected s h k = ground arith

for_loop-next :
    (samples i : ℕ) (r : Round) (rs : List Round) (s t : Publisher) (sent : Bool)
    → i < samples
    → publish true (notice r.matches s) ≡ some (t, sent)
    → for_loop samples i (r ∷ rs) s ≡ for_loop samples (next_index sent i) rs t
unfolding for_loop
for_loop-next samples i r rs s t sent h k = ground arith

for_loop-end :
    (samples i : ℕ) (rs : List Round) (s : Publisher)
    → i ≡ samples
    → for_loop samples i rs s ≡ returned s
unfolding for_loop
for_loop-end samples i [] s h = ground arith
for_loop-end samples i (r ∷ rs) s h = ground arith

next_index-true : (i : ℕ) → suc i < 2 ^ 32 → next_index true i ≡ suc i
unfolding next_index
next_index-true i h = omega arith

Sent : Publisher → ℕ → Run → Type 0
Sent s n r = (t : Publisher) × (r ≡ returned t) × (t.written ≡ s.written ++ numbers s.sec n)

-- What has been sent after a round in which a connected publisher sends.
sent_one : Round → Publisher → Publisher
sent_one r s = record (notice r.matches s) {
  sec = suc s.sec;
  written = s.written ++ (suc s.sec ∷ []);
}

for_loop-send :
    (samples i n : ℕ) (r : Round) (rs : List Round) (s : Publisher)
    → (notice_all r.matches s.listener_).first_connected_ ≡ true
    → i < samples
    → samples < 2 ^ 32
    → suc s.sec < 2 ^ 31
    → Sent (sent_one r s) n (for_loop samples (suc i) rs (sent_one r s))
    → Sent s (suc n) (for_loop samples i (r ∷ rs) s)
unfolding Sent notice sent_one
for_loop-send samples i n r rs s c e b d (w, x, y) = (
  w,
  for_loop-next samples i r rs s (sent_one r s) true e (publish-connected (notice r.matches s) c d)
      ∙ ap (λ k. for_loop samples k rs (sent_one r s)) (next_index-true i (omega (arith, e, b)))
      ∙ x,
  y ∙ append_assoc s.written (suc s.sec ∷ []) (numbers (suc s.sec) n),
)

for_loop-connected :
    (samples i n : ℕ) (rs : List Round) (s : Publisher)
    → s.listener_.first_connected_ ≡ true
    → i + n ≡ samples
    → samples < 2 ^ 32
    → s.sec + n < 2 ^ 31
    → n ≤ length rs
    → Sent s n (for_loop samples i rs s)
unfolding Sent notice sent_one
for_loop-connected samples i zero rs s c e b d l =
    (s, for_loop-end samples i rs s (omega arith), sym (append-nil s.written))
for_loop-connected samples i (suc n) [] s c e b d l = absurd (omega (arith, l))
for_loop-connected samples i (suc n) (r ∷ rs) s c e b d l =
    let c' = notice_all-connected r.matches s.listener_ c in
    for_loop-send samples i n r rs s c' (omega (arith, e)) b (omega (arith, d)) (
      for_loop-connected samples (suc i) n rs (sent_one r s) c' (omega (arith, e)) b
        (omega (arith, d)) (omega (arith, l)))

-- Nothing has happened by the end of such a round.
abbrev pub IsQuiet : Round → Type 0
IsQuiet r = r.matches ≡ []

quiet_publish :
    (r : Round) → IsQuiet r → publish true (notice r.matches start) ≡ some (start, false)
unfolding publish notice notice_all
quiet_publish r e = rw e

-- A round in which nothing is sent takes `i` back to where it was, through the wrap-around of `--i`.
for_loop-quiet :
    (samples : ℕ) (quiet rs : List Round)
    → 0 < samples
    → All IsQuiet quiet
    → for_loop samples 0 (quiet ++ rs) start ≡ for_loop samples 0 rs start
unfolding next_index
for_loop-quiet samples [] rs h q = refl
for_loop-quiet samples (r ∷ quiet) rs h (e, q) =
    for_loop-next samples 0 r (quiet ++ rs) start start false h (quiet_publish r e)
    ∙ for_loop-quiet samples quiet rs h q

run_thread-for_loop :
    (samples : ℕ) (rs : List Round)
    → 0 < samples
    → run_thread samples rs start ≡ for_loop samples 0 rs start
unfolding run_thread
run_thread-for_loop samples rs h = ground arith

sends_from :
    (samples n : ℕ) (r : Round) (rs : List Round)
    → (notice_all r.matches start.listener_).first_connected_ ≡ true
    → samples < 2 ^ 31
    → n ≡ samples
    → n ≤ suc (length rs)
    → 0 < n
    → Sent start n (for_loop samples 0 (r ∷ rs) start)
unfolding sent_one notice
sends_from samples zero r rs c b e l h = absurd (omega (arith, h))
sends_from samples (suc n) r rs c b e l h =
    for_loop-send samples 0 n r rs start c (omega (arith, e)) (omega (arith, b)) (omega arith) (
      for_loop-connected samples 1 n rs (sent_one r start) c (omega (arith, e)) (omega (arith, b))
        (omega (arith, b, e)) (omega (arith, l)))

-- A publisher that is to send a number of samples waits for the first connection, however long it
-- takes, then sends one message in each round, and returns when it has sent that many: the
-- messages with the numbers from 1 on, each once.
pub run_thread-sends :
    (samples : ℕ) (quiet : List Round) (r : Round) (rs : List Round)
    → 0 < samples
    → samples < 2 ^ 31
    → All IsQuiet quiet
    → (notice_all r.matches start.listener_).first_connected_ ≡ true
    → samples ≤ suc (length rs)
    → (t : Publisher) × (run_thread samples (quiet ++ (r ∷ rs)) start ≡ returned t)
      × (t.written ≡ numbers 0 samples)
unfolding Sent
run_thread-sends samples quiet r rs h b q c l =
    let (t, x, y) = sends_from samples samples r rs c (omega (arith, b)) refl l h in
    (
      t,
      run_thread-for_loop samples (quiet ++ (r ∷ rs)) h
          ∙ for_loop-quiet samples quiet (r ∷ rs) h q
          ∙ x,
      y,
    )
