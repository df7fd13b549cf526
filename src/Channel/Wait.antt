-- ===== src/Channel/Wait.antt =====
-- The condition variable of `Channel::consume`: consumer threads that sleep in `cv_.wait`, and
-- the `notify_all` of `produce` and `close`. A wake-up with no notification may come at any time.
use rcl_like_wrapper_for_fas.Base.{
  ℕ, ◌≡◌, false, Option, none, some, [], arith, if◌then◌else◌, update,
}
use rcl_like_wrapper_for_fas.Channel.{
  Channel, Consumed, waits, finished, took, empty, produce, consume, consume_nowait, close,
}

-- Where a thread stands with respect to `consume`; `returned none` is the result false.
pub data Consumer {ℓ} (A : Type ℓ) : Type ℓ where
  idle asleep awake : Consumer A
  returned : Option A → Consumer A

pub record Room {ℓ} (A : Type ℓ) : Type ℓ where
  pub channel : Channel A
  pub pc : ℕ → Consumer A

module _ {ℓ} {A : Type ℓ} where
  after_consume : Channel A → Consumed A → Consumer A × Channel A
  after_consume c waits = (asleep, c)
  after_consume c finished = (returned none, c)
  after_consume c (took x c') = (returned (some x), c')

  -- The test of the waiting predicate with what follows it, under one lock.
  unfoldable pub attempt : Channel A → Consumer A × Channel A
  unfolding after_consume
  attempt c = after_consume c (consume c)

  unfoldable pub wake : Consumer A → Consumer A
  wake idle = idle
  wake asleep = awake
  wake awake = awake
  wake (returned r) = returned r

  unfoldable pub notify_all : (ℕ → Consumer A) → ℕ → Consumer A
  notify_all pc i = wake (pc i)

  unfoldable pub try_once : Room A → ℕ → Room A
  try_once r i = record {
    channel = (attempt r.channel).1;
    pc = update r.pc i (attempt r.channel).0;
  }

  unfoldable pub put : A → Room A → Room A
  put x r = record {
    channel = produce x r.channel;
    pc = if r.channel.closed then r.pc else notify_all r.pc;
  }

  unfoldable pub shut : Room A → Room A
  shut r = record { channel = close r.channel; pc = notify_all r.pc }

pub data Step {ℓ} {A : Type ℓ} (r : Room A) : Room A → Type ℓ where
  enters : (i : ℕ) → r.pc i ≡ idle → Step r (try_once r i)
  rechecks : (i : ℕ) → r.pc i ≡ awake → Step r (try_once r i)
  stirs : (i : ℕ) → r.pc i ≡ asleep → Step r (record r { pc = update r.pc i awake })
  leaves :
      (i : ℕ) (v : Option A) → r.pc i ≡ returned v → Step r (record r { pc = update r.pc i idle })
  puts : (x : A) → Step r (put x r)
  shuts : Step r (shut r)
  polls :
      (x : A) (c : Channel A)
      → consume_nowait r.channel ≡ some (x, c)
      → Step r (record r { channel = c })

abbrev pub start {ℓ} : {A : Type ℓ} → Room A
start = record { channel = empty; pc = λ _. idle }

pub data Reach {ℓ} {A : Type ℓ} : Room A → Type ℓ where
  here : Reach start
  next : {r s : Room A} → Reach r → Step r s → Reach s

module _ {ℓ} {A : Type ℓ} where
  -- A sleeper has nothing to wake up for.
  abbrev pub IsQuiet : Room A → Type ℓ
  IsQuiet r = (i : ℕ) → r.pc i ≡ asleep → (r.channel.queue ≡ []) × (r.channel.closed ≡ false)

  wake-ne-asleep : (w : Consumer A) → ¬ (wake w ≡ asleep)
  unfolding wake
  wake-ne-asleep idle e = cc
  wake-ne-asleep asleep e = cc
  wake-ne-asleep awake e = cc
  wake-ne-asleep (returned r) e = cc

  try_once-IsQuiet : (r : Room A) (i : ℕ) → IsQuiet r → IsQuiet (try_once r i)
  unfolding try_once attempt consume
  try_once-IsQuiet r i q j e = ground (arith, q j)

  put-IsQuiet : (x : A) (r : Room A) → IsQuiet r → IsQuiet (put x r)
  unfolding put produce notify_all
  put-IsQuiet x r q j e = ground (arith, q j, wake-ne-asleep (r.pc j))

  shut-IsQuiet : (r : Room A) → IsQuiet (shut r)
  unfolding shut notify_all
  shut-IsQuiet r j e = absurd (wake-ne-asleep (r.pc j) e)

  Step-IsQuiet : {r s : Room A} → Step r s → IsQuiet r → IsQuiet s
  unfolding consume_nowait
  Step-IsQuiet (enters i h) q = try_once-IsQuiet _ i q
  Step-IsQuiet (rechecks i h) q = try_once-IsQuiet _ i q
  Step-IsQuiet (stirs i h) q = λ j e. ground (arith, q j)
  Step-IsQuiet (leaves i v h) q = λ j e. ground (arith, q j)
  Step-IsQuiet (puts x) q = put-IsQuiet x _ q
  Step-IsQuiet shuts q = shut-IsQuiet _
  Step-IsQuiet (polls x c h) q = λ j e. ground (arith, q j)

  -- No wake-up is lost: in every reachable state a thread that sleeps in `consume` finds the
  -- channel open and its queue empty, however produces, closes, other consumers and spurious
  -- wake-ups interleave.
  pub Reach-asleep :
      {r : Room A}
      → Reach r
      → (i : ℕ) → r.pc i ≡ asleep
      → (r.channel.queue ≡ []) × (r.channel.closed ≡ false)
  Reach-asleep here i e = cc
  Reach-asleep (next h st) i e = Step-IsQuiet st (Reach-asleep h) i e
