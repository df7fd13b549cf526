-- ===== src/App/Counts.antt =====
-- What ROSTypeImagePubSub publishes while its node spins.
use rcl_like_wrapper_for_fas.Base.{
  ℕ, zero, suc, ◌+◌, ◌^◌, ◌≤◌, ◌≡◌, sym, ap, ◌∙◌, Bool, true, false, List, [], ◌∷◌, ◌++◌, ◌==◌,
  if◌then◌else◌, arith,
}
use rcl_like_wrapper_for_fas.Node.{Event, Program}
use rcl_like_wrapper_for_fas.Node.Spin.{System}
use rcl_like_wrapper_for_fas.Node.Spin.Delivery.{Act, run}
use rcl_like_wrapper_for_fas.Node.Spin.Delivery.Keeps.{IsKept, run-keeps}
use rcl_like_wrapper_for_fas.App.Callbacks.{ImagePubSub, callback_publish}

module _ {M : Type 0} where
  -- Its timer is the timer 0 and calls callbackPublish with the 100 of `init`; its subscription
  -- prints. `during` is what other threads do meanwhile.
  unfoldable pub pub_sub_program : (ImagePubSub → List (Event M)) → Program M ImagePubSub
  pub_sub_program during = record {
    on_message = λ j m w. record { world = w; threw = false; during = during w };
    on_timer = λ t w. record {
      world = if t == 0 then callback_publish 100 w else w;
      threw = false;
      during = during w;
    };
  }

-- The `n` numbers from `k` on.
abbrev pub count_up : ℕ → ℕ → List ℕ
count_up k zero = []
count_up k (suc n) = k ∷ count_up (suc k) n

count_up-suc : (k n : ℕ) → count_up k (suc n) ≡ count_up k n ++ ((k + n) ∷ [])
count_up-suc k zero = ap (λ m. m ∷ []) (omega arith)
count_up-suc k (suc n) =
    ap (λ l. k ∷ l)
      (count_up-suc (suc k) n ∙ ap (λ m. count_up (suc k) n ++ (m ∷ [])) (omega arith))

-- It has published the seconds 100, 101, 102 and so on, and they fit an int.
abbrev pub Counted : ImagePubSub → Type 0
Counted w = (w.written ≡ count_up 100 w.counter_) × (100 + w.counter_ ≤ 2 ^ 31)

publish-Counted : (w : ImagePubSub) → Counted w → Counted (callback_publish 100 w)
unfolding callback_publish
publish-Counted w (e, h) =
    let next = ap (λ l. l ++ ((100 + w.counter_) ∷ [])) e ∙ sym (count_up-suc 100 w.counter_) in
    ground (arith, next)

tick-Counted :
    (b : Bool) (w : ImagePubSub) → Counted w → Counted (if b then callback_publish 100 w else w)
tick-Counted true w h = publish-Counted w h
tick-Counted false w h = h

pub_sub-IsKept :
    {M : Type 0} (during : ImagePubSub → List (Event M)) → IsKept (pub_sub_program during) Counted
unfolding pub_sub_program
pub_sub-IsKept during = record {
  on_timer = λ t w h. tick-Counted (t == 0) w h;
  on_message = λ j m w h. h;
}

-- Over every schedule of its node, however often the timer fires and whatever arrives, the node
-- has published the seconds from 100 on, each once and in order, as many as it has counted.
run-counts :
    {M : Type 0} (during : ImagePubSub → List (Event M)) (acts : List (Act M))
    (s : System M ImagePubSub)
    → Counted s.world
    → Counted (run (pub_sub_program during) 0 acts s).world
run-counts during acts s h =
    run-keeps (pub_sub_program during) Counted (pub_sub-IsKept during) 0 acts s h
