-- ===== src/Transforms/Listener/Stores.antt =====
-- A round of the thread of TransformListener (transform_listener.cpp) puts what has arrived on both
-- topics into the buffer, in the order of its arrival.
use rcl_like_wrapper_for_fas.Base.{
  ℕ, suc, ◌≡◌, refl, ap, sym, ◌∙◌, Bool, true, false, Option, some, List, [], ◌∷◌, ◌++◌, map,
  append-nil, append_assoc, arith, length, if◌then◌else◌, ◌==◌, update,
}
use rcl_like_wrapper_for_fas.Channel
use rcl_like_wrapper_for_fas.Channel.{Channel, produce}
use rcl_like_wrapper_for_fas.Subscriber.{
  Callback, subscription, sample, on_data_available, erase_begin,
}
use rcl_like_wrapper_for_fas.Outcome.{done}
use rcl_like_wrapper_for_fas.Node.{
  Node, Event, arrives, happen, happen_all, invoke, after_message, invoke_buffer,
}
use rcl_like_wrapper_for_fas.Node.SpinSome
use rcl_like_wrapper_for_fas.Node.SpinSome.Order.{replay, IsCalm, spin_some-replay}
use rcl_like_wrapper_for_fas.Executor.{Executor, lock, unlock, spin_nodes, after_node}
use rcl_like_wrapper_for_fas.Executor.Single
use rcl_like_wrapper_for_fas.Transforms.{Transform, SetResult, subscription_callback}
use rcl_like_wrapper_for_fas.Transforms.Listener.{callbacks, is_static_of}

-- A message and the topic on which it arrives: "tf_static", or "tf".
pub record Arrival (V : Type 0) : Type 0 where
  pub is_static : Bool
  pub message : List (Transform V)

abbrev pub arrival : {V : Type 0} → Bool → List (Transform V) → Arrival V
arrival s m = record { is_static = s; message = m }

-- The subscriber that `init` makes for a topic.
abbrev pub subscriber : Bool → ℕ
subscriber false = 0
subscriber true = 1

map-append : {A C : Type 0} (f : A → C) (xs ys : List A) → map f (xs ++ ys) ≡ map f xs ++ map f ys
map-append f [] ys = refl
map-append f (x ∷ xs) ys = ap (λ z. f x ∷ z) (map-append f xs ys)

length-map : {A C : Type 0} (f : A → C) (xs : List A) → length (map f xs) ≡ length xs
length-map f [] = refl
length-map f (x ∷ xs) = ap suc (length-map f xs)

module _ {V : Type 0} where
  abbrev pub event : Arrival V → Event (List (Transform V))
  event a = arrives (subscriber a.is_static) (sample a.message true)

  abbrev callback : Arrival V → Callback
  callback a = subscription (subscriber a.is_static)

  -- The messages for a subscriber.
  abbrev for_subscriber : ℕ → List (Arrival V) → List (List (Transform V))
  for_subscriber i [] = []
  for_subscriber i (a ∷ past) =
      let rest = for_subscriber i past in
      if subscriber a.is_static == i then a.message ∷ rest else rest

  abbrev inbox : List Callback → List (Arrival V) → Node (List (Transform V))
  inbox queued past = record {
    channel = record { queue = map some queued; closed = false };
    buffers = λ i. for_subscriber i past;
  }

  abbrev pub empty_node : Node (List (Transform V))
  empty_node = record { channel = Channel.empty; buffers = λ i. [] }

  for_subscriber-append :
      (i : ℕ) (past : List (Arrival V)) (a : Arrival V)
      → for_subscriber i (past ++ (a ∷ [])) ≡ (
          if subscriber a.is_static == i
          then for_subscriber i past ++ (a.message ∷ [])
          else for_subscriber i past)
  for_subscriber-append i [] a = refl
  for_subscriber-append i (b ∷ past) a = ground (arith, for_subscriber-append i past a)

  same_inbox :
      (queue : List (Option Callback)) (queued : List Callback)
      (buffers : ℕ → List (List (Transform V))) (past : List (Arrival V))
      → queue ≡ map some queued
      → ((i : ℕ) → buffers i ≡ for_subscriber i past)
      → record { channel = record { queue = queue; closed = false }; buffers = buffers }
        ≡ inbox queued past
  same_inbox queue queued buffers past e f j = record {
    channel = record { queue = e j; closed = false };
    buffers = λ i. f i j;
  }

  put_one :
      (i k : ℕ) (past : List (Arrival V)) (a : Arrival V)
      → k ≡ subscriber a.is_static
      → update (λ j. for_subscriber j past) k (for_subscriber k past ++ (a.message ∷ [])) i
        ≡ for_subscriber i (past ++ (a ∷ []))
  put_one i k past a e = ground (arith, for_subscriber-append i past a)

  abbrev taken : ℕ → Arrival V → List (Arrival V) → ℕ → List (List (Transform V))
  taken k a past = update (λ j. for_subscriber j (a ∷ past)) k (for_subscriber k past)

  take_one :
      (k : ℕ) (a : Arrival V) (past : List (Arrival V))
      → k ≡ subscriber a.is_static
      → (i : ℕ) → taken k a past i ≡ for_subscriber i past
  take_one k a past e i = ground arith

  happen_one :
      (past : List (Arrival V)) (a : Arrival V)
      → happen (event a) (inbox (map callback past) past)
        ≡ inbox (map callback (past ++ (a ∷ []))) (past ++ (a ∷ []))
  unfolding happen on_data_available produce
  happen_one past a =
      same_inbox _ (map callback (past ++ (a ∷ []))) _ (past ++ (a ∷ []))
        (sym (
          ap (map some) (map-append callback past (a ∷ []))
          ∙ map-append some (map callback past) (callback a ∷ [])))
        (λ i. put_one i (subscriber a.is_static) past a refl)

  happen_all_lem :
      (past more : List (Arrival V))
      → happen_all (map event more) (inbox (map callback past) past)
        ≡ inbox (map callback (past ++ more)) (past ++ more)
  unfolding happen_all
  happen_all_lem past [] = rw (append-nil past) refl
  happen_all_lem past (a ∷ more) =
      rw (happen_all, happen_one past a)
        (happen_all_lem (past ++ (a ∷ [])) more ∙ rw (append_assoc past (a ∷ []) more) refl)

module _ {V B : Type 0} (set_transform : Transform V → Bool → B → SetResult B) where
  -- The callback on each message, in the order of arrival.
  unfoldable pub received : List (Arrival V) → B → B
  received [] b = b
  received (a ∷ past) b =
      received past (subscription_callback set_transform (some a.message) a.is_static b)

  calm : IsCalm (callbacks set_transform)
  unfolding callbacks
  calm = record { message = λ i m w. refl; tick = λ t w. refl }

  invoke_at :
      (is_static : Bool) (message : List (Transform V)) (past : List (Arrival V)) (b : B)
      → let a = arrival is_static message in
        invoke (callbacks set_transform) (callback a) (inbox [] (a ∷ past)) b
        ≡ (inbox [] past, subscription_callback set_transform (some message) is_static b)
  unfolding invoke callbacks invoke_buffer after_message erase_begin happen_all is_static_of
  invoke_at false m past b =
      ap (λ n. (n, subscription_callback set_transform (some m) false b))
        (same_inbox [] [] (taken 0 (arrival false m) past) past refl
          (take_one 0 (arrival false m) past refl))
  invoke_at true m past b =
      ap (λ n. (n, subscription_callback set_transform (some m) true b))
        (same_inbox [] [] (taken 1 (arrival true m) past) past refl
          (take_one 1 (arrival true m) past refl))

  replay_lem :
      (past : List (Arrival V)) (b : B)
      → replay (callbacks set_transform) (map callback past) (inbox [] past) b
        ≡ (empty_node, received past b)
  unfolding replay received
  replay_lem [] b = refl
  replay_lem (a ∷ past) b = rw (replay, invoke_at a.is_static a.message past b) (replay_lem past _)

  node_round :
      (past : List (Arrival V)) (node : Node (List (Transform V))) (b : B)
      → node ≡ happen_all (map event past) empty_node
      → SpinSome.spin_some (callbacks set_transform) (suc (suc (length past))) node b
        ≡ SpinSome.returned (empty_node, received past b)
  node_round past node b h =
      rw (h, happen_all_lem [] past, sym (length-map callback past))
        (spin_some-replay (callbacks set_transform) calm (map callback past)
            (inbox (map callback past) past) b refl
          ∙ ap SpinSome.returned (replay_lem past b))

  -- One round of the thread's `spin`, for an unlocked executor of the listener's node that found its
  -- channel and its buffers empty before the messages arrived, hands every message to the callback
  -- with the `is_static` of its topic, in the order of arrival over both topics; it leaves nothing
  -- in the channel and in the buffers, and the mutex unlocked.
  pub spin_round-received :
      (past : List (Arrival V)) (n : ℕ) (x : Executor (List (Transform V)) B)
      → x.nodes ≡ some n ∷ []
      → x.locked ≡ false
      → x.store n ≡ happen_all (map event past) empty_node
      → Single.spin_round (callbacks set_transform) (suc (suc (length past))) x
        ≡ done (record x { store = update x.store n empty_node; world = received past x.world })
  unfolding Single.spin_round Single.spin_some lock unlock spin_nodes after_node
  spin_round-received past n x only free h =
      rw free (rw only (rw (node_round past (x.store n) x.world h) refl))
