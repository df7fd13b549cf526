-- ===== src/Transforms/Listener/Tests.antt =====
-- A listener whose buffer keeps every transform, with its flag.
use rcl_like_wrapper_for_fas.Base.{
  ℕ, ◌≡◌, ◌≢◌, refl, Bool, true, false, some, List, [], ◌∷◌, map, update,
}
use rcl_like_wrapper_for_fas.Outcome.{done}
use rcl_like_wrapper_for_fas.Node.{Node, happen_all}
use rcl_like_wrapper_for_fas.Executor.{Executor}
use rcl_like_wrapper_for_fas.Executor.Single
use rcl_like_wrapper_for_fas.Transforms.{Transform, SetResult, stored, subscription_callback}
use rcl_like_wrapper_for_fas.Transforms.Listener.{callbacks, destroy}
use rcl_like_wrapper_for_fas.Transforms.Listener.Stop.{destroy-no_return}
use rcl_like_wrapper_for_fas.Transforms.Listener.Stores.{
  Arrival, arrival, event, empty_node, received, spin_round-received,
}

abbrev Stored : Type 0
Stored = List (Transform ℕ × Bool)

abbrev keep : Transform ℕ → Bool → Stored → SetResult Stored
keep t is_static b = stored ((t, is_static) ∷ b)

abbrev laser : ℕ → Transform ℕ
laser v = record { child_frame_id = "laser"; value = v }

abbrev arrivals : List (Arrival ℕ)
arrivals = arrival true (laser 1 ∷ []) ∷ arrival false (laser 2 ∷ laser 3 ∷ []) ∷ []

abbrev executor : Node (List (Transform ℕ)) → Executor (List (Transform ℕ)) Stored
executor n = record { nodes = some 7 ∷ []; locked = false; store = λ a. n; world = [] }

abbrev waiting : Executor (List (Transform ℕ)) Stored
waiting = executor (happen_all (map event arrivals) empty_node)

received-arrivals :
    received keep arrivals [] ≡ (laser 3, false) ∷ (laser 2, false) ∷ (laser 1, true) ∷ []
unfolding received subscription_callback
received-arrivals = refl

spin_round-received_example :
    Single.spin_round (callbacks keep) 4 waiting
    ≡ done (record waiting {
      store = update waiting.store 7 empty_node;
      world = received keep arrivals [];
    })
spin_round-received_example = spin_round-received keep arrivals 7 waiting refl refl refl

abbrev idle : Executor (List (Transform ℕ)) Stored
idle = executor empty_node

destroy-no_return_example :
    destroy (callbacks keep) 4 (λ j. false) (λ k x. x) 3 0 true idle ≢ done idle
destroy-no_return_example =
    destroy-no_return (callbacks keep) 4 (λ j. false) (λ k x. x) (λ j. refl) 3 0 idle idle
