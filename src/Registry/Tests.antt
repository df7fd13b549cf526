-- ===== src/Registry/Tests.antt =====
-- A process with one live node, at address 1.
use rcl_like_wrapper_for_fas.Base.{ℕ, ◌≡◌, refl, [], ◌∷◌, some, none, false, if◌then◌else◌, ◌==◌}
use rcl_like_wrapper_for_fas.Outcome.{done, fault}
use rcl_like_wrapper_for_fas.Node.{Node}
use rcl_like_wrapper_for_fas.Executor.Laws.{holds}
use rcl_like_wrapper_for_fas.Registry.{
  Process, sigint, sigterm, lwrcl_signal_handler, construct_node, new_node, destroy_node, ok,
}
use rcl_like_wrapper_for_fas.Registry.Laws.{map_stop, signal_stops, destroyed-fault}

abbrev silent : Node ℕ
silent = record { channel = record { queue = []; closed = false }; buffers = λ _. [] }

abbrev one_node : Process ℕ
one_node = record {
  nodes = some 1 ∷ [];
  store = λ a. if a == 1 then some silent else none;
  global_stop_flag = false;
}

signal_stops_example :
    (r' : Process ℕ) × (lwrcl_signal_handler sigint one_node ≡ done r')
    × (r'.nodes ≡ some 1 ∷ [])
    × ((ok r' ≡ false)
        × ((a : ℕ)
            → r'.store a
              ≡ (if holds (some 1 ∷ []) a then map_stop (one_node.store a) else one_node.store a)))
signal_stops_example = signal_stops sigint one_node ((silent, refl), tt)

destroyed-fault_example :
    lwrcl_signal_handler sigterm (destroy_node 5 (construct_node 5 one_node)) ≡ fault
unfolding new_node
destroyed-fault_example =
    destroyed-fault sigterm (some 3) 5 one_node (construct_node 5 one_node) refl refl
