-- ===== src/Executor/Tests.antt =====
-- An executor of two nodes, at addresses 1 and 2.
use rcl_like_wrapper_for_fas.Base.{ℕ, ◌≡◌, ◌≢◌, refl, [], ◌∷◌, some, true, false, ◌⊎◌, update}
use rcl_like_wrapper_for_fas.Outcome.{done}
use rcl_like_wrapper_for_fas.Node.{Node, Program}
use rcl_like_wrapper_for_fas.Executor.{Executor, stop_nodes}
use rcl_like_wrapper_for_fas.Executor.Single
use rcl_like_wrapper_for_fas.Executor.Multi
use rcl_like_wrapper_for_fas.Executor.Multi.Stop.{IsSpinning, IsReleased, Reach-stop}
use rcl_like_wrapper_for_fas.Executor.Laws.{spin-no_return}

abbrev silent : Node ℕ
silent = record { channel = record { queue = []; closed = false }; buffers = λ _. [] }

abbrev pair : Executor ℕ ℕ
pair = record { nodes = some 1 ∷ some 2 ∷ []; locked = false; store = λ _. silent; world = 0 }

abbrev idle : Program ℕ ℕ
idle = record {
  on_message = λ i m w. record { world = w; threw = false; during = [] };
  on_timer = λ t w. record { world = w; threw = false; during = [] };
}

-- Both nodes are stopped before every round, and `spin` goes on.
abbrev stop_both : ℕ → Executor ℕ ℕ → Executor ℕ ℕ
stop_both k x = record x { store = stop_nodes x.nodes x.store }

spin-no_return_example : Single.spin idle 4 (λ _. false) stop_both 3 0 pair ≢ done pair
spin-no_return_example = spin-no_return idle 4 (λ _. false) stop_both (λ _. refl) 3 0 pair pair

-- `spin` waits for the threads of nodes 1 and 2; node 1 is closed from outside.
abbrev spinning : Multi.System
spinning = record {
  nodes = 1 ∷ 2 ∷ [];
  closed = λ _. false;
  finished = λ _. false;
  global_stop_flag = false;
  owner = some Multi.spinner;
  spin = Multi.joining;
  stop = Multi.before;
}

spinning-IsSpinning : IsSpinning spinning
spinning-IsSpinning = record {
  owned = refl;
  spins = refl;
  waits = refl;
  lowered = refl;
  opened = λ a. refl;
  working = λ a. refl;
}

abbrev one_closed : Multi.System
one_closed = record spinning { closed = update (λ _. false) 1 true }

Reach-one_closed : Multi.Reach spinning one_closed (1 ∷ [])
Reach-one_closed = Multi.next Multi.here (Multi.node_stops 1)

Reach-stop_example :
    ((one_closed.spin ≡ Multi.joining) × (one_closed.stop ≡ Multi.before))
    ⊎ IsReleased one_closed (1 ∷ []) (1 ∷ 2 ∷ [])
Reach-stop_example = Reach-stop spinning-IsSpinning Reach-one_closed
