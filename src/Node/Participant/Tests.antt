-- ===== src/Node/Participant/Tests.antt =====
-- Two nodes with one participant.
use rcl_like_wrapper_for_fas.Base.{◌≡◌, refl, false, none, some, List, [], ◌∷◌}
use rcl_like_wrapper_for_fas.Node.Participant.{
  Sharing, Event, construct, construct_shared, create_entity, get_participant, release_handle,
  destroy, run, step,
}
use rcl_like_wrapper_for_fas.Node.Participant.Safety.{IsShared, run-IsShared}

abbrev nobody : Sharing
nobody = record {
  members = [];
  handles = λ p. 0;
  use_count = λ p. 0;
  alive = λ p. false;
  clients = λ p. 0;
}

nobody-IsShared : IsShared nobody
nobody-IsShared = record { count = λ p. refl; exists = λ p. refl; entities = λ p. refl }

-- Node 2 outlives node 1, whose participant it shares.
abbrev history : List Event
history =
    construct 1 (some 9)
    ∷ create_entity 1
    ∷ get_participant 1
    ∷ construct_shared 2 9
    ∷ release_handle 9
    ∷ destroy 1
    ∷ create_entity 2
    ∷ destroy 2
    ∷ construct 3 none
    ∷ construct 4 (some 9)
    ∷ []

run-IsShared_example : (s : Sharing) × (run history nobody ≡ some s) × IsShared s
unfolding step
run-IsShared_example =
    run-IsShared history nobody nobody-IsShared
      (refl, (tt, (tt, (tt, (tt, (tt, (tt, (tt, (tt, (refl, tt))))))))))
