-- ===== src/Discovery/Tests.antt =====
-- Two participants, one of which leaves and is discovered twice.
use rcl_like_wrapper_for_fas.Base.{ℕ, ◌≡◌, refl, List, [], ◌∷◌, count}
use rcl_like_wrapper_for_fas.Discovery.{
  Status, discovered_participant, removed_participant, on_discoveries, on_participant_discovery,
}
use rcl_like_wrapper_for_fas.Discovery.Members.{on_discoveries-presence}

abbrev history : List (Status × ℕ)
history =
    (discovered_participant, 7)
    ∷ (discovered_participant, 8)
    ∷ (removed_participant, 7)
    ∷ (discovered_participant, 7)
    ∷ (discovered_participant, 7)
    ∷ []

there : on_discoveries history [] ≡ 7 ∷ 8 ∷ []
unfolding on_discoveries on_participant_discovery
there = refl

on_discoveries-presence_example : count 7 (on_discoveries history []) ≡ 1
on_discoveries-presence_example = on_discoveries-presence 7 history
