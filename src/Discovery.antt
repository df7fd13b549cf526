-- ===== src/Discovery.antt =====
-- CustomParticipantListener of
-- lwrcl/libraries/src/domain_participant_counter/src/domain_participant_counter.cpp: the set of
-- the participants that are there, as a list. A GUID is the number of its bytes, which GUIDEqual
-- compares. The callback runs under the listener's mutex.
pub mod Members
pub mod Tests
use rcl_like_wrapper_for_fas.Base.{
  ℕ, Bool, true, false, List, [], ◌∷◌, ◌==◌, contains, Option, none, some, if◌then◌else◌, length,
}

-- `ParticipantDiscoveryInfo::status`; every other status leaves the set alone.
pub data Status : Type 0 where
  discovered_participant removed_participant other_status : Status

-- `insert` and `erase` of std::unordered_set.
insert : ℕ → List ℕ → List ℕ
insert guid participants = if contains participants guid then participants else guid ∷ participants

erase : ℕ → List ℕ → List ℕ
erase guid [] = []
erase guid (g ∷ participants) =
    let rest = erase guid participants in if g == guid then rest else g ∷ rest

unfoldable pub on_participant_discovery : Status → ℕ → List ℕ → List ℕ
unfolding insert erase
on_participant_discovery discovered_participant guid participants = insert guid participants
on_participant_discovery removed_participant guid participants = erase guid participants
on_participant_discovery other_status guid participants = participants

unfoldable pub on_discoveries : List (Status × ℕ) → List ℕ → List ℕ
on_discoveries [] participants = participants
on_discoveries ((status, guid) ∷ infos) participants =
    on_discoveries infos (on_participant_discovery status guid participants)

-- `main`, from what create_participant returns: its status, and `none` where it never ends. A null
-- pointer is `none`.
unfoldable pub main : Option ℕ → Option ℕ
main none = some 1
main (some participant) = none
