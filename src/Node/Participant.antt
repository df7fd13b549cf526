-- ===== src/Node/Participant.antt =====
-- The participant that the nodes of lwrcl share (lwrcl/libraries/src/lwrcl/include/lwrcl.hpp and
-- src/lwrcl.cpp): the `shared_ptr` of the constructors, `get_participant`, the destructor and
-- `DomainParticipantDeleter`. Participants and nodes are numbers. The publishers, subscriptions and
-- their topics that a node has made are counted as its entities; each is a client of the participant.
pub mod Safety
pub mod Tests
use rcl_like_wrapper_for_fas.Base.{
  ℕ, suc, ◌+◌, ◌-◌, Bool, true, false, not, ◌&&◌, Option, none, some, List, [], ◌∷◌, ◌==◌,
  if◌then◌else◌, update, leb,
}
use rcl_like_wrapper_for_fas.Base.Int64.{◌>>=◌}

pub record Member : Type 0 where
  pub node : ℕ
  pub participant : ℕ
  pub entities : ℕ

-- `use_count p` is that of the shared pointers to participant `p`, `handles p` the number of those
-- that callers of get_participant keep. `alive` and `clients` are on the side of Fast DDS: which
-- participants exist, and how many entities they have.
pub record Sharing : Type 0 where
  pub members : List Member
  pub handles : ℕ → ℕ
  pub use_count : ℕ → ℕ
  pub alive : ℕ → Bool
  pub clients : ℕ → ℕ

pub data Event : Type 0 where
  -- Node(domain_id), with what create_participant returns; `none` is a null pointer
  construct : (node : ℕ) (answer : Option ℕ) → Event
  -- Node(participant), with a handle that the caller keeps
  construct_shared : (node participant : ℕ) → Event
  -- create_publisher or create_subscription of a node
  create_entity : (node : ℕ) → Event
  get_participant : (node : ℕ) → Event
  -- the end of a handle
  release_handle : (participant : ℕ) → Event
  destroy : (node : ℕ) → Event

abbrev pub find : ℕ → List Member → Option Member
find a [] = none
find a (m ∷ ms) = let rest = find a ms in if m.node == a then some m else rest

abbrev pub without : ℕ → List Member → List Member
without a [] = []
without a (m ∷ ms) = let rest = without a ms in if m.node == a then ms else m ∷ rest

-- The end of a shared pointer: the last one calls the deleter, that is delete_participant, which
-- asks for a participant that exists and has no entities.
unfoldable pub release : ℕ → Sharing → Option Sharing
release p s =
    if s.use_count p == 1
    then (if s.alive p && (s.clients p == 0)
        then some (record s { use_count = update s.use_count p 0; alive = update s.alive p false })
        else none)
    else some (record s { use_count = update s.use_count p (s.use_count p - 1) })

-- A copy of a shared pointer.
unfoldable pub retain : ℕ → Sharing → Sharing
retain p s = record s { use_count = update s.use_count p (s.use_count p + 1) }

abbrev pub member : ℕ → ℕ → Member
member a p = record { node = a; participant = p; entities = 0 }

unfoldable pub construct_own : ℕ → Option ℕ → Sharing → Sharing
construct_own a none s = s
construct_own a (some p) s = record s {
  members = member a p ∷ s.members;
  use_count = update s.use_count p 1;
  alive = update s.alive p true;
  clients = update s.clients p 0;
}

unfoldable pub join : ℕ → ℕ → Sharing → Sharing
unfolding retain
join a p s = retain p (record s { members = member a p ∷ s.members })

-- A call of the participant asks for one that exists.
unfoldable pub add_entity : ℕ → Option Member → Sharing → Option Sharing
add_entity a none s = some s
add_entity a (some m) s =
    if s.alive m.participant
    then some (record s {
      members = record m { entities = m.entities + 1 } ∷ without a s.members;
      clients = update s.clients m.participant (s.clients m.participant + 1);
    })
    else none

unfoldable pub keep_handle : Option Member → Sharing → Sharing
unfolding retain
keep_handle none s = s
keep_handle (some m) s =
    retain m.participant
      (record s { handles = update s.handles m.participant (s.handles m.participant + 1) })

-- ~Node: the lists are cleared, which deletes the entities; then the members end, the participant,
-- which is declared first, as the last of them.
unfoldable pub leave : ℕ → Option Member → Sharing → Option Sharing
unfolding release
leave a none s = some s
leave a (some m) s =
    if s.alive m.participant && leb m.entities (s.clients m.participant)
    then release m.participant (record s {
      members = without a s.members;
      clients = update s.clients m.participant (s.clients m.participant - m.entities);
    })
    else none

-- An event; `none` is a call of a participant that does not exist, or its deletion while it has
-- entities. An event for a node that is not there does nothing.
unfoldable pub step : Event → Sharing → Option Sharing
unfolding construct_own join add_entity keep_handle release leave
step (construct a answer) s = some (construct_own a answer s)
step (construct_shared a p) s = if s.handles p == 0 then some s else some (join a p s)
step (create_entity a) s = add_entity a (find a s.members) s
step (get_participant a) s = some (keep_handle (find a s.members) s)
step (release_handle p) s =
    if s.handles p == 0
    then some s
    else release p (record s { handles = update s.handles p (s.handles p - 1) })
step (destroy a) s = leave a (find a s.members) s

unfoldable pub run : List Event → Sharing → Option Sharing
run [] s = some s
run (e ∷ es) s = do s' ← step e s; run es s'
