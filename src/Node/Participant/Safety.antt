-- ===== src/Node/Participant/Safety.antt =====
-- No participant is used after its deletion, deleted twice or deleted with entities
-- (DomainParticipantDeleter of lwrcl.hpp).
use rcl_like_wrapper_for_fas.Base.{
  ℕ, ◌+◌, ◌-◌, ◌<◌, ◌≡◌, refl, subst, ◌∙◌, true, false, ◌&&◌, Option, none, some, List, [], ◌∷◌,
  ◌==◌, if◌then◌else◌, update, leb, ltb, arith, Bool-cases, inl, inr,
}
use rcl_like_wrapper_for_fas.Node.Participant.{
  Member, Sharing, Event, construct, construct_shared, create_entity, get_participant,
  release_handle, destroy, find, without, release, retain, construct_own, join, add_entity,
  keep_handle, leave, step, run,
}

-- The nodes that hold a participant, and their entities.
abbrev pub held : ℕ → List Member → ℕ
held p [] = 0
held p (m ∷ ms) = (if m.participant == p then 1 else 0) + held p ms

abbrev pub owned : ℕ → List Member → ℕ
owned p [] = 0
owned p (m ∷ ms) = (if m.participant == p then m.entities else 0) + owned p ms

-- The use count is that of the nodes and the kept handles, a participant exists as long as it is not
-- zero, and the entities are those of the nodes.
pub record IsShared (s : Sharing) : Type 0 where
  pub count : (p : ℕ) → s.use_count p ≡ held p s.members + s.handles p
  pub exists : (p : ℕ) → s.alive p ≡ ltb 0 (s.use_count p)
  pub entities : (p : ℕ) → s.clients p ≡ owned p s.members

-- Fast DDS returns a new participant, and not one that exists.
abbrev pub IsFresh : Event → Sharing → Type 0
IsFresh (construct a (some p)) s = s.alive p ≡ false
IsFresh _ s = Unit

abbrev pub AreFresh : List Event → Option Sharing → Type 0
AreFresh es none = Unit
AreFresh [] (some s) = Unit
AreFresh (e ∷ es) (some s) = IsFresh e s × AreFresh es (step e s)

-- What the list loses with a node.
abbrev Loses : ℕ → List Member → Member → ℕ → Type 0
Loses a ms m p =
    (held p ms ≡ (if m.participant == p then 1 else 0) + held p (without a ms))
    × (owned p ms ≡ (if m.participant == p then m.entities else 0) + owned p (without a ms))

find-Loses : (a : ℕ) (ms : List Member) (m : Member) (p : ℕ) → find a ms ≡ some m → Loses a ms m p
find-Loses a [] m p e = absurd (ground arith)
find-Loses a (n ∷ ms) m p e = elim (Bool-cases (n.node == a)) [
  | inl h ↦ grind (arith, h)
  | inr h ↦ grind (arith, h, find-Loses a ms m p)
]

owned-held : (p : ℕ) (ms : List Member) → held p ms ≡ 0 → owned p ms ≡ 0
owned-held p [] h = refl
owned-held p (m ∷ ms) h = elim (Bool-cases (m.participant == p)) [
  | inl e ↦ absurd (ground arith)
  | inr e ↦ ground (arith, owned-held p ms)
]

-- One shared pointer to `p` is about to end.
record IsEnding (p : ℕ) (s : Sharing) : Type 0 where
  count : (q : ℕ) → s.use_count q ≡ held q s.members + s.handles q + (if p == q then 1 else 0)
  exists : (q : ℕ) → s.alive q ≡ ltb 0 (s.use_count q)
  entities : (q : ℕ) → s.clients q ≡ owned q s.members

abbrev Keeps : Option Sharing → Type 0
Keeps o = (s : Sharing) × (o ≡ some s) × IsShared s

release-IsShared : (p : ℕ) (s : Sharing) → IsEnding p s → Keeps (release p s)
unfolding release
release-IsShared p s h = elim (Bool-cases (s.use_count p == 1)) [
  | inl one ↦ (
    record s { use_count = update s.use_count p 0; alive = update s.alive p false },
    ground (arith, one, h.count p, h.exists p, h.entities p, owned-held p s.members),
    record {
      count = λ q. ground (arith, h.count p, h.count q);
      exists = λ q. ground (arith, h.exists q);
      entities = h.entities;
    },
  )
  | inr more ↦ (
    record s { use_count = update s.use_count p (s.use_count p - 1) },
    rw more refl,
    record {
      count = λ q. ground (arith, h.count p, h.count q);
      exists = λ q. ground (arith, h.count p, h.exists q);
      entities = h.entities;
    },
  )
]

construct_own-IsShared :
    (a : ℕ) (answer : Option ℕ) (s : Sharing)
    → IsFresh (construct a answer) s
    → IsShared s
    → IsShared (construct_own a answer s)
unfolding construct_own
construct_own-IsShared a none s fresh h = h
construct_own-IsShared a (some p) s fresh h = record {
  count = λ q. ground (arith, h.count p, h.count q, h.exists p);
  exists = λ q. ground (arith, h.exists q);
  entities = λ q. ground (arith, h.entities q, h.count p, h.exists p, owned-held p s.members);
}

join-IsShared : (a p : ℕ) (s : Sharing) → IsShared s → 0 < s.handles p → IsShared (join a p s)
unfolding join retain
join-IsShared a p s h k = record {
  count = λ q. ground (arith, h.count q);
  exists = λ q. ground (arith, h.exists q, h.count p);
  entities = λ q. ground (arith, h.entities q);
}

keep_handle-IsShared :
    (a : ℕ) (o : Option Member) (s : Sharing)
    → find a s.members ≡ o
    → IsShared s
    → IsShared (keep_handle o s)
unfolding keep_handle retain
keep_handle-IsShared a none s e h = h
keep_handle-IsShared a (some m) s e h = record {
  count = λ q. ground (arith, h.count q);
  exists = λ q.
      ground (arith, h.exists q, h.count m.participant, find-Loses a s.members m m.participant e);
  entities = h.entities;
}

add_entity-IsShared :
    (a : ℕ) (o : Option Member) (s : Sharing)
    → find a s.members ≡ o
    → IsShared s
    → Keeps (add_entity a o s)
unfolding add_entity
add_entity-IsShared a none s e h = (s, refl, h)
add_entity-IsShared a (some m) s e h = (
  record s {
    members = record m { entities = m.entities + 1 } ∷ without a s.members;
    clients = update s.clients m.participant (s.clients m.participant + 1);
  },
  ground (
    arith,
    h.exists m.participant,
    h.count m.participant,
    find-Loses a s.members m m.participant e,
  ),
  record {
    count = λ q. ground (arith, h.count q, find-Loses a s.members m q e);
    exists = h.exists;
    entities =
        λ q. ground (arith, h.entities q, h.entities m.participant, find-Loses a s.members m q e);
  },
)

leave-IsShared :
    (a : ℕ) (o : Option Member) (s : Sharing)
    → find a s.members ≡ o
    → IsShared s
    → Keeps (leave a o s)
unfolding leave
leave-IsShared a none s e h = (s, refl, h)
leave-IsShared a (some m) s e h =
    let after : Sharing = record s {
      members = without a s.members;
      clients = update s.clients m.participant (s.clients m.participant - m.entities);
    } in
    let guard : (s.alive m.participant && leb m.entities (s.clients m.participant)) ≡ true =
      ground (
        arith,
        h.exists m.participant,
        h.count m.participant,
        h.entities m.participant,
        find-Loses a s.members m m.participant e,
      ) in
    let (s', ended, shared) = release-IsShared m.participant after (record {
      count = λ q. ground (arith, h.count q, find-Loses a s.members m q e);
      exists = h.exists;
      entities = λ q. ground (arith, h.entities q, find-Loses a s.members m q e);
    }) in
    (s', rw guard refl ∙ ended, shared)

step-IsShared : (e : Event) (s : Sharing) → IsFresh e s → IsShared s → Keeps (step e s)
unfolding step
step-IsShared (construct a answer) s fresh h =
    (construct_own a answer s, refl, construct_own-IsShared a answer s fresh h)
step-IsShared (construct_shared a p) s fresh h = elim (Bool-cases (s.handles p == 0)) [
  | inl e ↦ (s, rw e refl, h)
  | inr e ↦ (join a p s, rw e refl, join-IsShared a p s h (ground arith))
]
step-IsShared (create_entity a) s fresh h = add_entity-IsShared a _ s refl h
step-IsShared (get_participant a) s fresh h =
    (keep_handle (find a s.members) s, refl, keep_handle-IsShared a _ s refl h)
step-IsShared (release_handle p) s fresh h = elim (Bool-cases (s.handles p == 0)) [
  | inl e ↦ (s, rw e refl, h)
  | inr e ↦
      let (s', ended, shared) =
        release-IsShared p (record s { handles = update s.handles p (s.handles p - 1) })
          (record {
            count = λ q. ground (arith, h.count q);
            exists = h.exists;
            entities = h.entities;
          }) in
      (s', rw e ended, shared)
]
step-IsShared (destroy a) s fresh h = leave-IsShared a _ s refl h

-- Whatever nodes are constructed with a participant of their own or a shared one, whatever they
-- create, and in whatever order nodes and kept handles end, no call goes to a participant that does
-- not exist, none is deleted with entities, and afterwards a participant exists if and only if a
-- node or a handle holds it: when Fast DDS returns no participant that exists already.
pub run-IsShared :
    (es : List Event) (s : Sharing)
    → IsShared s
    → AreFresh es (some s)
    → (s' : Sharing) × (run es s ≡ some s') × IsShared s'
unfolding run
run-IsShared [] s h fresh = (s, refl, h)
run-IsShared (e ∷ es) s h fresh =
    let (s1, one, shared) = step-IsShared e s fresh.0 h in
    let (s2, rest, end) = run-IsShared es s1 shared (subst (AreFresh es) one fresh.1) in
    (s2, rw one rest, end)
