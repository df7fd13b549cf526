-- ===== src/Discovery/Members.antt =====
-- The set against the sequence of the discoveries.
use rcl_like_wrapper_for_fas.Base.{
  ℕ, ◌≡◌, ◌≤◌, refl, ap, ◌∙◌, true, false, List, [], ◌∷◌, ◌==◌, contains, count, if◌then◌else◌,
  arith,
}
use rcl_like_wrapper_for_fas.Discovery.{
  Status, discovered_participant, removed_participant, other_status, insert, erase,
  on_participant_discovery, on_discoveries,
}

-- How often a GUID is there after the discoveries, from how often it was there before.
abbrev pub presence : ℕ → List (Status × ℕ) → ℕ → ℕ
presence g [] before = before
presence g ((discovered_participant, guid) ∷ infos) before =
    presence g infos (if guid == g then 1 else before)
presence g ((removed_participant, guid) ∷ infos) before =
    presence g infos (if guid == g then 0 else before)
presence g ((other_status, guid) ∷ infos) before = presence g infos before

contains-count : (g : ℕ) (l : List ℕ) → contains l g ≡ (if count g l == 0 then false else true)
contains-count g [] = refl
contains-count g (x ∷ l) = ground (arith, contains-count g l)

insert-count :
    (g guid : ℕ) (l : List ℕ)
    → count guid l ≤ 1
    → count g (insert guid l) ≡ (if guid == g then 1 else count g l)
unfolding insert
insert-count g guid l h = ground (arith, contains-count guid l)

erase-count :
    (g guid : ℕ) (l : List ℕ) → count g (erase guid l) ≡ (if guid == g then 0 else count g l)
unfolding erase
erase-count g guid [] = ground arith
erase-count g guid (x ∷ l) = ground (arith, erase-count g guid l)

step-small :
    (status : Status) (guid : ℕ) (l : List ℕ)
    → ((g : ℕ) → count g l ≤ 1)
    → (g : ℕ) → count g (on_participant_discovery status guid l) ≤ 1
unfolding on_participant_discovery
step-small discovered_participant guid l h g = ground (arith, h g, insert-count g guid l (h guid))
step-small removed_participant guid l h g = ground (arith, h g, erase-count g guid l)
step-small other_status guid l h g = h g

on_discoveries-from :
    (g : ℕ) (infos : List (Status × ℕ)) (l : List ℕ)
    → ((g : ℕ) → count g l ≤ 1)
    → count g (on_discoveries infos l) ≡ presence g infos (count g l)
unfolding on_discoveries on_participant_discovery
on_discoveries-from g [] l h = refl
on_discoveries-from g ((discovered_participant, guid) ∷ infos) l h =
    on_discoveries-from g infos (insert guid l) (step-small discovered_participant guid l h)
    ∙ ap (presence g infos) (insert-count g guid l (h guid))
on_discoveries-from g ((removed_participant, guid) ∷ infos) l h =
    on_discoveries-from g infos (erase guid l) (step-small removed_participant guid l h)
    ∙ ap (presence g infos) (erase-count g guid l)
on_discoveries-from g ((other_status, guid) ∷ infos) l h = on_discoveries-from g infos l h

-- After any sequence of discoveries each GUID is once in the set if the last discovery or removal
-- of it was a discovery, and otherwise not at all.
pub on_discoveries-presence :
    (g : ℕ) (infos : List (Status × ℕ)) → count g (on_discoveries infos []) ≡ presence g infos 0
on_discoveries-presence g infos = on_discoveries-from g infos [] (λ x. omega arith)
