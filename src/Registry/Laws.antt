-- ===== src/Registry/Laws.antt =====
-- What a signal does to the nodes of the process.
use rcl_like_wrapper_for_fas.Base.{
  ℕ, ◌≡◌, refl, Bool, true, false, Option, none, some, List, [], ◌∷◌, ◌++◌, if◌then◌else◌, ◌==◌,
  arith, Bool-cases, Option-cases, ==_self, inl, inr,
}
use rcl_like_wrapper_for_fas.Channel.{close}
use rcl_like_wrapper_for_fas.Outcome.{Outcome, done, fault}
use rcl_like_wrapper_for_fas.Node.{Node, stop_spin}
use rcl_like_wrapper_for_fas.Executor.Laws.{holds, holds-append_one}
use rcl_like_wrapper_for_fas.Registry.{
  Process, Signal, sigint, sigterm, other_signal, add_node, notify_nodes, notify_all,
  lwrcl_signal_handler, construct_node, new_node, destroy_node, ok, place,
}

abbrev pub map_stop : {M : Type 0} → Option (Node M) → Option (Node M)
map_stop none = none
map_stop (some n) = some (stop_spin n)

abbrev pub stops : Signal → Bool
stops sigint = true
stops sigterm = true
stops (other_signal n) = false

module _ {M : Type 0} where
  -- Every registered pointer that is not null points to a live node.
  abbrev pub Alive : List (Option ℕ) → (ℕ → Option (Node M)) → Type 0
  Alive [] store = Unit
  Alive (none ∷ ps) store = Alive ps store
  Alive (some a ∷ ps) store = ((n : Node M) × (store a ≡ some n)) × Alive ps store

  Alive-place :
      (ps : List (Option ℕ)) (store : ℕ → Option (Node M)) (a : ℕ) (n : Node M)
      → Alive ps store
      → Alive ps (place store a (some n))
  Alive-place [] store a n h = tt
  Alive-place (none ∷ ps) store a n h = Alive-place ps store a n h
  Alive-place (some b ∷ ps) store a n h = elim (Bool-cases (a == b)) [
    | inl e ↦ ((n, rw e refl), Alive-place ps store a n h.1)
    | inr e ↦ ((h.0.0, rw e (h.0.1)), Alive-place ps store a n h.1)
  ]

  Notified : List (Option ℕ) → (ℕ → Option (Node M)) → Outcome (ℕ → Option (Node M)) → Type 0
  Notified ps store r =
      (store' : ℕ → Option (Node M)) × (r ≡ done store')
      × ((a : ℕ) → store' a ≡ (if holds ps a then map_stop (store a) else store a))

  notify_nodes-Notified :
      (ps : List (Option ℕ)) (store : ℕ → Option (Node M))
      → Alive ps store
      → Notified ps store (notify_nodes ps store)
  unfolding notify_nodes Notified stop_spin close
  notify_nodes-Notified [] store h = (store, refl, λ a. refl)
  notify_nodes-Notified (none ∷ ps) store h = notify_nodes-Notified ps store h
  notify_nodes-Notified (some b ∷ ps) store ((n, e), h) =
      let stopped = place store b (some (stop_spin n)) in
      let (store', run, each) = notify_nodes-Notified ps stopped (Alive-place ps store b _ h) in
      (store', ground arith, λ a. ground (arith, each a))

  notify_nodes-fault :
      (ps : List (Option ℕ)) (store : ℕ → Option (Node M)) (a : ℕ)
      → holds ps a ≡ true
      → store a ≡ none
      → notify_nodes ps store ≡ fault
  unfolding notify_nodes
  notify_nodes-fault [] store a h e = cc
  notify_nodes-fault (none ∷ ps) store a h e = notify_nodes-fault ps store a h e
  notify_nodes-fault (some b ∷ ps) store a h e = elim (Option-cases (store b)) [
    | inl dead ↦ ground arith
    | inr (n, live) ↦ ground (arith, notify_nodes-fault ps (place store b (some (stop_spin n))) a)
  ]

  -- SIGINT and SIGTERM, while every registered node is alive: the handler returns with the flag
  -- raised, so that `ok` is false, the channel of every registered node closed, and every other node
  -- and the registry as they were. Any other signal changes nothing.
  pub signal_stops :
      (signal : Signal) (r : Process M)
      → Alive r.nodes r.store
      → (r' : Process M) × (lwrcl_signal_handler signal r ≡ done r')
        × (r'.nodes ≡ r.nodes)
        × (if stops signal
            then (ok r' ≡ false)
              × ((a : ℕ)
                  → r'.store a ≡ (if holds r.nodes a then map_stop (r.store a) else r.store a))
            else r' ≡ r)
  unfolding lwrcl_signal_handler notify_all ok Notified
  signal_stops sigint r h =
      let (store, run, each) = notify_nodes-Notified r.nodes r.store h in
      (record r { store = store; global_stop_flag = true }, rw run, refl, (refl, each))
  signal_stops sigterm r h =
      let (store, run, each) = notify_nodes-Notified r.nodes r.store h in
      (record r { store = store; global_stop_flag = true }, rw run, refl, (refl, each))
  signal_stops (other_signal n) r h = (r, refl, refl, refl)

  notify_nodes-destroyed :
      (ps : List (Option ℕ)) (store : ℕ → Option (Node M)) (a : ℕ) (n : Option (Node M))
      → notify_nodes (ps ++ (some a ∷ [])) (place (place store a n) a none) ≡ fault
  notify_nodes-destroyed ps store a n =
      notify_nodes-fault (ps ++ (some a ∷ [])) (place (place store a n) a none) a
        (rw (holds-append_one ps a a) (rw (==_self a))) (rw (==_self a))

  constructed-fault :
      (signal : Signal) (a : ℕ) (r : Process M)
      → stops signal ≡ true
      → lwrcl_signal_handler signal (destroy_node a (construct_node a r)) ≡ fault
  unfolding lwrcl_signal_handler notify_all destroy_node construct_node add_node
  constructed-fault sigint a r h = rw (notify_nodes-destroyed r.nodes r.store a _)
  constructed-fault sigterm a r h = rw (notify_nodes-destroyed r.nodes r.store a _)
  constructed-fault (other_signal n) a r h = cc

  -- A node whose constructor returned and that has been destroyed stays in the registry, so that
  -- SIGINT and SIGTERM make the handler call `stop_spin` on it.
  pub destroyed-fault :
      (signal : Signal) (participant : Option ℕ) (a : ℕ) (r r' : Process M)
      → stops signal ≡ true
      → new_node participant a r ≡ some r'
      → lwrcl_signal_handler signal (destroy_node a r') ≡ fault
  unfolding new_node
  destroyed-fault signal none a r r' h k = cc
  destroyed-fault signal (some participant) a r r' h k =
      ground (arith, constructed-fault signal a r h)
