-- ===== src/Node/Spin/Drain.antt =====
-- What `stop_spin` does to a node that spins: the spinning thread invokes what is still queued
-- and returns, in a number of moves bounded by the length of the queue.
use rcl_like_wrapper_for_fas.Base.{
  ℕ, suc, ◌+◌, ◌*◌, ◌≡◌, refl, ◌∙◌, ap, sym, map, Bool, true, false, Option, some, List, [], ◌∷◌,
  arith, length, Bool-cases, inl, inr,
}
use rcl_like_wrapper_for_fas.Channel.{produce, consume, close, is_closed}
use rcl_like_wrapper_for_fas.Subscriber.{
  Callback, subscription, timer, not_ok, sample, on_data_available,
}
use rcl_like_wrapper_for_fas.Node.{
  Node, Event, arrives, fires, stops, Program, happen, happen_all, invoke, invoke_buffer,
  after_message,
}
use rcl_like_wrapper_for_fas.Node.SpinSome.Order.{replay}
use rcl_like_wrapper_for_fas.Node.Spin.{System, consuming, ended, spin_move, spin_moves}

-- A node whose channel is closed.
abbrev pub shut_node : {M : Type 0} → List (Option Callback) → (ℕ → List M) → Node M
shut_node q bufs = record { channel = record { queue = q; closed = true }; buffers = bufs }

module _ {M : Type 0} where
  -- A closed channel takes nothing in and stays closed, whatever happens to the node.
  happen-shut :
      (e : Event M) (q : List (Option Callback)) (bufs : ℕ → List M)
      → happen e (shut_node q bufs) ≡ shut_node q (happen e (shut_node [] bufs)).buffers
  unfolding happen on_data_available produce close
  happen-shut (arrives i not_ok) q bufs = refl
  happen-shut (arrives i (sample m false)) q bufs = refl
  happen-shut (arrives i (sample m true)) q bufs = refl
  happen-shut (fires t) q bufs = refl
  happen-shut stops q bufs = refl

  happen_all-shut :
      (es : List (Event M)) (q : List (Option Callback)) (bufs : ℕ → List M)
      → happen_all es (shut_node q bufs) ≡ shut_node q (happen_all es (shut_node [] bufs)).buffers
  unfolding happen_all
  happen_all-shut [] q bufs = refl
  happen_all-shut (e ∷ es) q bufs =
      ap (happen_all es) (happen-shut e q bufs)
      ∙ happen_all-shut es q (happen e (shut_node [] bufs)).buffers
      ∙ ap (λ n. shut_node q (happen_all es n).buffers) (sym (happen-shut e [] bufs))

module _ {M W : Type 0} (p : Program M W) where
  invoke-shut :
      (k : Callback) (q : List (Option Callback)) (bufs : ℕ → List M) (w : W)
      → invoke p k (shut_node q bufs) w ≡ (
        shut_node q (invoke p k (shut_node [] bufs) w).0.buffers,
        (invoke p k (shut_node [] bufs) w).1,
      )
  unfolding invoke
  invoke-shut (timer t) q bufs w = rw (happen_all-shut (p.on_timer t w).during q bufs)
  invoke-shut (subscription i) q bufs w = by_buffer (bufs i)
    where
      by_buffer :
          (buffer : List M)
          → invoke_buffer p i buffer (shut_node q bufs) w ≡ (
            shut_node q (invoke_buffer p i buffer (shut_node [] bufs) w).0.buffers,
            (invoke_buffer p i buffer (shut_node [] bufs) w).1,
          )
      by_buffer [] = refl
      by_buffer (m ∷ rest) = elim (Bool-cases (p.on_message i m w).threw) [
        | inl e ↦ rw (e, after_message) (rw (happen_all-shut (p.on_message i m w).during q bufs))
        | inr e ↦ rw (e, after_message) (rw (happen_all-shut (p.on_message i m w).during q bufs))
      ]

  replay-shut :
      (ks : List Callback) (bufs : ℕ → List M) (w : W)
      → (replay p ks (shut_node [] bufs) w).0.channel ≡ record { queue = []; closed = true }
  unfolding replay
  replay-shut [] bufs w = refl
  replay-shut (k ∷ ks) bufs w =
      let (n, w') = invoke p k (shut_node [] bufs) w in
      ap (λ r. (replay p ks r.0 r.1).0.channel) (invoke-shut k [] bufs w)
      ∙ replay-shut ks n.buffers w'

  -- Two moves for each queued callback, and three to leave both loops.
  abbrev moves_needed : List Callback → ℕ
  moves_needed [] = 3
  moves_needed (k ∷ ks) = suc (suc (moves_needed ks))

  moves_needed_lem : (ks : List Callback) → moves_needed ks ≡ 2 * length ks + 3
  moves_needed_lem [] = refl
  moves_needed_lem (k ∷ ks) = omega (arith, moves_needed_lem ks)

  abbrev ended_in : Node M × W → Bool → System M W
  ended_in (n, w) flag = record { node = n; world = w; global_stop_flag = flag; pc = ended }

  abbrev resumed : Node M × W → Bool → System M W
  resumed (n, w) flag = record { node = n; world = w; global_stop_flag = flag; pc = consuming }

  spin_moves-shut :
      (ks : List Callback) (bufs : ℕ → List M) (w : W) (flag : Bool)
      → spin_moves p (moves_needed ks) (record {
        node = shut_node (map some ks) bufs;
        world = w;
        global_stop_flag = flag;
        pc = consuming;
      })
        ≡ ended_in (replay p ks (shut_node [] bufs) w) flag
  unfolding spin_moves spin_move consume replay is_closed close
  spin_moves-shut [] bufs w flag = refl
  spin_moves-shut (k ∷ ks) bufs w flag =
      let (n, w') = invoke p k (shut_node [] bufs) w in
      ap (λ r. spin_moves p (moves_needed ks) (resumed r flag)) (invoke-shut k (map some ks) bufs w)
      ∙ spin_moves-shut ks n.buffers w' flag
      ∙ ap (λ r. ended_in (replay p ks r.0 r.1) flag) (sym (invoke-shut k [] bufs w))

  -- Once the channel is closed, a thread in the inner loop of `spin` needs two moves for each
  -- queued callback and three more to return: it has then run the queued callbacks once each,
  -- first to last, whatever else their runs do to the node, and leaves the channel closed and empty.
  pub spin_moves-replay :
      (ks : List Callback) (s : System M W)
      → s.node.channel ≡ record { queue = map some ks; closed = true }
      → s.pc ≡ consuming
      → let (n, w) = replay p ks (shut_node [] s.node.buffers) s.world in
        (spin_moves p (2 * length ks + 3) s
          ≡ record { node = n; world = w; global_stop_flag = s.global_stop_flag; pc = ended })
        × (n.channel ≡ record { queue = []; closed = true })
  spin_moves-replay ks s e f =
      let same : s ≡ resumed (shut_node (map some ks) s.node.buffers, s.world) s.global_stop_flag =
        λ i. record {
          node = record { channel = e i; buffers = s.node.buffers };
          world = s.world;
          global_stop_flag = s.global_stop_flag;
          pc = f i;
        } in
      let stopped : System M W =
        resumed (shut_node (map some ks) s.node.buffers, s.world) s.global_stop_flag in
      (
        ap (spin_moves p (2 * length ks + 3)) same
            ∙ ap (λ n. spin_moves p n stopped) (sym (moves_needed_lem ks))
            ∙ spin_moves-shut ks s.node.buffers s.world s.global_stop_flag,
        replay-shut ks s.node.buffers s.world,
      )
