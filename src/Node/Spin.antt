-- ===== src/Node/Spin.antt =====
-- `Node::spin` (lwrcl/libraries/src/lwrcl/src/lwrcl.cpp) beside the threads that feed it: the
-- listener and timer threads, `stop_spin` from anywhere, and the signal handler that raises
-- `global_stop_flag`. One move of the spinning thread runs to its next access of the channel or
-- the flag, or through one `invoke`.
pub mod Threads
pub mod Inbox
pub mod Drain
pub mod Delivery
use rcl_like_wrapper_for_fas.Base.{
  Bool, true, false, not, ◌&&◌, ◌||◌, Option, none, some, if◌then◌else◌, ◌≡◌, List, [], ◌∷◌, ℕ,
  zero, suc,
}
use rcl_like_wrapper_for_fas.Channel.{
  Channel, Consumed, waits, finished, took, consume, close, is_closed,
}
use rcl_like_wrapper_for_fas.Subscriber.{Callback}
use rcl_like_wrapper_for_fas.Node.{Node, Event, Program, happen, invoke}

-- Where the spinning thread stands: at the test of the outer loop, at the inner `consume`, about to
-- invoke what it took, at the final `close`, or returned.
pub data Pc : Type 0 where
  testing consuming closing ended : Pc
  invoking : Option Callback → Pc

pub record System (M W : Type 0) : Type 0 where
  pub node : Node M
  pub world : W
  pub global_stop_flag : Bool
  pub pc : Pc

module _ {M W : Type 0} (p : Program M W) where
  after_consume : System M W → Consumed (Option Callback) → System M W
  after_consume s waits = s
  after_consume s finished = record s { pc = testing }
  after_consume s (took callback c) =
      let n = s.node in record s { node = record n { channel = c }; pc = invoking callback }

  after_invoke : System M W → Node M × W → System M W
  after_invoke s (n, w) = record s { node = n; world = w; pc = consuming }

  move : Pc → System M W → System M W
  unfolding after_consume after_invoke
  move testing s =
      let n = s.node in
      if not (is_closed n.channel) && not s.global_stop_flag
      then record s { pc = consuming }
      else record s { pc = closing }
  move consuming s = let n = s.node in after_consume s (consume n.channel)
  move (invoking none) s = record s { pc = consuming }
  move (invoking (some callback)) s = after_invoke s (invoke p callback s.node s.world)
  move closing s =
      let n = s.node in record s { node = record n { channel = close n.channel }; pc = ended }
  move ended s = s

  -- One move; a thread that waits in `consume`, or has returned, stays where it is.
  unfoldable pub spin_move : System M W → System M W
  unfolding move
  spin_move s = move s.pc s

  unfoldable pub spin_moves : ℕ → System M W → System M W
  spin_moves zero s = s
  spin_moves (suc n) s = spin_moves n (spin_move s)

  -- Any interleaving of the spinning thread with the others.
  pub data Step (s : System M W) : System M W → Type 0 where
    spins : Step s (spin_move s)
    happens : (e : Event M) → Step s (record s { node = happen e s.node })
    raises : Step s (record s { global_stop_flag = true })

  pub data Reach (s : System M W) : System M W → Type 0 where
    here : Reach s s
    next : {t u : System M W} → Reach s t → Step t u → Reach s u
