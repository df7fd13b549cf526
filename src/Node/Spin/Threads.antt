-- ===== src/Node/Spin/Threads.antt =====
-- The spinning thread beside the listeners of lwrcl/libraries/src/lwrcl/include/subscriber.hpp, whose
-- two writes to the message buffer and to the channel are steps of their own. Fast DDS calls the
-- listener of one reader again only when the last call has returned.
use rcl_like_wrapper_for_fas.Base.{ℕ, ◌≡◌, List, [], ◌∷◌, update}
use rcl_like_wrapper_for_fas.Subscriber.{Sample, Write, writes_of, write}
use rcl_like_wrapper_for_fas.Node.{Node, Program}
use rcl_like_wrapper_for_fas.Node.Spin.{System}
use rcl_like_wrapper_for_fas.Node.Spin as spin

-- `left i` are the writes that the listener of subscriber `i` has before it.
pub record Threads (M W : Type 0) : Type 0 where
  pub system : System M W
  pub left : ℕ → List (Write M)

unfoldable pub write_node : {M : Type 0} → ℕ → Write M → Node M → Node M
write_node i x n =
    let r = write i x (n.buffers i, n.channel) in
    record { channel = r.1; buffers = update n.buffers i r.0 }

module _ {M W : Type 0} (p : Program M W) where
  -- `moves` is a step of the spinning thread, of a timer, of a call that stops the node or of the
  -- flag, or a call of a listener between whose writes no step falls.
  pub data Step (s : Threads M W) : Threads M W → Type 0 where
    moves : {t : System M W} → spin.Step p s.system t → Step s (record s { system = t })
    takes :
        (i : ℕ) (x : Sample M)
        → s.left i ≡ []
        → Step s (record s { left = update s.left i (writes_of x) })
    writes :
        (i : ℕ) (x : Write M) (xs : List (Write M))
        → s.left i ≡ x ∷ xs
        → Step s (record {
          system = record s.system { node = write_node i x s.system.node };
          left = update s.left i xs;
        })

  pub data Reach (s : Threads M W) : Threads M W → Type 0 where
    here : Reach s s
    next : {t u : Threads M W} → Reach s t → Step t u → Reach s u
