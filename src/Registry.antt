-- ===== src/Registry.antt =====
-- `HandlerRegistry`, `global_stop_flag` and `lwrcl_signal_handler` of
-- lwrcl/libraries/src/lwrcl/src/lwrcl.cpp, with the parts of the constructors and the destructor
-- of `Node` that concern them, and `ok`. The handler is modelled at a point where no thread holds
-- `registry_mutex`.
pub mod Laws
pub mod Tests
use rcl_like_wrapper_for_fas.Base.{
  ℕ, Bool, true, false, Option, none, some, List, [], ◌∷◌, ◌++◌, if◌then◌else◌, not, ◌==◌,
}
use rcl_like_wrapper_for_fas.Channel.{empty}
use rcl_like_wrapper_for_fas.Outcome.{Outcome, done, fault, ◌>>=◌}
use rcl_like_wrapper_for_fas.Node.{Node, stop_spin}
use rcl_like_wrapper_for_fas.Executor.{erase_all}

-- `store a` is the node that lives at address `a`; a null pointer in `nodes` is `none`.
pub record Process (M : Type 0) : Type 0 where
  pub nodes : List (Option ℕ)
  pub store : ℕ → Option (Node M)
  pub global_stop_flag : Bool

pub data Signal : Type 0 where
  sigint sigterm : Signal
  other_signal : ℕ → Signal

module _ {M : Type 0} where
  unfoldable pub add_node : Option ℕ → Process M → Process M
  add_node node r = record r { nodes = r.nodes ++ (node ∷ []) }

  unfoldable pub remove_node : Option ℕ → Process M → Process M
  remove_node node r = record r { nodes = erase_all node r.nodes }

  abbrev pub place : (ℕ → Option (Node M)) → ℕ → Option (Node M) → ℕ → Option (Node M)
  place store a n b = if a == b then n else store b

  stop_at : ℕ → Option (Node M) → (ℕ → Option (Node M)) → Outcome (ℕ → Option (Node M))
  stop_at a none store = fault
  stop_at a (some n) store = done (place store a (some (stop_spin n)))

  -- The loop of `notify_all`; `fault` is a call on a node that has been destroyed.
  unfoldable pub notify_nodes :
      List (Option ℕ) → (ℕ → Option (Node M)) → Outcome (ℕ → Option (Node M))
  unfolding stop_at
  notify_nodes [] store = done store
  notify_nodes (none ∷ ps) store = notify_nodes ps store
  notify_nodes (some a ∷ ps) store = do store' ← stop_at a (store a) store; notify_nodes ps store'

  unfoldable pub notify_all : Process M → Outcome (Process M)
  notify_all r = do store ← notify_nodes r.nodes r.store; done (record r { store = store })

  unfoldable pub lwrcl_signal_handler : Signal → Process M → Outcome (Process M)
  lwrcl_signal_handler sigint r = notify_all (record r { global_stop_flag = true })
  lwrcl_signal_handler sigterm r = notify_all (record r { global_stop_flag = true })
  lwrcl_signal_handler (other_signal n) r = done r

  -- The end of either constructor of `Node`, with a participant at hand.
  unfoldable pub construct_node : ℕ → Process M → Process M
  unfolding add_node
  construct_node a r =
      add_node (some a) (record r {
        store = place r.store a (some (record { channel = empty; buffers = λ _. [] }));
      })

  -- Both constructors, from the participant that Fast DDS gives or the caller hands over; `none` is
  -- the runtime_error that a null participant leads to.
  unfoldable pub new_node : Option ℕ → ℕ → Process M → Option (Process M)
  new_node none a r = none
  new_node (some participant) a r = some (construct_node a r)

  -- `~Node`, which clears its lists and says nothing to the registry.
  unfoldable pub destroy_node : ℕ → Process M → Process M
  destroy_node a r = record r { store = place r.store a none }

  unfoldable pub ok : Process M → Bool
  ok r = not r.global_stop_flag
