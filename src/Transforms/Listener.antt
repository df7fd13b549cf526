-- ===== src/Transforms/Listener.antt =====
-- lwrcl/libraries/src/tf2_ros/src/transform_listener.cpp and include/tf2_ros/transform_listener.h:
-- what `init` sets up, the two subscriptions as a program of a node, and the destructor. The node of
-- the listener is in the executor that the listener's own thread spins.
pub mod Stores
pub mod Stop
pub mod Tests
use rcl_like_wrapper_for_fas.Base.{
  ℕ, zero, suc, Bool, true, false, Option, none, some, List, [], ◌∷◌, if◌then◌else◌,
}
use rcl_like_wrapper_for_fas.Outcome.{Outcome, done, ◌>>=◌}
use rcl_like_wrapper_for_fas.Node.{Program, Reaction}
use rcl_like_wrapper_for_fas.Executor.{Executor}
use rcl_like_wrapper_for_fas.Executor.Single
use rcl_like_wrapper_for_fas.Transforms.{Transform, SetResult, subscription_callback}
use Prim.Native.String.{String}

-- A subscription: the address of its node, its topic, and the `is_static` bound to its callback.
pub record Subscription : Type 0 where
  pub node : ℕ
  pub topic : String
  pub is_static : Bool

pub record Setup : Type 0 where
  pub subscriptions : List Subscription
  -- the nodes of the listener's executor
  pub nodes : List (Option ℕ)
  -- a thread of the listener calls `spin`
  pub has_thread : Bool

abbrev subscribe : ℕ → List Subscription
subscribe node =
    record { node = node; topic = "tf"; is_static = false }
    ∷ record { node = node; topic = "tf_static"; is_static = true }
    ∷ []

-- `init` with the address of the node that it makes, and that of the user's node.
unfoldable pub init : Bool → ℕ → ℕ → Setup
init spin_thread own user =
    if spin_thread
    then record { subscriptions = subscribe own; nodes = some own ∷ []; has_thread = true }
    else record { subscriptions = subscribe user; nodes = []; has_thread = false }

module _ {V B : Type 0} (set_transform : Transform V → Bool → B → SetResult B) where
  -- `is_static` of the subscriber with a number, in the order in which `init` makes them.
  unfoldable pub is_static_of : ℕ → Bool
  is_static_of zero = false
  is_static_of (suc i) = true

  -- The callbacks of the listener's node, as the program of this node; its world is the buffer.
  unfoldable pub callbacks : Program (List (Transform V)) B
  unfolding is_static_of
  callbacks = record {
    on_message = λ i message b. record {
      world = subscription_callback set_transform (some message) (is_static_of i) b;
      threw = false;
      during = [];
    };
    on_timer = λ t b. record { world = b; threw = false; during = [] };
  }

module _ {M W : Type 0} (p : Program M W) where
  -- The destructor, before round `k` of the listener's thread: it stops the spinning of the nodes,
  -- and joins the thread, which goes on for `rounds` rounds at most. `flag` and `others` are those
  -- of `Single.spin`.
  unfoldable pub destroy :
      ℕ
      → (ℕ → Bool)
      → (ℕ → Executor M W → Executor M W)
      → (rounds k : ℕ) → Bool
      → Executor M W
      → Outcome (Executor M W)
  destroy fuel flag others rounds k false x = done x
  destroy fuel flag others rounds k true x = do
    x' ← Single.stop_spin x
    Single.spin p fuel flag others rounds k x'
