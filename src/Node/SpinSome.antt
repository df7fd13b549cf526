-- ===== src/Node/SpinSome.antt =====
-- `Node::spin_some` (lwrcl/libraries/src/lwrcl/src/lwrcl.cpp): a loop over the loop that empties
-- the channel without blocking. Both loops take fuel; `SpinSome.Total` shows how much is enough.
pub mod Total
pub mod Order
use rcl_like_wrapper_for_fas.Base.{ℕ, zero, suc, Bool, true, false, Option, none, some}
use rcl_like_wrapper_for_fas.Channel.{Channel, consume_nowait}
use rcl_like_wrapper_for_fas.Subscriber.{Callback}
use rcl_like_wrapper_for_fas.Node.{Node, Program, invoke}

-- `fault` is the call of a method through a null pointer.
pub data Result (S : Type 0) : Type 0 where
  returned : S → Result S
  fault : Result S
  exhausted : Result S

module _ {M W : Type 0} (p : Program M W) where
  -- The inner loop; the Boolean is `event_processed`.
  unfoldable pub drain : ℕ → Node M → W → Bool → Result (Node M × W × Bool)
  drain zero n w processed = exhausted
  drain (suc fuel) n w processed = elim (consume_nowait n.channel) [
    | none ↦ returned (n, w, processed)
    | some (none, c) ↦ fault
    | some (some callback, c) ↦
        let (n', w') = invoke p callback (record n { channel = c }) w in drain fuel n' w' true
  ]

  -- The outer `do … while (event_processed)`.
  unfoldable pub spin_some : ℕ → Node M → W → Result (Node M × W)
  spin_some zero n w = exhausted
  spin_some (suc fuel) n w = elim (drain (suc fuel) n w false) [
    | returned (n', w', true) ↦ spin_some fuel n' w'
    | returned (n', w', false) ↦ returned (n', w')
    | fault ↦ fault
    | exhausted ↦ exhausted
  ]
