-- ===== src/Node/Ownership.antt =====
-- The lists of `lwrcl::Node` that own its publishers, subscriptions and timers:
-- create_publisher, create_subscription and create_timer of
-- lwrcl/libraries/src/lwrcl/include/lwrcl.hpp and the destructor of src/lwrcl.cpp. The participant
-- is a function from the name of a topic to its answers; a timer is a number.
pub mod Counts
pub mod Balance
pub mod Tests
use rcl_like_wrapper_for_fas.Base.{ℕ, List, [], ◌∷◌, ◌++◌}
use Prim.Native.String as string
use Prim.Native.String.{String}
use rcl_like_wrapper_for_fas.Endpoint.{Call, Error, Result, ok, threw, Traced, Answers, Handles}
use rcl_like_wrapper_for_fas.Publisher
use rcl_like_wrapper_for_fas.Subscriber.Endpoint as subscriber

pub record Owner : Type 0 where
  pub publisher_list_ : List Handles
  pub subscription_list_ : List Handles
  pub timer_list_ : List ℕ

abbrev pub nothing : Owner
nothing = record { publisher_list_ = []; subscription_list_ = []; timer_list_ = [] }

-- A call of one of the three, with what the participant answers during it.
pub data Create : Type 0 where
  publisher subscription : (String → Answers) → String → Create
  timer : ℕ → Create

own_publisher : Result Handles → Owner → Owner
own_publisher (ok h) o = record o { publisher_list_ = h ∷ o.publisher_list_ }
own_publisher (threw e) o = o

own_subscription : Result Handles → Owner → Owner
own_subscription (ok h) o = record o { subscription_list_ = h ∷ o.subscription_list_ }
own_subscription (threw e) o = o

abbrev pub topic_name : String → String
topic_name topic = string.◌++◌ "rt/" topic

-- The calls of the participant that a creation makes, and the lists after it; a constructor that
-- throws leaves them as they were.
unfoldable pub create : Create → Owner → List Call × Owner
unfolding own_publisher own_subscription
create (publisher participant topic) o =
    let t = Publisher.construct (participant (topic_name topic)) in
    (t.calls, own_publisher t.result o)
create (subscription participant topic) o =
    let t = subscriber.construct (participant (topic_name topic)) in
    (t.calls, own_subscription t.result o)
create (timer t) o = ([], record o { timer_list_ = t ∷ o.timer_list_ })

unfoldable pub create_all : List Create → Owner → List Call × Owner
create_all [] o = ([], o)
create_all (c ∷ cs) o =
    ((create c o).0 ++ (create_all cs (create c o).1).0, (create_all cs (create c o).1).1)

clear : (Handles → List Call) → List Handles → List Call
clear destroy [] = []
clear destroy (h ∷ hs) = destroy h ++ clear destroy hs

-- ~Node; the timers have nothing of the participant.
unfoldable pub destroy : Owner → List Call
unfolding clear
destroy o =
    clear Publisher.destroy o.publisher_list_ ++ clear subscriber.destroy o.subscription_list_
