-- ===== src/Node/Ownership/Balance.antt =====
-- The entities of the participant over the life of a node.
use rcl_like_wrapper_for_fas.Base.{ℕ, ◌+◌, ◌≡◌, refl, List, [], ◌∷◌, ◌++◌, arith}
use rcl_like_wrapper_for_fas.Endpoint.{Entity, Call, Result, ok, threw, Handles}
use rcl_like_wrapper_for_fas.Publisher
use rcl_like_wrapper_for_fas.Subscriber.Endpoint as subscriber
use rcl_like_wrapper_for_fas.Node.Ownership.{
  Owner, nothing, Create, publisher, subscription, timer, create, create_all, destroy, clear,
  own_publisher, own_subscription, topic_name,
}
use rcl_like_wrapper_for_fas.Node.Ownership.Counts.{
  taken, given_back, taken-append, given_back-append, held, held_result, publisher_counts,
  subscriber_counts,
}

held_all : Entity → List Handles → ℕ
held_all e [] = 0
held_all e (h ∷ hs) = held e h + held_all e hs

held_owner : Entity → Owner → ℕ
held_owner e o = held_all e o.publisher_list_ + held_all e o.subscription_list_

own_publisher-held :
    (e : Entity) (r : Result Handles) (o : Owner)
    → held_owner e (own_publisher r o) ≡ held_result e r + held_owner e o
unfolding own_publisher held_owner held_result held_all
own_publisher-held e (ok h) o = omega arith
own_publisher-held e (threw x) o = omega arith

own_subscription-held :
    (e : Entity) (r : Result Handles) (o : Owner)
    → held_owner e (own_subscription r o) ≡ held_result e r + held_owner e o
unfolding own_subscription held_owner held_result held_all
own_subscription-held e (ok h) o = omega arith
own_subscription-held e (threw x) o = omega arith

create-held :
    (e : Entity) (c : Create) (o : Owner)
    → taken e (create c o).0 + held_owner e o
      ≡ given_back e (create c o).0 + held_owner e (create c o).1
unfolding create held_owner
create-held e (publisher participant name) o =
    let a = participant (topic_name name) in
    omega (
      arith,
      publisher_counts e a.register_type a.lookup_topicdescription a.create_topic a.create_group
          a.create_end_point,
      own_publisher-held e (Publisher.construct a).result o,
    )
create-held e (subscription participant name) o =
    let a = participant (topic_name name) in
    omega (
      arith,
      subscriber_counts e a.register_type a.lookup_topicdescription a.create_topic a.create_group
          a.create_end_point,
      own_subscription-held e (subscriber.construct a).result o,
    )
create-held e (timer t) o = omega arith

create_all-held :
    (e : Entity) (cs : List Create) (o : Owner)
    → taken e (create_all cs o).0 + held_owner e o
      ≡ given_back e (create_all cs o).0 + held_owner e (create_all cs o).1
unfolding create_all
create_all-held e [] o = refl
create_all-held e (c ∷ cs) o = omega (
  arith,
  create-held e c o,
  create_all-held e cs (create c o).1,
  taken-append e (create c o).0 (create_all cs (create c o).1).0,
  given_back-append e (create c o).0 (create_all cs (create c o).1).0,
)

clear-held :
    (e : Entity) (destroy_one : Handles → List Call) (hs : List Handles)
    → ((h : Handles) → (given_back e (destroy_one h) ≡ held e h) × (taken e (destroy_one h) ≡ 0))
    → (given_back e (clear destroy_one hs) ≡ held_all e hs) × (taken e (clear destroy_one hs) ≡ 0)
unfolding clear held_all
clear-held e destroy_one [] k = (refl, refl)
clear-held e destroy_one (h ∷ hs) k =
    let (a, b) = k h in
    let (c, d) = clear-held e destroy_one hs k in
    (
      omega (arith, a, c, given_back-append e (destroy_one h) (clear destroy_one hs)),
      omega (arith, b, d, taken-append e (destroy_one h) (clear destroy_one hs)),
    )

publisher_destroy-held :
    (e : Entity) (h : Handles)
    → (given_back e (Publisher.destroy h) ≡ held e h) × (taken e (Publisher.destroy h) ≡ 0)
unfolding Publisher.destroy held
publisher_destroy-held e h = (omega arith, refl)

subscriber_destroy-held :
    (e : Entity) (h : Handles)
    → (given_back e (subscriber.destroy h) ≡ held e h) × (taken e (subscriber.destroy h) ≡ 0)
unfolding subscriber.destroy held
subscriber_destroy-held e h = (omega arith, refl)

destroy-held :
    (e : Entity) (o : Owner)
    → (given_back e (destroy o) ≡ held_owner e o) × (taken e (destroy o) ≡ 0)
unfolding destroy held_owner
destroy-held e o =
    let (a, b) = clear-held e Publisher.destroy o.publisher_list_ (publisher_destroy-held e) in
    let (c, d) = clear-held e subscriber.destroy o.subscription_list_ (subscriber_destroy-held e) in
    let ps = clear Publisher.destroy o.publisher_list_ in
    let ss = clear subscriber.destroy o.subscription_list_ in
    (omega (arith, a, c, given_back-append e ps ss), omega (arith, b, d, taken-append e ps ss))

held_nothing : (e : Entity) → held_owner e nothing ≡ 0
unfolding held_owner held_all
held_nothing e = omega arith

-- Over the life of a node, whatever publishers, subscriptions and timers it is asked for and
-- whatever the participant answers, failures included, each entity of the participant is deleted
-- as often as it was created or found.
pub destroy-balance :
    (e : Entity) (cs : List Create)
    → let run = create_all cs nothing in
      taken e (run.0 ++ destroy run.1) ≡ given_back e (run.0 ++ destroy run.1)
destroy-balance e cs =
    let (calls, o) = create_all cs nothing in
    let (a, b) = destroy-held e o in
    omega (
      arith,
      a,
      b,
      held_nothing e,
      create_all-held e cs nothing,
      taken-append e calls (destroy o),
      given_back-append e calls (destroy o),
    )
