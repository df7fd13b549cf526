-- ===== src/App/Success.antt =====
-- When `init` of a node of lwrcl/apps succeeds.
use rcl_like_wrapper_for_fas.Base.{
  ℕ, ◌≡◌, refl, ap, ◌∙◌, Bool, true, false, not, ◌&&◌, ◌||◌, Option, none, some, List, [], ◌∷◌,
  ◌==◌, arith,
}
use Prim.Native.String.{String}
use rcl_like_wrapper_for_fas.Endpoint.{Call, Error, Answers, Result, ok, threw}
use rcl_like_wrapper_for_fas.Publisher
use rcl_like_wrapper_for_fas.Subscriber.Endpoint as subscriber
use rcl_like_wrapper_for_fas.Node.Ownership.{
  topic_name, Owner, nothing, Create, publisher, subscription, timer, create,
}
use rcl_like_wrapper_for_fas.App.{
  data_publisher, image_pub_sub, image_filter, error, Config, Settings, Class, Init, error_of,
  and_then, create_until, when_positive, read_config, creates, init,
}

is_some : {A : Type 0} → Option A → Bool
is_some none = false
is_some (some a) = true

-- The participant gives all that a publisher or a subscription needs.
unfoldable pub serves : Answers → Bool
unfolding is_some
serves a =
    a.register_type
    && (is_some a.lookup_topicdescription || is_some a.create_topic)
    && is_some a.create_group
    && is_some a.create_end_point

unfoldable pub served : Class → (String → Answers) → Settings → Bool
unfolding serves
served data_publisher participant s = serves (participant (topic_name s.publish_topic_name_))
served image_pub_sub participant s =
    serves (participant (topic_name s.publish_topic_name_))
    && serves (participant (topic_name s.subscribe_topic_name_))
served image_filter participant s =
    serves (participant (topic_name s.publish_topic_name_))
    && serves (participant (topic_name s.subscribe_topic_name_))

pub succeeds : Result Bool → Bool
succeeds (ok b) = b
succeeds (threw e) = false

publisher_served :
    (register : Bool) (lookup new_topic new_group new_end_point : Option ℕ)
    → let a : Answers = record {
      register_type = register;
      lookup_topicdescription = lookup;
      create_topic = new_topic;
      create_group = new_group;
      create_end_point = new_end_point;
    } in
      is_some (error (Publisher.construct a).result) ≡ not (serves a)
unfolding Publisher.construct serves is_some error
publisher_served false lookup new_topic new_group new_end_point = refl
publisher_served true none none new_group new_end_point = refl
publisher_served true none (some t) none new_end_point = refl
publisher_served true none (some t) (some g) none = refl
publisher_served true none (some t) (some g) (some w) = refl
publisher_served true (some t) new_topic none new_end_point = refl
publisher_served true (some t) new_topic (some g) none = refl
publisher_served true (some t) new_topic (some g) (some w) = refl

subscriber_served :
    (register : Bool) (lookup new_topic new_group new_end_point : Option ℕ)
    → let a : Answers = record {
      register_type = register;
      lookup_topicdescription = lookup;
      create_topic = new_topic;
      create_group = new_group;
      create_end_point = new_end_point;
    } in
      is_some (error (subscriber.construct a).result) ≡ not (serves a)
unfolding subscriber.construct serves is_some error
subscriber_served false lookup new_topic new_group new_end_point = refl
subscriber_served true none none new_group new_end_point = refl
subscriber_served true none (some t) none new_end_point = refl
subscriber_served true none (some t) (some g) none = refl
subscriber_served true none (some t) (some g) (some w) = refl
subscriber_served true (some t) new_topic none new_end_point = refl
subscriber_served true (some t) new_topic (some g) none = refl
subscriber_served true (some t) new_topic (some g) (some w) = refl

and_then-succeeds :
    (e : Option Error) (served : Bool) (done : List Call × Owner) (rest : Init)
    → is_some e ≡ not served
    → succeeds (and_then e done rest).ended ≡ served && succeeds rest.ended
unfolding and_then succeeds is_some
and_then-succeeds none true done rest h = refl
and_then-succeeds none false done rest h = absurd (ground arith)
and_then-succeeds (some e) true done rest h = absurd (ground arith)
and_then-succeeds (some e) false done rest h = refl

serves_creation : Create → Bool
serves_creation (publisher participant topic) = serves (participant (topic_name topic))
serves_creation (subscription participant topic) = serves (participant (topic_name topic))
serves_creation (timer t) = true

creation_error : (c : Create) → is_some (error_of c) ≡ not (serves_creation c)
unfolding error_of serves_creation is_some
creation_error (publisher participant topic) =
    let a = participant (topic_name topic) in
    publisher_served a.register_type a.lookup_topicdescription a.create_topic a.create_group
      a.create_end_point
creation_error (subscription participant topic) =
    let a = participant (topic_name topic) in
    subscriber_served a.register_type a.lookup_topicdescription a.create_topic a.create_group
      a.create_end_point
creation_error (timer t) = refl

serves_all : List Create → Bool
serves_all [] = true
serves_all (c ∷ cs) = serves_creation c && serves_all cs

create_until-succeeds :
    (cs : List Create) (o : Owner) → succeeds (create_until cs o).ended ≡ serves_all cs
unfolding create_until serves_all succeeds
create_until-succeeds [] o = refl
create_until-succeeds (c ∷ cs) o =
    and_then-succeeds (error_of c) (serves_creation c) (create c o) (create_until cs (create c o).1)
      (creation_error c)
    ∙ ap (λ b. serves_creation c && b) (create_until-succeeds cs (create c o).1)

creates-served :
    (class : Class) (participant : String → Answers) (s : Settings)
    → serves_all (creates class participant s) ≡ served class participant s
unfolding creates served serves_all serves_creation
creates-served data_publisher participant s = ground arith
creates-served image_pub_sub participant s = ground arith
creates-served image_filter participant s = ground arith

-- `init` returns true exactly where the interval that the configuration sets last is not 0, and the
-- participant serves the publisher, and the subscription that the class asks for; else it returns
-- false or throws.
init-succeeds :
    (class : Class) (participant : String → Answers) (c : Config)
    → let s = read_config class c in
      succeeds (init class participant c).ended
      ≡ not (s.interval_ms_ == 0) && served class participant s
unfolding init when_positive succeeds
init-succeeds class participant c =
    let s = read_config class c in
    ground (
      arith,
      create_until-succeeds (creates class participant s) nothing
          ∙ creates-served class participant s,
    )
