-- ===== src/App/Tests.antt =====
-- Runs of the nodes and of the programs of lwrcl/apps.
use rcl_like_wrapper_for_fas.Base.{
  ℕ, ◌⊎◌, ◌≡◌, refl, true, false, Option, none, some, List, [], ◌∷◌, ◌++◌, All, map, if◌then◌else◌,
  arith,
}
use rcl_like_wrapper_for_fas.Base.Int.{pos_part}
use Prim.Native.String.{String}
use text.Mathlib.Text as strings
use rcl_like_wrapper_for_fas.Channel.{empty, produce, consume, is_closed}
use rcl_like_wrapper_for_fas.Subscriber.{sample, on_data_available, erase_begin}
use rcl_like_wrapper_for_fas.Endpoint.{Answers, group, threw, no_end_point}
use rcl_like_wrapper_for_fas.Publisher
use rcl_like_wrapper_for_fas.Subscriber.Endpoint as subscriber
use rcl_like_wrapper_for_fas.Node.{Event, arrives, fires, Program, happen, happen_all, invoke}
use rcl_like_wrapper_for_fas.Node.Ownership.Counts.{taken, given_back}
use rcl_like_wrapper_for_fas.Node.Spin.{System, testing, spin_move}
use rcl_like_wrapper_for_fas.Node.Spin.Delivery.{Act, spin, event, act, run, heard}
use rcl_like_wrapper_for_fas.App.{
  Config, image_pub_sub, image_filter, read_config, read_topics, read_subscribe_topics, error_of,
  init, create_until, creates,
}
use rcl_like_wrapper_for_fas.App.Image.{Image, Filter, World, fits, callback_subscribe}
use rcl_like_wrapper_for_fas.App.Image.Delivery.{filter_program, image_of, Works, filter-publishes}
use rcl_like_wrapper_for_fas.App.Callbacks.{ImagePubSub, data_callback_publish}
use rcl_like_wrapper_for_fas.Outcome.{done}
use rcl_like_wrapper_for_fas.Rate.{sleeps}
use rcl_like_wrapper_for_fas.App.Example.{Round, Loop, Report, loop}
use rcl_like_wrapper_for_fas.App.Example.Rounds.{loop-returns}
use rcl_like_wrapper_for_fas.App.Main.{Part, exits, uncaught, dangles, directory, executor_main}
use rcl_like_wrapper_for_fas.App.Main.Balance.{executor_main-balance}

-- A participant that refuses the reader of "rt/scan".
abbrev answered : Option ℕ → Answers
answered last = record {
  register_type = true;
  lookup_topicdescription = none;
  create_topic = some 4;
  create_group = some 5;
  create_end_point = last;
}

abbrev participant : String → Answers
participant name = if strings.◌==◌ name "rt/scan" then answered none else answered (some 6)

abbrev config : String → Config
config subscribed = record {
  topics = [];
  publish_topics = record { name = some "pose"; interval_ms = some 100 } ∷ [];
  subscribe_topics = some subscribed ∷ [];
}

refused_scan : (init image_pub_sub participant (config "scan")).ended ≡ threw no_end_point
unfolding init read_config read_topics read_subscribe_topics creates create_until error_of
    Publisher.construct subscriber.construct
refused_scan = refl

-- A filter that gives the bytes back.
abbrev same : Filter
same = record {
  channels = 1;
  filter = λ width height bytes. some (record { step = pos_part width; bytes = bytes });
}

abbrev image : ℕ → Image
image b = record { height = 1; width = 2; encoding = "mono8"; step = 2; «data» = b ∷ b ∷ [] }

abbrev idle : Image → World → List (Event Image)
idle m w = []

abbrev spinning : System Image World
spinning = record {
  node = record { channel = empty; buffers = λ j. [] };
  world = record { edge_msg_ = image 0; published = []; overrun = false };
  global_stop_flag = false;
  pc = testing;
}

abbrev turns : List (Act Image)
turns =
    event (arrives 0 (sample (image 7) true))
    ∷ spin
    ∷ spin
    ∷ spin
    ∷ event (arrives 0 (sample (image 8) true))
    ∷ []

abbrev program : Program Image World
program = filter_program same idle

heard-turns : heard program 0 turns spinning ≡ image 7 ∷ image 8 ∷ []
unfolding heard run act spin_move happen happen_all on_data_available produce consume invoke
    is_closed erase_begin filter_program callback_subscribe fits
heard-turns = refl

turns_work : All (Works same) (heard program 0 turns spinning)
unfolding Works fits
turns_work = rw heard-turns ((refl, tt), ((refl, tt), tt))

published_turns : (run program 0 turns spinning).world.published ≡ image 7 ∷ []
unfolding run act spin_move happen happen_all on_data_available produce consume invoke is_closed
    erase_begin filter_program callback_subscribe fits
published_turns = refl

filter-publishes_example :
    let t = run program 0 turns spinning in
    (t.world.published ++ map (image_of same) (t.node.buffers 0)
      ≡ [] ++ map (image_of same) ([] ++ heard program 0 turns spinning))
    × (t.world.overrun ≡ false)
filter-publishes_example = filter-publishes same idle turns spinning turns_work

-- An image without its data: OpenCV reads behind their end.
truncated :
    (callback_subscribe same
      (record { height = 9; width = 9; encoding = "mono8"; step = 9; «data» = [] })
      spinning.world).0.overrun
    ≡ true
unfolding callback_subscribe fits
truncated = refl

-- Every message of a data publisher has the index 1.
two_messages :
    map (λ m. m.index) (data_callback_publish (λ n. "1") (data_callback_publish (λ n. "1") []))
    ≡ 1 ∷ 1 ∷ []
unfolding data_callback_publish
two_messages = refl

abbrev ticking : System Image ImagePubSub
ticking = record {
  node = record { channel = empty; buffers = λ j. [] };
  world = record { counter_ = 0; written = []; overflow = false };
  global_stop_flag = false;
  pc = testing;
}

abbrev ticks : List (Act Image)
ticks = event (fires 0) ∷ event (fires 0) ∷ spin ∷ spin ∷ spin ∷ spin ∷ spin ∷ []

abbrev part : String → Part
part name = record {
  class = image_filter;
  made = true;
  participant = λ t. if strings.◌==◌ t name then answered none else answered (some 6);
}

abbrev load : List ℕ → String → Option Config
load dir path = some (config "image")

-- The second node throws, and the program ends without a destructor.
unserved : (executor_main load (part "") (part "rt/image") (some [])).added ≡ 1 ∷ []
unfolding executor_main directory init read_config read_topics read_subscribe_topics creates
    create_until error_of Publisher.construct subscriber.construct
unserved = refl

served_both : (executor_main load (part "") (part "") (some [])).exit ≡ dangles
unfolding executor_main directory init read_config read_topics read_subscribe_topics creates
    create_until error_of Publisher.construct subscriber.construct
served_both = refl

executor_main-balance_example :
    let r = executor_main load (part "") (part "") (some []) in
    (r.exit ≡ uncaught)
    ⊎ ((taken (group 5) r.calls ≡ given_back (group 5) r.calls)
        × (((r.exit ≡ exits 1) × (r.added ≡ []))
            ⊎ ((more : List ℕ) × (r.exit ≡ dangles) × (r.added ≡ 1 ∷ more))))
executor_main-balance_example = executor_main-balance (group 5) load (part "") (part "") (some [])

-- Two rounds, the second of which is late, with a message before the first
-- and another while that is printed.
abbrev example_rounds : List (Round ℕ)
example_rounds =
    record {
      cur_time = record { tv_sec = 1; tv_nsec = 5 };
      arrived = arrives 0 (sample 7 true) ∷ [];
      during = (arrives 0 (sample 8 true) ∷ []) ∷ [];
      steady = 50;
    }
    ∷ record {
      cur_time = record { tv_sec = 2; tv_nsec = 3 };
      arrived = [];
      during = [];
      steady = 230;
    }
    ∷ []

abbrev example_start : Loop ℕ
example_start = record {
  data_value = 0;
  last_time = record { tv_sec = 0; tv_nsec = 0 };
  rate = record { period = 100; next_time = 100 };
  node = record { channel = empty; buffers = λ j. [] };
  printed = [];
}

loop-returns_example :
    (l' : Loop ℕ) × (xs : List Report) × (loop example_rounds example_start ≡ done (l', xs))
    × (map (λ x. x.stamp) xs ≡ 0 ∷ 1 ∷ [])
    × (sleeps (record { period = 100; next_time = 100 }) (50 ∷ 230 ∷ [])
        ≡ some (map (λ x. x.slept_until) xs))
    × ((example_rounds ≡ []) ⊎ (l'.node.channel.queue ≡ []))
loop-returns_example = loop-returns example_rounds example_start tt (omega arith) (omega arith)
