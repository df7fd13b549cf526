-- ===== src/Sample/Tests.antt =====
-- A publisher that sends two messages, one whose topic is refused, and command lines.
use rcl_like_wrapper_for_fas.Base.{
  ℕ, ◌≡◌, ◌↔◌, refl, true, false, Option, none, some, List, [], ◌∷◌, ◌++◌, if◌then◌else◌, arith,
}
use rcl_like_wrapper_for_fas.Base.Int.{pos, as_u32}
use Prim.Native.String.{String}
use text.Mathlib.Text.{◌==◌}
use rcl_like_wrapper_for_fas.Sample.{
  Answers, init, participant, group, created, refused, type_registered,
}
use rcl_like_wrapper_for_fas.Sample.Copies.{
  point_cloud, image, publisher_class, point_cloud_publisher, subscriber_class, image_subscriber,
  shows_image,
}
use rcl_like_wrapper_for_fas.Sample.Subscriber.{data_available, notice, on_data_available}
use rcl_like_wrapper_for_fas.Encoding.{get_cv_type}
use rcl_like_wrapper_for_fas.Encoding.Image.{Image, mat_from_image}
use rcl_like_wrapper_for_fas.Sample.Programs.{
  Outside, returns, exits, program, point_cloud_main, image_main,
}
use rcl_like_wrapper_for_fas.Sample.Publisher.{
  Round, Publisher, start, returned, run_thread, on_publication_matched, notice_all,
}
use rcl_like_wrapper_for_fas.Sample.Publisher.Sends.{run_thread-sends}
use rcl_like_wrapper_for_fas.Sample.Main.{
  Library, Parsed, publisher, publishes, usage, numeric_range, main,
}
use rcl_like_wrapper_for_fas.Sample.Main.Proper.{IsProper, kind_started, main-IsProper}

-- The topic of the point clouds is refused.
abbrev participant_answers : Answers
participant_answers = record {
  create_participant = some 1;
  create_group = some 2;
  create_topic = λ name. if name == "rt/point_cloud" then none else some 3;
  create_end_point = some 4;
}

refused_topic :
    (init "rt/point_cloud" false participant_answers).calls
    ≡ created (participant 1) ∷ type_registered ∷ created (group 2) ∷ refused ∷ []
unfolding init
refused_topic = refl

abbrev quiet : Round
quiet = record { matches = []; stops = false }

abbrev connection : Round
connection = record {
  matches = record { current_count_change = pos 1; total_count = pos 1 } ∷ [];
  stops = false;
}

run_thread-sends_example :
    (t : Publisher) × (run_thread 2 ((quiet ∷ quiet ∷ []) ++ (connection ∷ quiet ∷ [])) start
      ≡ returned t)
    × (t.written ≡ 1 ∷ 2 ∷ [])
unfolding notice_all on_publication_matched
run_thread-sends_example =
    run_thread-sends 2 (quiet ∷ quiet ∷ []) connection (quiet ∷ []) (omega arith) (omega arith)
      (refl, (refl, tt)) refl (omega arith)

-- A library that reads one text.
abbrev texts : Library
texts = record {
  strtol =
      λ s. record { value = if s == "4294967296" then pos 4294967296 else pos 0; is_whole = true };
  atoi = λ s. if s == "5" then pos 5 else pos 0;
}

abbrev given : List String → ℕ → Option String → Parsed
given non_options options_count samples = record {
  error = false;
  help = false;
  unknown = false;
  non_options = non_options;
  options_count = options_count;
  option_first = false;
  samples = samples;
  interval = none;
  environment = false;
}

-- A number of samples that the check of its range accepts, and that becomes 0, which stands for no
-- end.
wrapped_range : numeric_range texts (some "4294967296") ≡ true
unfolding numeric_range
wrapped_range = refl

wrapped_samples :
    main texts (given ("publisher" ∷ []) 1 (some "4294967296")) ≡ publishes 0 100 false
unfolding main as_u32
wrapped_samples = refl

mixed : main texts (given ("publisher" ∷ "5" ∷ []) 1 none) ≡ usage 1
unfolding main
mixed = refl

main-IsProper_example :
    (kind_started (main texts (given ("publisher" ∷ "5" ∷ []) 0 none)) ≡ some publisher)
    ↔ IsProper (given ("publisher" ∷ "5" ∷ []) 0 none) publisher
main-IsProper_example = main-IsProper texts (given ("publisher" ∷ "5" ∷ []) 0 none) publisher

-- Two messages are to be sent, but the topic is refused.
abbrev refusing : Outside (Unit {0})
refusing = record {
  answers = participant_answers;
  rounds = quiet ∷ connection ∷ quiet ∷ [];
  reports = [];
  enter = false;
}

abbrev two : Parsed
two = given ("publisher" ∷ []) 1 (some "2")

refused_program : (program point_cloud texts two refusing).end ≡ returns 0
unfolding program point_cloud_main main publisher_class point_cloud_publisher init as_u32
refused_program = refl

abbrev one_subscriber : Parsed
one_subscriber = given ("subscriber" ∷ []) 0 none

-- An image of an encoding that is not known, which ends the program by exit(-1).
abbrev strange : Image
strange = record { height = 1; width = 1; encoding = "odd"; step = 1; data_ = 0 ∷ [] }

abbrev shown : Outside Image
shown = record {
  answers = record participant_answers { create_topic = λ name. some 3 };
  rounds = [];
  reports = data_available (record { is_ok = true; is_alive = true; message = strange }) ∷ [];
  enter = true;
}

exits_on_image : (program image texts one_subscriber shown).end ≡ exits 255
unfolding program image_main main subscriber_class image_subscriber init notice on_data_available
    shows_image mat_from_image get_cv_type
exits_on_image = refl
