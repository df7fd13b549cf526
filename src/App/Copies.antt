-- ===== src/App/Copies.antt =====
-- The classes and the programs of lwrcl/apps, many of which are copies of one another.
use rcl_like_wrapper_for_fas.Base.{ℕ, Bool, Option, List}
use Prim.Native.String.{String}
use rcl_like_wrapper_for_fas.Base.Int.{ℤ}
use rcl_like_wrapper_for_fas.App.Main.{Part, Ran, main, executor_main}
use rcl_like_wrapper_for_fas.Endpoint.{Answers}
use rcl_like_wrapper_for_fas.App.{
  Class, data_publisher, image_pub_sub, image_filter, Config, Init, init,
}
use rcl_like_wrapper_for_fas.App.Image.{Image, Mat, World, Called, callback_subscribe}
use rcl_like_wrapper_for_fas.App.Callbacks.{
  ImagePubSub, callback_publish, CustomMessage, data_callback_publish,
}

pub record NodeClass (C : Type 0) : Type 0 where
  pub init_ : (String → Answers) → Config → Init
  pub callback : C

unfoldable pub ros_type_data_publisher :
    NodeClass ((ℕ → String) → List CustomMessage → List CustomMessage)
ros_type_data_publisher = record { init_ = init data_publisher; callback = data_callback_publish }

unfoldable pub ros_type_data_publisher_executor :
    NodeClass ((ℕ → String) → List CustomMessage → List CustomMessage)
ros_type_data_publisher_executor = record {
  init_ = init data_publisher;
  callback = data_callback_publish;
}

unfoldable pub ros_type_image_pub_sub : NodeClass (ℕ → ImagePubSub → ImagePubSub)
ros_type_image_pub_sub = record { init_ = init image_pub_sub; callback = callback_publish }

-- A function of OpenCV on a width, a height and bytes.
abbrev pub OpenCv : Type 0
OpenCv = ℤ → ℤ → List ℕ → Option Mat

abbrev pub FilterClass : Type 0
FilterClass = NodeClass (Image → World → Called)

filter_class : ℕ → OpenCv → FilterClass
filter_class channels f = record {
  init_ = init image_filter;
  callback = callback_subscribe (record { channels = channels; filter = f });
}

unfoldable pub ros_type_image_pub_sub_edge : OpenCv → FilterClass
unfolding filter_class
ros_type_image_pub_sub_edge canny = filter_class 1 canny

unfoldable pub ros_type_image_pub_sub_mono : OpenCv → FilterClass
unfolding filter_class
ros_type_image_pub_sub_mono cvt_color = filter_class 3 cvt_color

-- The copies for the programs with executors.
unfoldable pub executor_edge : OpenCv → FilterClass
unfolding filter_class
executor_edge canny = filter_class 1 canny

unfoldable pub executor_mono : OpenCv → FilterClass
unfolding filter_class
executor_mono cvt_color = filter_class 3 cvt_color

unfoldable pub executor_test_mono : OpenCv → FilterClass
unfolding filter_class
executor_test_mono cvt_color = filter_class 3 cvt_color

-- The programs. A node is made or not, and uses a participant.
abbrev pub Load : Type 0
Load = List ℕ → String → Option Config

part : Class → Bool → (String → Answers) → Part
part class made participant = record { class = class; made = made; participant = participant }

unfoldable pub data_publisher_main : Load → Bool → (String → Answers) → Option (List ℕ) → Ran
unfolding part
data_publisher_main load made participant = main load (part data_publisher made participant)

unfoldable pub pub_sub_main : Load → Bool → (String → Answers) → Option (List ℕ) → Ran
unfolding part
pub_sub_main load made participant = main load (part image_pub_sub made participant)

unfoldable pub edge_main : Load → Bool → (String → Answers) → Option (List ℕ) → Ran
unfolding part
edge_main load made participant = main load (part image_filter made participant)

unfoldable pub mono_main : Load → Bool → (String → Answers) → Option (List ℕ) → Ran
unfolding part
mono_main load made participant = main load (part image_filter made participant)

-- Each node has a participant of its own.
unfoldable pub data_publisher_executor_main :
    Load
    → (made1 made2 : Bool) (participant1 participant2 : String → Answers) → Option (List ℕ)
    → Ran
unfolding part
data_publisher_executor_main load made1 made2 participant1 participant2 =
    executor_main load (part data_publisher made1 participant1)
      (part data_publisher made2 participant2)

-- The second node shares the participant of the first.
unfoldable pub image_executor_main :
    Load → (made1 made2 : Bool) → (String → Answers) → Option (List ℕ) → Ran
unfolding part
image_executor_main load made1 made2 participant =
    executor_main load (part image_filter made1 participant) (part image_filter made2 participant)

unfoldable pub image_executor_test_main :
    Load → (made1 made2 : Bool) → (String → Answers) → Option (List ℕ) → Ran
unfolding part
image_executor_test_main load made1 made2 participant =
    executor_main load (part image_filter made1 participant) (part image_filter made2 participant)
