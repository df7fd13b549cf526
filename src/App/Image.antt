-- ===== src/App/Image.antt =====
-- `callbackSubscribe` of ROSTypeImagePubSubEdge and ROSTypeImagePubSubMono (lwrcl/apps), which
-- publishes the edges, or the gray image, of what arrives. OpenCV is an argument; `none` is an
-- exception of it.
pub mod Delivery
use rcl_like_wrapper_for_fas.Base.{
  ℕ, ◌+◌, ◌-◌, ◌*◌, ◌^◌, Bool, true, false, Option, none, some, List, [], ◌∷◌, ◌++◌, length, ltb,
  leb, if◌then◌else◌,
}
use Prim.Native.String.{String}
use rcl_like_wrapper_for_fas.Base.Int.{ℤ, pos, negsuc, pos_part}

-- The fields that the callbacks read or set. The numbers are below 2^32.
pub record Image : Type 0 where
  pub height : ℕ
  pub width : ℕ
  pub encoding : String
  pub step : ℕ
  pub «data» : List ℕ

-- The `step` and the bytes of a cv::Mat.
pub record Mat : Type 0 where
  pub step : ℕ
  pub bytes : List ℕ

-- `filter width height bytes` is cv::Canny with thresholds 50 and 150 on a matrix of bytes, or
-- cv::cvtColor to gray on a matrix of `channels` = 3 bytes for each pixel.
pub record Filter : Type 0 where
  pub channels : ℕ
  pub filter : ℤ → ℤ → List ℕ → Option Mat

-- A conversion to int.
abbrev pub as_int : ℕ → ℤ
as_int n = if ltb n (2 ^ 31) then pos n else negsuc (2 ^ 32 - 1 - n)

-- The node's message, which is used again and again, what it has published, and whether it has read
-- behind the end of a message's data, which is undefined behaviour.
pub record World : Type 0 where
  pub edge_msg_ : Image
  pub published : List Image
  pub overrun : Bool

-- Whether the callback threw.
abbrev pub Called : Type 0
Called = World × Bool

pub set_message : Image → Mat → Image → Image
set_message message mat kept = record kept {
  width = message.width;
  height = message.height;
  encoding = "mono8";
  step = mat.step;
  «data» = mat.bytes;
}

pub publish : Image → World → World
publish image w = record w { edge_msg_ = image; published = w.published ++ (image ∷ []) }

pub finish : Image → Option Mat → World → Called
unfolding set_message publish
finish message none w = (w, true)
finish message (some mat) w = (publish (set_message message mat w.edge_msg_) w, false)

-- The data of the message are those of the matrix that is laid over them.
unfoldable pub fits : Filter → Image → Bool
fits f message =
    leb (f.channels * (pos_part (as_int message.width) * pos_part (as_int message.height)))
      (length message.«data»)

unfoldable pub callback_subscribe : Filter → Image → World → Called
unfolding finish
callback_subscribe f message w =
    if fits f message
    then finish message (f.filter (as_int message.width) (as_int message.height) message.«data») w
    else (record w { overrun = true }, false)
