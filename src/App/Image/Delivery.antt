-- ===== src/App/Image/Delivery.antt =====
-- The image filters of lwrcl/apps on a node that spins beside the threads that feed it.
use rcl_like_wrapper_for_fas.Base.{
  ◌≡◌, refl, sym, ap, subst, ◌∙◌, true, false, Option, none, some, List, [], ◌∷◌, ◌++◌, All, map,
  ◌==◌, if◌then◌else◌, arith, append-nil, append_assoc,
}
use mathlib.Core.List.{map-append}
use rcl_like_wrapper_for_fas.Node.{Event, Program, Reaction}
use rcl_like_wrapper_for_fas.Node.Spin.{System}
use rcl_like_wrapper_for_fas.Node.Spin.Delivery.{Act, run, heard, handled, run-handled}
use rcl_like_wrapper_for_fas.Node.Spin.Delivery.World.{IsOnly, fold, run-world}
use rcl_like_wrapper_for_fas.App.Image.{
  Image, Mat, Filter, World, Called, as_int, fits, finish, set_message, publish, callback_subscribe,
}

reaction : List (Event Image) → Called → Reaction Image World
reaction during (w, threw) = record { world = w; threw = threw; during = during }

-- The program of ROSTypeImagePubSubEdge and -Mono, whose subscription is the subscriber 0, with
-- what other threads do while it runs.
unfoldable pub filter_program : Filter → (Image → World → List (Event Image)) → Program Image World
unfolding reaction
filter_program f during = record {
  on_message = λ j m w.
      if j == 0 then reaction (during m w) (callback_subscribe f m w) else reaction [] (w, false);
  on_timer = λ t w. reaction [] (w, false);
}

filtered : Option Mat → Image → Image
filtered none m = m
filtered (some mat) m = record {
  height = m.height;
  width = m.width;
  encoding = "mono8";
  step = mat.step;
  «data» = mat.bytes;
}

-- The image that is to be published for a message.
pub image_of : Filter → Image → Image
image_of f m = filtered (f.filter (as_int m.width) (as_int m.height) m.«data») m

abbrev pub HasMat : Option Mat → Type 0
HasMat none = ⊥
HasMat (some mat) = Unit

-- Its data are all there, and OpenCV does not throw.
unfoldable pub Works : Filter → Image → Type 0
Works f m = (fits f m ≡ true) × HasMat (f.filter (as_int m.width) (as_int m.height) m.«data»)

All-append : (P : Image → Type 0) (ms ns : List Image) → All P (ms ++ ns) → All P ms
All-append P [] ns h = tt
All-append P (m ∷ ms) ns (h, hs) = (h, All-append P ms ns hs)

module _ (f : Filter) (during : Image → World → List (Event Image)) where
  abbrev p : Program Image World
  p = filter_program f during

  finish-throw :
      (m : Image) (r : Option Mat) (w : World) → (finish m r w).1 ≡ true → (finish m r w).0 ≡ w
  unfolding finish
  finish-throw m none w h = refl
  finish-throw m (some mat) w h = absurd (ground arith)

  filter-IsOnly : IsOnly p 0
  unfolding filter_program callback_subscribe reaction
  filter-IsOnly = record {
    on_timer = λ t w. refl;
    on_other = λ j m w h. ground arith;
    on_throw = λ m w h.
        ground (arith, finish-throw m (f.filter (as_int m.width) (as_int m.height) m.«data») w);
  }

  Adds : Image → World → World → Type 0
  Adds image w w' = (w'.published ≡ w.published ++ (image ∷ [])) × (w'.overrun ≡ w.overrun)

  finish-Adds :
      (m : Image) (r : Option Mat) (w : World) → HasMat r → Adds (filtered r m) w (finish m r w).0
  unfolding finish Adds set_message publish filtered
  finish-Adds m none w h = absurd h
  finish-Adds m (some mat) w h = (refl, refl)

  callback-Adds :
      (m : Image) (w : World) → Works f m → Adds (image_of f m) w (callback_subscribe f m w).0
  unfolding callback_subscribe Works image_of
  callback-Adds m w (b, h) =
      rw b (finish-Adds m (f.filter (as_int m.width) (as_int m.height) m.«data») w h)

  callback_program :
      (m : Image) (w : World) → (p.on_message 0 m w).world ≡ (callback_subscribe f m w).0
  unfolding filter_program reaction
  callback_program m w = ground arith

  Published : List Image → World → World → Type 0
  Published ms w w' = (w'.published ≡ w.published ++ map (image_of f) ms) × (w'.overrun ≡ w.overrun)

  fold-Published : (ms : List Image) (w : World) → All (Works f) ms → Published ms w (fold p 0 ms w)
  unfolding Published Adds
  fold-Published [] w h = (sym (append-nil w.published), refl)
  fold-Published (m ∷ ms) w (h, hs) =
      let w' = (p.on_message 0 m w).world in
      let (a, b) : Adds (image_of f m) w w' =
        subst (Adds (image_of f m) w) (sym (callback_program m w)) (callback-Adds m w h) in
      let (x, y) = fold-Published ms w' hs in
      (
        x ∙ ap (λ l. l ++ map (image_of f) ms) a ∙ append_assoc w.published (image_of f m ∷ []) _,
        y ∙ b,
      )

  -- Over every schedule of such a node, and of the threads that feed it even while it runs the
  -- callback, where each message that is buffered or arrives has all its data and OpenCV does not throw:
  -- the images that it has published, followed by those of the messages in its buffer, are those of
  -- the messages in the order in which they came. No image is lost, doubled or overtaken, and
  -- nothing is read outside of a message.
  pub filter-publishes :
      (acts : List (Act Image)) (s : System Image World)
      → All (Works f) (s.node.buffers 0 ++ heard p 0 acts s)
      → let t = run p 0 acts s in
        (t.world.published ++ map (image_of f) (t.node.buffers 0)
          ≡ s.world.published ++ map (image_of f) (s.node.buffers 0 ++ heard p 0 acts s))
        × (t.world.overrun ≡ s.world.overrun)
  unfolding Published
  filter-publishes acts s h =
      let t = run p 0 acts s in
      let e = run-handled p 0 acts s in
      let (x, y) : Published (handled p 0 acts s) s.world t.world =
        subst (Published (handled p 0 acts s) s.world) (sym (run-world p 0 filter-IsOnly acts s)) (
          fold-Published (handled p 0 acts s) s.world (
            All-append (Works f) (handled p 0 acts s) (t.node.buffers 0)
              (subst (All (Works f)) e h))) in
      (
        ap (λ l. l ++ map (image_of f) (t.node.buffers 0)) x
            ∙ append_assoc s.world.published _ _
            ∙ ap (λ l. s.world.published ++ l)
                (sym (map-append (image_of f) (handled p 0 acts s) (t.node.buffers 0)))
            ∙ ap (λ l. s.world.published ++ map (image_of f) l) (sym e),
        y,
      )
