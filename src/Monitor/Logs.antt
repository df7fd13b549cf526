-- ===== src/Monitor/Logs.antt =====
-- What the logs of tf2_monitor hold after any messages.
use rcl_like_wrapper_for_fas.Base.{
  ◌≡◌, refl, sym, ap, ◌∙◌, Bool, true, false, some, List, [], ◌∷◌, ◌++◌, append-nil, append_assoc,
  if◌then◌else◌, arith,
}
use Prim.Native.String.{String}
use text.Mathlib.Text.{◌==◌}
use text.Mathlib.TextEquality.{eq_iff}
use rcl_like_wrapper_for_fas.Monitor.{
  Double, Seen, Map, Monitor, logged, log, offset, see_all, callback,
}
use rcl_like_wrapper_for_fas.Monitor.Window.{window, logged-window}

-- A message, with what the clock shows at the end of the callback.
pub record Message (D : Type 0) : Type 0 where
  pub transforms : List (Seen D)
  pub now : D

module _ {D : Type 0} (d : Double D) where
  unfoldable pub callbacks : List (Message D) → Monitor D → Monitor D
  callbacks [] m = m
  callbacks (g ∷ gs) m = callbacks gs (callback d g.transforms g.now m)

  -- The offsets of a frame in a message, and in a sequence of messages.
  abbrev pub offsets : String → List (Seen D) → List D
  offsets k [] = []
  offsets k (t ∷ ts) =
      let rest = offsets k ts in if t.child_frame_id == k then offset d t ∷ rest else rest

  abbrev pub all_offsets : String → List (Message D) → List D
  all_offsets k [] = []
  all_offsets k (g ∷ gs) = offsets k g.transforms ++ all_offsets k gs

  added : Bool → D → List D
  added b x = if b then x ∷ [] else []

  log-window :
      (m : Map (List D)) (key k : String) (b : Bool) (x : D) (past : List D)
      → (key == k) ≡ b
      → m k ≡ window past
      → log key x m k ≡ window (past ++ added b x)
  unfolding log added
  log-window m key k true x past e h =
      rw e (ap (λ l. some (logged x l)) (ap m ((eq_iff key k).0 e) ∙ h) ∙ logged-window x past)
  log-window m key k false x past e h = rw e (h ∙ ap window (sym (append-nil past)))

  offsets-cons :
      (k : String) (t : Seen D) (ts : List (Seen D))
      → offsets k (t ∷ ts) ≡ added (t.child_frame_id == k) (offset d t) ++ offsets k ts
  unfolding added
  offsets-cons k t ts = ground arith

  see_all-window :
      (k : String) (ts : List (Seen D)) (m : Monitor D) (past : List D)
      → m.delay_map k ≡ window past
      → (see_all d ts m).delay_map k ≡ window (past ++ offsets k ts)
  unfolding see_all
  see_all-window k [] m past h = h ∙ ap window (sym (append-nil past))
  see_all-window k (t ∷ ts) m past h =
      let new = added (t.child_frame_id == k) (offset d t) in
      see_all-window k ts _ (past ++ new)
        (log-window m.delay_map t.child_frame_id k (t.child_frame_id == k) (offset d t) past refl h)
      ∙ ap window
          (append_assoc past new (offsets k ts) ∙ ap (λ l. past ++ l) (sym (offsets-cons k t ts)))

  -- After any messages, the delays of a frame are the last 1000 of those that were logged before and
  -- of the offsets of that frame in the messages, in the order in which they came, whatever the other
  -- transforms are; a frame that has not been seen has none.
  pub callbacks-window :
      (k : String) (gs : List (Message D)) (m : Monitor D) (past : List D)
      → m.delay_map k ≡ window past
      → (callbacks gs m).delay_map k ≡ window (past ++ all_offsets k gs)
  unfolding callbacks callback
  callbacks-window k [] m past h = h ∙ ap window (sym (append-nil past))
  callbacks-window k (g ∷ gs) m past h =
      callbacks-window k gs (callback d g.transforms g.now m) (past ++ offsets k g.transforms)
        (see_all-window k g.transforms m past h)
      ∙ ap window (append_assoc past (offsets k g.transforms) (all_offsets k gs))
