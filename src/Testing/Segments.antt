-- ===== src/Testing/Segments.antt =====
-- What the segmenter hands to its callbacks, and what the orchestrator scores of it.
use adlts_core_engine.Prelude.{
  ℕ, ◌≡◌, refl, sym, ap, ◌∙◌, Bool, List, [], ◌∷◌, ◌++◌, Option, none, some, Text, codes, text_eq,
  if◌then◌else◌, arith,
}
use mathlib.Core.List.{append-nil, append_assoc}
use adlts_core_engine.Testing.Segmenter.{
  QrEvent, DetectionResult, ActiveManeuver, Callback, opened, closed, Feeding, Segmenter,
  new_segmenter, closing, on_start, on_end, on_event, buffer, feed, flush, feed_all,
  synthetic_start, session,
}

abbrev pub is_start : QrEvent → Bool
is_start e = text_eq e.action (codes "start")

abbrev pub is_end : QrEvent → Bool
is_end e = text_eq e.action (codes "end")

-- Which maneuver is open after an event, told by its id alone.
abbrev pub opens : QrEvent → Option Text → Option Text
opens e none = none
opens e (some id) = if is_end e then (if text_eq id e.config_id then none else some id) else some id

abbrev pub open_after : Option QrEvent → Option Text → Option Text
open_after none o = o
open_after (some e) o = if is_start e then some e.config_id else opens e o

abbrev pub add_if_open {ℓ} : {A : Type ℓ} → Option Text → A → List A → List A
add_if_open none d ds = ds
add_if_open (some id) d ds = d ∷ ds

abbrev pub open_id : Option ActiveManeuver → Option Text
open_id none = none
open_id (some m) = some m.config_id

module _ {A : Type 0} where
  -- The detections that arrive while a maneuver is open.
  unfoldable pub kept : Option Text → List (Feeding A) → List (DetectionResult A)
  kept o [] = []
  kept o (f ∷ fs) = let o' = open_after f.result.qr_event o in add_if_open o' f.result (kept o' fs)

  -- The frames that the calls of `onClose` are given, one call after another.
  unfoldable pub frames_of : List (Callback A) → List (DetectionResult A)
  frames_of [] = []
  frames_of (opened _ _ _ _ ∷ calls) = frames_of calls
  frames_of (closed _ _ frames _ ∷ calls) = frames ++ frames_of calls

  -- No maneuver is open, or frames are only buffered while one is.
  abbrev pub IsTidy : Segmenter A → Type 0
  IsTidy s = s.current ≡ none → s.frame_buffer ≡ []

  feed-current :
      (f : Feeding A) (s : Segmenter A)
      → open_id (feed f s).0.current ≡ open_after f.result.qr_event (open_id s.current)
  unfolding feed on_event on_start on_end buffer
  feed-current f s = ground arith

  feed-frames :
      (f : Feeding A) (s : Segmenter A)
      → IsTidy s
      → let r = feed f s in
        frames_of r.1 ++ r.0.frame_buffer
        ≡ s.frame_buffer
          ++ add_if_open (open_after f.result.qr_event (open_id s.current)) f.result []
  unfolding feed on_event on_start on_end buffer closing frames_of
  feed-frames f s tidy = ground (arith, append-nil s.frame_buffer)

  feed-IsTidy : (f : Feeding A) (s : Segmenter A) → IsTidy s → IsTidy (feed f s).0
  unfolding feed on_event on_start on_end buffer
  feed-IsTidy f s tidy = ground arith

  frames_of-append :
      (cs ds : List (Callback A)) → frames_of (cs ++ ds) ≡ frames_of cs ++ frames_of ds
  unfolding frames_of
  frames_of-append [] ds = refl
  frames_of-append (opened _ _ _ _ ∷ cs) ds = frames_of-append cs ds
  frames_of-append (closed _ _ frames _ ∷ cs) ds =
      ap (λ l. frames ++ l) (frames_of-append cs ds)
      ∙ sym (append_assoc frames (frames_of cs) (frames_of ds))

  add_if_open-append :
      (o : Option Text) (d : DetectionResult A) (ds : List (DetectionResult A))
      → add_if_open o d [] ++ ds ≡ add_if_open o d ds
  add_if_open-append none d ds = refl
  add_if_open-append (some id) d ds = refl

  feed_all-frames :
      (fs : List (Feeding A)) (s : Segmenter A)
      → IsTidy s
      → let r = feed_all fs s in
        (frames_of r.1 ++ r.0.frame_buffer ≡ s.frame_buffer ++ kept (open_id s.current) fs)
        × IsTidy r.0
  unfolding feed_all kept frames_of
  feed_all-frames [] s tidy = (sym (append-nil s.frame_buffer), tidy)
  feed_all-frames (f ∷ fs) s tidy =
      let one = feed f s in
      let rest = feed_all fs one.0 in
      let (later, end) = feed_all-frames fs one.0 (feed-IsTidy f s tidy) in
      let o = open_after f.result.qr_event (open_id s.current) in
      (
        ap (λ l. l ++ rest.0.frame_buffer) (frames_of-append one.1 rest.1)
            ∙ append_assoc (frames_of one.1) (frames_of rest.1) rest.0.frame_buffer
            ∙ ap (λ l. frames_of one.1 ++ l) later
            ∙ sym (
                append_assoc (frames_of one.1) one.0.frame_buffer (kept (open_id one.0.current) fs))
            ∙ ap (λ l. l ++ kept (open_id one.0.current) fs) (feed-frames f s tidy)
            ∙ append_assoc s.frame_buffer (add_if_open o f.result [])
                (kept (open_id one.0.current) fs)
            ∙ ap (λ l. s.frame_buffer ++ l)
                (ap (λ i. add_if_open o f.result [] ++ kept i fs) (feed-current f s)
                  ∙ add_if_open-append o f.result (kept o fs)),
        end,
      )

  flush-frames : (at : ℕ) (s : Segmenter A) → IsTidy s → frames_of (flush at s).1 ≡ s.frame_buffer
  unfolding flush closing frames_of
  flush-frames at s tidy = ground (arith, append-nil s.frame_buffer)

  -- The frames that a session hands on, taken together, are the synthetic start and then every
  -- detection that arrived while a maneuver was open, once each and in order.
  pub session-frames :
      (maneuver_type config_id : Text) (nothing : A) (now : ℕ) (fs : List (Feeding A)) (at : ℕ)
      → let start = synthetic_start maneuver_type config_id nothing in
        frames_of (session start now fs at) ≡ start ∷ kept (some config_id) fs
  unfolding session kept
  session-frames maneuver_type config_id nothing now fs at =
      let start = synthetic_start maneuver_type config_id nothing in
      let all = record { result = start; closes_at = now; opens_at = now } ∷ fs in
      let r = feed_all all new_segmenter in
      let (kept_all, tidy) = feed_all-frames all new_segmenter (λ _. refl) in
      frames_of-append r.1 (flush at r.0).1
      ∙ ap (λ l. frames_of r.1 ++ l) (flush-frames at r.0 tidy)
      ∙ kept_all
