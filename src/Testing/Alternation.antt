-- ===== src/Testing/Alternation.antt =====
-- The calls of `onOpen` and `onClose` in a session.
use adlts_core_engine.Prelude.{
  ℕ, ◌≡◌, refl, ap, ◌∙◌, Bool, true, false, ◌&&◌, List, [], ◌∷◌, ◌++◌, Option, none, some, Text,
  text_eq, text_eq_refl, arith,
}
use mathlib.Core.List.{append_assoc}
use adlts_core_engine.Testing.Segmenter.{
  DetectionResult, ActiveManeuver, Callback, opened, closed, Feeding, Segmenter, new_segmenter,
  closing, on_start, on_end, on_event, buffer, feed, flush, feed_all, session,
}
use adlts_core_engine.Testing.Segments.{open_id}

module _ {A : Type 0} where
  -- Maneuvers open and close in turn, each closes under the id that it opened with, and none is
  -- open at the end.
  unfoldable pub alternates : Option Text → List (Callback A) → Bool
  alternates none [] = true
  alternates (some id) [] = false
  alternates none (opened _ id _ _ ∷ calls) = alternates (some id) calls
  alternates none (closed _ _ _ _ ∷ calls) = false
  alternates (some id) (opened _ _ _ _ ∷ calls) = false
  alternates (some id) (closed _ id' _ _ ∷ calls) =
      let rest = alternates none calls in text_eq id id' && rest

  feed-alternates :
      (f : Feeding A) (m : Option ActiveManeuver) (b : List (DetectionResult A))
      (calls : List (Callback A))
      → let s : Segmenter A = record { current = m; frame_buffer = b } in
        alternates (open_id m) ((feed f s).1 ++ calls)
        ≡ alternates (open_id (feed f s).0.current) calls
  unfolding feed on_event on_start on_end buffer closing alternates
  feed-alternates f none b calls = ground arith
  feed-alternates f (some m) b calls = ground (arith, text_eq_refl m.config_id)

  flush-alternates :
      (at : ℕ) (m : Option ActiveManeuver) (b : List (DetectionResult A))
      → let s : Segmenter A = record { current = m; frame_buffer = b } in
        alternates (open_id m) (flush at s).1 ≡ true
  unfolding flush closing alternates
  flush-alternates at none b = refl
  flush-alternates at (some m) b = rw (text_eq_refl m.config_id)

  feed_all-alternates :
      (fs : List (Feeding A)) (s : Segmenter A) (at : ℕ)
      → let r = feed_all fs s in alternates (open_id s.current) (r.1 ++ (flush at r.0).1) ≡ true
  unfolding feed_all
  feed_all-alternates [] s at = flush-alternates at s.current s.frame_buffer
  feed_all-alternates (f ∷ fs) s at =
      let one = feed f s in
      let rest = feed_all fs one.0 in
      ap (alternates (open_id s.current)) (append_assoc one.1 rest.1 (flush at rest.0).1)
      ∙ feed-alternates f s.current s.frame_buffer (rest.1 ++ (flush at rest.0).1)
      ∙ feed_all-alternates fs one.0 at

  -- In a session maneuvers open and close in turn, each closes under the id that it opened with,
  -- and none is left open.
  pub session-alternates :
      (start : DetectionResult A) (now : ℕ) (fs : List (Feeding A)) (at : ℕ)
      → alternates none (session start now fs at) ≡ true
  unfolding session
  session-alternates start now fs at =
      feed_all-alternates (record { result = start; closes_at = now; opens_at = now } ∷ fs)
        new_segmenter at
