-- ===== src/Testing/Scored.antt =====
-- Which frames of a session are scored.
use adlts_core_engine.Prelude.{
  ℕ, ◌≡◌, sym, ap, ◌∙◌, inl, inr, Bool, true, false, List, [], ◌∷◌, ◌++◌, Option, none, some, Text,
  text_eq, if◌then◌else◌, Bool-cases, arith,
}
use mathlib.Core.List.{append-nil, append_assoc}
use adlts_core_engine.Testing.Segmenter.{
  QrEvent, DetectionResult, ActiveManeuver, Callback, Feeding, closing, on_start, on_end, on_event,
  buffer, feed, flush, feed_all, synthetic_start, session, scored,
}
use adlts_core_engine.Testing.Segments.{is_start, is_end}

-- An event that closes the maneuver of the given id: any start, or its own end.
abbrev pub closes : Text → Option QrEvent → Bool
closes id none = false
closes id (some e) = if is_start e then true else if is_end e then text_eq id e.config_id else false

module _ {A : Type 0} where
  -- The detections before the first that closes the maneuver.
  unfoldable pub first_segment : Text → List (Feeding A) → List (DetectionResult A)
  first_segment id [] = []
  first_segment id (f ∷ fs) =
      let rest = first_segment id fs in if closes id f.result.qr_event then [] else f.result ∷ rest

  module _ (m : ActiveManeuver) where
    feed-stays :
        (f : Feeding A) (b : List (DetectionResult A))
        → closes m.config_id f.result.qr_event ≡ false
        → feed f (record { current = some m; frame_buffer = b })
          ≡ (record { current = some m; frame_buffer = b ++ f.result ∷ [] }, [])
    unfolding feed on_event on_start on_end buffer
    feed-stays f b open_ = ground arith

    feed-closes :
        (f : Feeding A) (b : List (DetectionResult A)) (calls : List (Callback A))
        → closes m.config_id f.result.qr_event ≡ true
        → scored ((feed f (record { current = some m; frame_buffer = b })).1 ++ calls) ≡ some b
    unfolding feed on_event on_start on_end closing scored
    feed-closes f b calls shut = ground arith

    feed_all-scored :
        (fs : List (Feeding A)) (b : List (DetectionResult A)) (at : ℕ)
        → let r = feed_all fs (record { current = some m; frame_buffer = b }) in
          scored (r.1 ++ (flush at r.0).1) ≡ some (b ++ first_segment m.config_id fs)
    unfolding feed_all flush closing scored first_segment
    feed_all-scored [] b at = ap some (sym (append-nil b))
    feed_all-scored (f ∷ fs) b at = elim (Bool-cases (closes m.config_id f.result.qr_event)) [
      | inl shut ↦
          let one = feed f (record { current = some m; frame_buffer = b }) in
          let rest = feed_all fs one.0 in
          ap scored (append_assoc one.1 rest.1 (flush at rest.0).1)
          ∙ feed-closes f b (rest.1 ++ (flush at rest.0).1) shut
          ∙ rw (shut, append-nil b)
      | inr open_ ↦
          rw (open_, feed-stays f b open_)
            (feed_all-scored fs (b ++ f.result ∷ []) at
              ∙ ap some (append_assoc b (f.result ∷ []) (first_segment m.config_id fs)))
    ]

  -- Every session is scored, on the synthetic start and the detections before the first start card
  -- or the end card of the maneuver, and on nothing after.
  pub session-scored :
      (maneuver_type config_id : Text) (nothing : A) (now : ℕ) (fs : List (Feeding A)) (at : ℕ)
      → let start = synthetic_start maneuver_type config_id nothing in
        scored (session start now fs at) ≡ some (start ∷ first_segment config_id fs)
  unfolding session feed_all feed on_event on_start buffer closing scored
  session-scored maneuver_type config_id nothing now fs at =
      let start = synthetic_start maneuver_type config_id nothing in
      let m : ActiveManeuver = record {
        maneuver_type = maneuver_type;
        config_id = config_id;
        start_frame = 0;
        started_at = now;
      } in
      feed_all-scored m fs (start ∷ []) at

  before-start :
      (id : Text) (before : List (Feeding A)) (card : Feeding A) (rest : List (Feeding A))
      → closes id card.result.qr_event ≡ true
      → first_segment id (before ++ card ∷ rest) ≡ first_segment id before
  unfolding first_segment
  before-start id [] card rest shut = rw shut
  before-start id (f ∷ fs) card rest shut = rw (before-start id fs card rest shut)

  -- Once a start card is scanned, nothing that the stream shows from then on counts: what is
  -- scored is the synthetic start and the detections before the card, up to any that closed the
  -- segment earlier.
  session-ignores_maneuver :
      (maneuver_type config_id : Text) (nothing : A) (now : ℕ) (before : List (Feeding A))
      (card : Feeding A) (rest : List (Feeding A)) (at : ℕ) (e : QrEvent)
      → card.result.qr_event ≡ some e
      → is_start e ≡ true
      → let start = synthetic_start maneuver_type config_id nothing in
        scored (session start now (before ++ card ∷ rest) at)
        ≡ some (start ∷ first_segment config_id before)
  session-ignores_maneuver maneuver_type config_id nothing now before card rest at e scan is =
      let start = synthetic_start maneuver_type config_id nothing in
      session-scored maneuver_type config_id nothing now (before ++ card ∷ rest) at
      ∙ ap (λ l. some (start ∷ l)) (before-start config_id before card rest (rw (scan, is)))
