-- ===== src/Testing/Segmenter.antt =====
-- `ManeuverSegmenter` of internal/testing/stream.go, and the session that the orchestrator of
-- internal/testing/scoring.go makes with it for one maneuver. What a callback is given is an
-- element of a list, in the order of the calls.
use adlts_core_engine.Prelude.{
  ℕ, Bool, false, List, [], ◌∷◌, ◌++◌, Option, none, some, Text, codes, text_eq, if◌then◌else◌,
}

pub record QrEvent : Type 0 where
  pub action : Text
  pub maneuver_type : Text
  pub config_id : Text
  pub raw : Text

-- A detection: `A` is what it measured, which the segmenter does not read.
pub record DetectionResult (A : Type 0) : Type 0 where
  pub frame_seq_no : ℕ
  pub qr_event : Option QrEvent
  pub measured : A

pub record ActiveManeuver : Type 0 where
  pub maneuver_type : Text
  pub config_id : Text
  pub start_frame : ℕ
  pub started_at : ℕ

-- A call of `onOpen` or of `onClose`.
pub data Callback (A : Type 0) : Type 0 where
  opened : (maneuver_type config_id : Text) (start_frame started_at : ℕ) → Callback A
  closed :
      (maneuver_type config_id : Text) (frames : List (DetectionResult A)) (ended_at : ℕ)
      → Callback A

-- A detection with what the clock says if it closes a maneuver, and if it then opens one.
pub record Feeding (A : Type 0) : Type 0 where
  pub result : DetectionResult A
  pub closes_at : ℕ
  pub opens_at : ℕ

-- The segmenter, both of whose callbacks are set.
pub record Segmenter (A : Type 0) : Type 0 where
  pub current : Option ActiveManeuver
  pub frame_buffer : List (DetectionResult A)

abbrev pub is_open_as : Text → Option ActiveManeuver → Bool
is_open_as id none = false
is_open_as id (some m) = text_eq m.config_id id

module _ {A : Type 0} where
  abbrev pub new_segmenter : Segmenter A
  new_segmenter = record { current = none; frame_buffer = [] }

  -- The call of `onClose` for the maneuver that is open, if one is.
  unfoldable pub closing : Segmenter A → ℕ → List (Callback A)
  closing s at = elim s.current [
    | none ↦ []
    | some m ↦ closed m.maneuver_type m.config_id s.frame_buffer at ∷ []
  ]

  unfoldable pub on_start : QrEvent → Feeding A → Segmenter A → Segmenter A × List (Callback A)
  on_start e f s = (
    record {
      current = some (record {
        maneuver_type = e.maneuver_type;
        config_id = e.config_id;
        start_frame = f.result.frame_seq_no;
        started_at = f.opens_at;
      });
      frame_buffer = [];
    },
    closing s f.closes_at
        ++ opened e.maneuver_type e.config_id f.result.frame_seq_no f.opens_at ∷ [],
  )

  unfoldable pub on_end : QrEvent → Feeding A → Segmenter A → Segmenter A × List (Callback A)
  on_end e f s =
      if is_open_as e.config_id s.current then (new_segmenter, closing s f.closes_at) else (s, [])

  -- The `switch` on the event of the detection.
  unfoldable pub on_event :
      Option QrEvent → Feeding A → Segmenter A → Segmenter A × List (Callback A)
  on_event none f s = (s, [])
  on_event (some e) f s =
      if text_eq e.action (codes "start")
      then on_start e f s
      else if text_eq e.action (codes "end")
      then on_end e f s
      else (s, [])

  -- `if ms.current != nil { ms.frameBuffer = append(ms.frameBuffer, dr) }`.
  unfoldable pub buffer : DetectionResult A → Segmenter A → Segmenter A
  buffer d s = elim s.current [
    | none ↦ s
    | some m ↦ record { current = some m; frame_buffer = s.frame_buffer ++ d ∷ [] }
  ]

  unfoldable pub feed : Feeding A → Segmenter A → Segmenter A × List (Callback A)
  feed f s = let (s', calls) = on_event f.result.qr_event f s in (buffer f.result s', calls)

  unfoldable pub flush : ℕ → Segmenter A → Segmenter A × List (Callback A)
  flush at s = elim s.current [ none ↦ (s, []) | some m ↦ (new_segmenter, closing s at) ]

  -- The detections of a stream fed one after another.
  unfoldable pub feed_all : List (Feeding A) → Segmenter A → Segmenter A × List (Callback A)
  feed_all [] s = (s, [])
  feed_all (f ∷ fs) s =
      let (s', calls) = feed f s in let (s'', rest) = feed_all fs s' in (s'', calls ++ rest)

  -- What the orchestrator feeds for a maneuver: a start that no card was scanned for, the
  -- detections of the stream, and the flush when it has ended.
  abbrev pub synthetic_start : Text → Text → A → DetectionResult A
  synthetic_start maneuver_type config_id nothing = record {
    frame_seq_no = 0;
    qr_event = some (record {
      action = codes "start";
      maneuver_type = maneuver_type;
      config_id = config_id;
      raw = [];
    });
    measured = nothing;
  }

  unfoldable pub session : DetectionResult A → ℕ → List (Feeding A) → ℕ → List (Callback A)
  session start now fs at =
      let (s, calls) =
        feed_all (record { result = start; closes_at = now; opens_at = now } ∷ fs) new_segmenter in
      let (_, rest) = flush at s in calls ++ rest

  -- The frames that are scored: `scoringCalled.Do` passes the first call of `onClose` only.
  unfoldable pub scored : List (Callback A) → Option (List (DetectionResult A))
  scored [] = none
  scored (opened _ _ _ _ ∷ calls) = scored calls
  scored (closed _ _ frames _ ∷ calls) = some frames
