-- ===== src/Testing/Examples.antt =====
-- A short stream, and the theorems on sessions applied to it.
use adlts_core_engine.Prelude.{ℕ, ◌+◌, ◌≡◌, true, List, [], ◌∷◌, ◌++◌, Option, none, some, codes}
use adlts_core_engine.Testing.Segmenter.{
  QrEvent, DetectionResult, Feeding, synthetic_start, session, scored,
}
use adlts_core_engine.Testing.Segments.{kept, frames_of, session-frames}
use adlts_core_engine.Testing.Alternation.{alternates, session-alternates}
use adlts_core_engine.Testing.Scored.{first_segment, session-scored}

-- A detection at a frame, which measured its number.
abbrev shown : ℕ → Option QrEvent → Feeding ℕ
shown n e = record {
  result = record { frame_seq_no = n; qr_event = e; measured = n };
  closes_at = 100 + n;
  opens_at = 200 + n;
}

abbrev start_card : QrEvent
start_card = record {
  action = codes "start";
  maneuver_type = codes "parking";
  config_id = codes "m1";
  raw = codes "ADLTS:S:parking:m1";
}

abbrev end_card : QrEvent
end_card = record start_card { action = codes "end" }

-- One frame before the card, two in the maneuver, one after it.
abbrev before : List (Feeding ℕ)
before = shown 1 none ∷ []

abbrev maneuver : List (Feeding ℕ)
maneuver = shown 3 none ∷ shown 4 none ∷ shown 5 (some end_card) ∷ shown 6 none ∷ []

abbrev stream : List (Feeding ℕ)
stream = before ++ shown 2 (some start_card) ∷ maneuver

abbrev start : DetectionResult ℕ
start = synthetic_start (codes "parking") (codes "m1") 0

session-frames_example :
    frames_of (session start 7 stream 300) ≡ start ∷ kept (some (codes "m1")) stream
session-frames_example = session-frames (codes "parking") (codes "m1") 0 7 stream 300

session-alternates_example : alternates none (session start 7 stream 300) ≡ true
session-alternates_example = session-alternates start 7 stream 300

session-scored_example :
    scored (session start 7 stream 300) ≡ some (start ∷ first_segment (codes "m1") stream)
session-scored_example = session-scored (codes "parking") (codes "m1") 0 7 stream 300
