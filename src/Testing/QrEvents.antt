-- ===== src/Testing/QrEvents.antt =====
-- `parseQREvent` of internal/testing/lane_client.go, and the text of a QR card.
use adlts_core_engine.Prelude.{
  ℕ, zero, suc, ◌≡◌, refl, false, List, [], ◌∷◌, ◌++◌, Option, none, some, Text, codes, text_eq,
  ◌==◌, if◌then◌else◌, is_empty, All,
}
use adlts_core_engine.Testing.Segmenter.{QrEvent}

abbrev pub colon : ℕ
colon = b':'

-- A text cut at its first colon.
abbrev pub prefixed : ℕ → Text × Option Text → Text × Option Text
prefixed c (s, rest) = (c ∷ s, rest)

unfoldable pub cut : Text → Text × Option Text
cut [] = ([], none)
cut (c ∷ s) = let r = cut s in if c == colon then ([], some s) else prefixed c r

abbrev pub split_rest : Text × Option Text → (Text → List Text) → List Text
split_rest (a, none) rest = a ∷ []
split_rest (a, some b) rest = a ∷ rest b

-- `strings.SplitN(s, ":", n)` for a positive n.
unfoldable pub split_n : ℕ → Text → List Text
split_n zero s = []
split_n (suc zero) s = s ∷ []
split_n (suc (suc n)) s = split_rest (cut s) (split_n (suc n))

-- The action that the letter of a card stands for.
abbrev pub action_of_letter : Text → Option Text
action_of_letter s =
    if text_eq s (codes "S")
    then some (codes "start")
    else if text_eq s (codes "E")
    then some (codes "end")
    else none

abbrev pub event_of : Text → Option Text → Text → Text → Option QrEvent
event_of raw none maneuver_type config_id = none
event_of raw (some action) maneuver_type config_id =
    some
      (record { action = action; maneuver_type = maneuver_type; config_id = config_id; raw = raw })

-- The parts of a card: a mark, a letter, a maneuver type and the rest.
unfoldable pub event_of_parts : Text → List Text → Option QrEvent
event_of_parts raw (mark ∷ letter ∷ maneuver_type ∷ config_id ∷ []) =
    if text_eq mark (codes "ADLTS")
    then event_of raw (action_of_letter letter) maneuver_type config_id
    else none
event_of_parts raw _ = none

unfoldable pub parse_qr_event : Option Text → Option QrEvent
parse_qr_event none = none
parse_qr_event (some raw) = if is_empty raw then none else event_of_parts raw (split_n 4 raw)

-- The text of a card, as the orchestrator writes it for a start.
abbrev pub card : Text → Text → Text → Text
card letter maneuver_type config_id =
    codes "ADLTS:" ++ (letter ++ (colon ∷ (maneuver_type ++ (colon ∷ config_id))))

abbrev pub NoColon : Text → Type 0
NoColon s = All (λ c. (c == colon) ≡ false) s

cut-append : (s t : Text) → NoColon s → cut (s ++ colon ∷ t) ≡ (s, some t)
unfolding cut
cut-append [] t h = refl
cut-append (c ∷ s) t (h, hs) = rw (h, cut-append s t hs)

-- A card whose maneuver type has no colon is read back as what was written, whatever its id.
pub parse_qr_event-card :
    (maneuver_type config_id : Text)
    → NoColon maneuver_type
    → let start = card (codes "S") maneuver_type config_id in
      let end = card (codes "E") maneuver_type config_id in
      (parse_qr_event (some start)
        ≡ some (record {
          action = codes "start";
          maneuver_type = maneuver_type;
          config_id = config_id;
          raw = start;
        }))
      × (parse_qr_event (some end)
          ≡ some (record {
            action = codes "end";
            maneuver_type = maneuver_type;
            config_id = config_id;
            raw = end;
          }))
unfolding parse_qr_event event_of_parts split_n cut
parse_qr_event-card maneuver_type config_id plain =
    (rw (cut-append maneuver_type config_id plain), rw (cut-append maneuver_type config_id plain))
