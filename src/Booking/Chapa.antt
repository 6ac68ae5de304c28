-- ===== src/Booking/Chapa.antt =====
-- The pure functions around the Chapa gateway: `normalizeChapaStatus` of internal/booking/service.go,
-- `generateTxRef` and `normalizeChapaPhone` of internal/booking/chapa_provider.go.
pub mod Status
pub mod Reference
pub mod Phone
use adlts_core_engine.Prelude.{
  ℕ, zero, suc, ◌+◌, ◌-◌, ◌/◌, ◌%◌, Bool, true, false, not, ◌&&◌, ◌||◌, List, [], ◌∷◌, ◌++◌, map,
  String, Text, codes, text_eq, is_empty, trim_space, to_lower, ◌==◌, ltb, leb, if◌then◌else◌,
  keep_if, length, take, drop,
}

-- What the status of a transaction comes down to.
pub data ChapaStatus : Type 0 where
  success pending failed : ChapaStatus
  other : Text → ChapaStatus

unfoldable pub is_one_of : List Text → Text → Bool
is_one_of [] s = false
is_one_of (t ∷ ts) s = text_eq s t || is_one_of ts s

abbrev pub success_words : List Text
success_words = codes "success" ∷ codes "successful" ∷ []

abbrev pub failed_words : List Text
failed_words =
    codes "failed"
    ∷ codes "cancelled"
    ∷ codes "canceled"
    ∷ codes "failed/cancelled"
    ∷ codes "failed/canceled"
    ∷ codes "reversed"
    ∷ codes "refunded"
    ∷ []

-- The switch of `normalizeChapaStatus`, after trimming and lowering.
unfoldable pub classify : Text → ChapaStatus
classify s =
    if is_one_of success_words s
    then success
    else if text_eq s (codes "pending")
    then pending
    else if is_one_of failed_words s
    then failed
    else other s

unfoldable pub normalize_chapa_status : Text → ChapaStatus
normalize_chapa_status s = classify (map to_lower (trim_space s))

-- The digits of `strconv.FormatInt(n, 36)`, most significant first. Each round divides by 36, so
-- 13 rounds are enough below 36 ^ 13, which is above the largest int64.
unfoldable pub digit_36 : ℕ → ℕ
digit_36 d = if ltb d 10 then b'0' + d else b'a' + d - 10

unfoldable pub digits_36 : ℕ → ℕ → Text → Text
digits_36 zero n acc = acc
digits_36 (suc f) n acc =
    let rest = digits_36 f (n / 36) (digit_36 (n % 36) ∷ acc) in
    if ltb n 36 then digit_36 n ∷ acc else rest

unfoldable pub format_base_36 : ℕ → Text
unfolding digits_36
format_base_36 n = digits_36 13 n []

unfoldable pub generate_tx_ref : Text → ℕ → Text
unfolding format_base_36
generate_tx_ref booking_id nanos =
    let compact = keep_if (λ c. not (c == b'-')) booking_id in
    codes "adlts_" ++ (take 24 compact ++ (codes "_" ++ format_base_36 nanos))

abbrev pub has_prefix : Text → Text → Bool
has_prefix [] s = true
has_prefix (c ∷ p) [] = false
has_prefix (c ∷ p) (d ∷ s) = (c == d) && has_prefix p s

unfoldable pub is_separator : ℕ → Bool
is_separator c = c == b' ' || c == b'-' || c == b'(' || c == b')'

abbrev pub is_digit : ℕ → Bool
is_digit c = leb b'0' c && leb c b'9'

unfoldable pub all_digits : Text → Bool
all_digits [] = true
all_digits (c ∷ s) = is_digit c && all_digits s

-- The country code, or the missing trunk prefix, becomes a leading 0.
unfoldable pub localize : Text → Text
localize p =
    if has_prefix (codes "+251") p
    then b'0' ∷ drop 4 p
    else if has_prefix (codes "251") p
    then b'0' ∷ drop 3 p
    else if (has_prefix (codes "9") p || has_prefix (codes "7") p) && length p == 9
    then b'0' ∷ p
    else p

unfoldable pub is_mobile : Text → Bool
is_mobile p =
    length p == 10 && (has_prefix (codes "09") p || has_prefix (codes "07") p) && all_digits p

unfoldable pub normalize_chapa_phone : Text → Text
normalize_chapa_phone phone =
    let p = trim_space phone in
    if is_empty p
    then []
    else let local = localize (keep_if (λ c. not (is_separator c)) p) in
      if is_mobile local then local else []
