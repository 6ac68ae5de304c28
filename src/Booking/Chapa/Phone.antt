-- ===== src/Booking/Chapa/Phone.antt =====
-- `normalizeChapaPhone` brings the ways of writing one mobile number to one form, and leaves that
-- form alone.
use adlts_core_engine.Prelude.{
  ℕ, ◌≡◌, refl, ◌∙◌, inl, inr, ◌⊎◌, true, false, not, ◌||◌, [], ◌∷◌, ◌++◌, Text, codes, is_space,
  trim_left, trim_right, trim_space, ◌==◌, keep_if, length, if◌then◌else◌, arith,
}
use adlts_core_engine.Booking.Chapa.{
  is_separator, is_digit, all_digits, localize, is_mobile, normalize_chapa_phone,
}

is_space-digit : (c : ℕ) → is_digit c ≡ true → is_space c ≡ false
unfolding is_space
is_space-digit c h = ground arith

is_separator-digit : (c : ℕ) → is_digit c ≡ true → is_separator c ≡ false
unfolding is_separator
is_separator-digit c h = ground arith

keep_if-digits : (s : Text) → all_digits s ≡ true → keep_if (λ c. not (is_separator c)) s ≡ s
unfolding keep_if all_digits
keep_if-digits [] h = refl
keep_if-digits (c ∷ s) h = ground (arith, is_separator-digit c, keep_if-digits s)

trim_right-digits : (s : Text) → all_digits s ≡ true → trim_right is_space s ≡ s
unfolding trim_right all_digits
trim_right-digits [] h = refl
trim_right-digits (c ∷ s) h = ground (arith, is_space-digit c, trim_right-digits s)

-- Behind a character that is neither space nor separator, trimming and filtering leave digits alone.
cleaned :
    (c : ℕ) (s : Text)
    → is_space c ≡ false
    → is_separator c ≡ false
    → all_digits s ≡ true
    → (trim_space (c ∷ s) ≡ c ∷ s) × (keep_if (λ c. not (is_separator c)) (c ∷ s) ≡ c ∷ s)
unfolding trim_space trim_left trim_right keep_if
cleaned c s space sep digits =
    (ground (arith, trim_right-digits s digits), ground (arith, keep_if-digits s digits))

normalize-cleaned :
    (c : ℕ) (s : Text)
    → is_space c ≡ false
    → is_separator c ≡ false
    → all_digits s ≡ true
    → normalize_chapa_phone (c ∷ s)
      ≡ (if is_mobile (localize (c ∷ s)) then localize (c ∷ s) else [])
unfolding normalize_chapa_phone
normalize-cleaned c s space sep digits = let (t, k) = cleaned c s space sep digits in rw (t, k)

mobile-digits :
    (c : ℕ) (s : Text) → is_mobile (c ∷ s) ≡ true → (is_digit c ≡ true) × (all_digits s ≡ true)
unfolding is_mobile all_digits
mobile-digits c s h = ground arith

localize-mobile : (c : ℕ) (s : Text) → is_mobile (c ∷ s) ≡ true → localize (c ∷ s) ≡ c ∷ s
unfolding is_mobile localize
localize-mobile c s h = ground arith

normalize-empty : normalize_chapa_phone [] ≡ []
unfolding normalize_chapa_phone trim_space trim_left trim_right
normalize-empty = refl

not_mobile-empty : is_mobile [] ≡ false
unfolding is_mobile
not_mobile-empty = refl

-- A number in the form that the gateway takes stays as it is.
normalize-mobile : (s : Text) → is_mobile s ≡ true → normalize_chapa_phone s ≡ s
normalize-mobile [] h = normalize-empty
normalize-mobile (c ∷ s) h =
    let (digit, digits) = mobile-digits c s h in
    normalize-cleaned c s (is_space-digit c digit) (is_separator-digit c digit) digits
    ∙ simp (localize-mobile c s h, h)

-- The result is the empty text or a mobile number.
normalize-cases :
    (s : Text) → (normalize_chapa_phone s ≡ []) ⊎ (is_mobile (normalize_chapa_phone s) ≡ true)
unfolding normalize_chapa_phone
normalize-cases s = ground arith

-- Normalizing a normalized number changes nothing.
normalize_chapa_phone_idem :
    (s : Text) → normalize_chapa_phone (normalize_chapa_phone s) ≡ normalize_chapa_phone s
normalize_chapa_phone_idem s = elim (normalize-cases s) [
  | inl e ↦ rw e normalize-empty
  | inr e ↦ normalize-mobile (normalize_chapa_phone s) e
]

-- The nine digits of a subscriber, which begin with 9 or 7.
pub record Subscriber (a : ℕ) (s : Text) : Type 0 where
  pub starts : ((a == b'9') || (a == b'7')) ≡ true
  pub nine : length (a ∷ s) ≡ 9
  pub digits : all_digits s ≡ true

module _ (a : ℕ) (s : Text) (h : Subscriber a s) where
  mobile : is_mobile (b'0' ∷ a ∷ s) ≡ true
  unfolding is_mobile all_digits
  mobile = ground (arith, h.starts, h.nine, h.digits)

  -- What all ways of writing come to, once the local form is known.
  comes_to :
      (c : ℕ) (t : Text)
      → is_space c ≡ false
      → is_separator c ≡ false
      → all_digits t ≡ true
      → localize (c ∷ t) ≡ b'0' ∷ a ∷ s
      → normalize_chapa_phone (c ∷ t) ≡ b'0' ∷ a ∷ s
  comes_to c t space sep digits e = normalize-cleaned c t space sep digits ∙ simp (e, mobile)

  subscriber-digits : all_digits (a ∷ s) ≡ true
  unfolding all_digits
  subscriber-digits = ground (arith, h.starts, h.digits)

  -- A subscriber's number is brought to the same ten digits from its international form with and
  -- without plus, from its national form, and from the nine digits alone.
  normalize_chapa_phone-forms :
      let local = b'0' ∷ a ∷ s in
      (normalize_chapa_phone (codes "+251" ++ a ∷ s) ≡ local)
      × (normalize_chapa_phone (codes "251" ++ a ∷ s) ≡ local)
      × (normalize_chapa_phone local ≡ local)
      × (normalize_chapa_phone (a ∷ s) ≡ local)
  unfolding localize is_space is_separator all_digits
  normalize_chapa_phone-forms = (
    comes_to b'+' (codes "251" ++ a ∷ s) refl refl (ground (arith, subscriber-digits)) refl,
    comes_to b'2' (codes "51" ++ a ∷ s) refl refl (ground (arith, subscriber-digits)) refl,
    normalize-mobile (b'0' ∷ a ∷ s) mobile,
    comes_to a s (ground (arith, h.starts)) (ground (arith, h.starts)) h.digits
        (ground (arith, h.starts, h.nine)),
  )
