-- ===== src/Booking/Chapa/Reference.antt =====
-- `generateTxRef` keeps the gateway's limit of 50 characters, and its nonce can be read back.
use adlts_core_engine.Prelude.{
  ℕ, zero, suc, ◌+◌, ◌-◌, ◌*◌, ◌/◌, ◌%◌, ◌≤◌, ◌<◌, ◌≡◌, refl, ap, ◌∙◌, inl, inr, ◌⊎◌, All, false,
  not, [], ◌∷◌, ◌++◌, Text, codes, ltb, leb, ◌==◌, keep_if, length, take, length-append,
  length-take-le, if◌then◌else◌, Bool-cases, arith,
}
use adlts_core_engine.Booking.Chapa.{digit_36, digits_36, format_base_36, generate_tx_ref}

-- The value of a digit, and of a text of digits behind a number.
abbrev pub digit_value : ℕ → ℕ
digit_value c = if leb b'a' c then c - b'a' + 10 else c - b'0'

abbrev pub value_36 : ℕ → Text → ℕ
value_36 n [] = n
value_36 n (c ∷ s) = value_36 (n * 36 + digit_value c) s

-- 36 ^ f.
abbrev limit_36 : ℕ → ℕ
limit_36 zero = 1
limit_36 (suc f) = 36 * limit_36 f

digit_value-digit_36 : (d : ℕ) → d < 36 → digit_value (digit_36 d) ≡ d
unfolding digit_36
digit_value-digit_36 d h = ground arith

value_36-digits_36 :
    (f n : ℕ) (acc : Text)
    → n < limit_36 f
    → 0 < f
    → value_36 0 (digits_36 f n acc) ≡ value_36 n acc
unfolding digits_36
value_36-digits_36 zero n acc h pos = absurd (omega arith)
value_36-digits_36 (suc f) n acc h pos = elim (Bool-cases (ltb n 36)) [
  | inl small ↦ rw small (ap (λ k. value_36 k acc) (ground (arith, digit_value-digit_36 n)))
  | inr big ↦ rw big (
      value_36-digits_36 f (n / 36) (digit_36 (n % 36) ∷ acc) (omega arith) (more f n h big)
      ∙ ap (λ k. value_36 k acc) (omega (arith, digit_value-digit_36 (n % 36))))
]
  where
    more : (f n : ℕ) → n < limit_36 (suc f) → ltb n 36 ≡ false → 0 < f
    more zero n h big = absurd (ground arith)
    more (suc f) n h big = omega arith

length-digits_36 : (f n : ℕ) (acc : Text) → length (digits_36 f n acc) ≤ f + length acc
unfolding digits_36
length-digits_36 zero n acc = omega arith
length-digits_36 (suc f) n acc = elim (Bool-cases (ltb n 36)) [
  | inl small ↦ rw small (omega arith)
  | inr big ↦ rw big (omega (arith, length-digits_36 f (n / 36) (digit_36 (n % 36) ∷ acc)))
]

-- Every nanosecond count of an int64 is the value of its nonce, which has at most 13 digits.
nonce-exact : (n : ℕ) → n < 9223372036854775808 → value_36 0 (format_base_36 n) ≡ n
unfolding format_base_36
nonce-exact n h = value_36-digits_36 13 n [] (omega arith) (omega arith)

-- A digit of base 36: one of 0-9 or a-z.
abbrev pub IsDigit : ℕ → Type 0
IsDigit c = ((b'0' ≤ c) × (c ≤ b'9')) ⊎ ((b'a' ≤ c) × (c ≤ b'z'))

digit_36-IsDigit : (d : ℕ) → d < 36 → IsDigit (digit_36 d)
unfolding digit_36
digit_36-IsDigit d h = elim (Bool-cases (ltb d 10)) [
  | inl e ↦ rw e (inl (omega arith, ground arith))
  | inr e ↦ rw e (inr (ground arith, omega arith))
]

digits_36-IsDigit : (f n : ℕ) (acc : Text) → All IsDigit acc → All IsDigit (digits_36 f n acc)
unfolding digits_36
digits_36-IsDigit zero n acc h = h
digits_36-IsDigit (suc f) n acc h = elim (Bool-cases (ltb n 36)) [
  | inl small ↦ rw small (digit_36-IsDigit n (ground arith), h)
  | inr big ↦ rw big (
      digits_36-IsDigit f (n / 36) (digit_36 (n % 36) ∷ acc)
        (digit_36-IsDigit (n % 36) (omega arith), h))
]

-- A reference that ends in an underscore and the time, as a number in base 36.
pub record Stamped (nanos : ℕ) (reference : Text) : Type 0 where
  pub prefix : Text
  pub nonce : Text
  pub reference_is : reference ≡ codes "adlts_" ++ (prefix ++ (codes "_" ++ nonce))
  pub digits : All IsDigit nonce
  pub value : value_36 0 nonce ≡ nanos

-- At any time of the int64 clock a reference has at most 50 characters, whatever the booking's id,
-- and what stands behind its last underscore are digits of base 36 whose value is the time.
pub generate_tx_ref-fits :
    (id : Text) (nanos : ℕ)
    → nanos < 9223372036854775808
    → (length (generate_tx_ref id nanos) ≤ 50) × Stamped nanos (generate_tx_ref id nanos)
unfolding generate_tx_ref format_base_36
generate_tx_ref-fits id nanos h =
    let compact = keep_if (λ c. not (c == b'-')) id in
    (
      omega (
        arith,
        length-append (take 24 compact) (codes "_" ++ format_base_36 nanos),
        length-take-le 24 compact,
        length-digits_36 13 nanos [],
      ),
      record {
        prefix = take 24 compact;
        nonce = format_base_36 nanos;
        reference_is = refl;
        digits = digits_36-IsDigit 13 nanos [] tt;
        value = nonce-exact nanos h;
      },
    )
