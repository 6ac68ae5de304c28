-- ===== src/Booking/Invariant/Attempts.antt =====
-- The payments of one booking are numbered 1, 2, 3 in the order in which they were made.
use adlts_core_engine.Prelude.{
  ℕ, ◌+◌, ◌-◌, ◌≤◌, ◌<◌, ◌≡◌, inl, inr, sym, ◌∙◌, Bool, List, [], ◌∷◌, ◌++◌, arith, ◌==◌, ==_iff,
  if◌then◌else◌, Bool-cases, All, All-append, All-keep_if, keep_if, count_if, update_by,
}
use adlts_core_engine.Booking.Types.{Payment}
use adlts_core_engine.Booking.Repository.{is_payment_of, latest_attempt}
use adlts_core_engine.Booking.Service.{max_attempts}
use adlts_core_engine.Booking.Invariant.WellFormed.{AttemptInRange, After, AttemptsGrow}

-- No attempt at paying the booking is numbered above `n`.
abbrev UpTo : ℕ → ℕ → Payment → Type 0
UpTo booking n p = p.booking_id ≡ booking → p.attempt_number ≤ n

latest_attempt-UpTo :
    (booking n : ℕ) (ps : List Payment) → latest_attempt booking ps ≤ n → All (UpTo booking n) ps
unfolding latest_attempt
latest_attempt-UpTo booking n [] h = tt
latest_attempt-UpTo booking n (p ∷ ps) h =
    (ground arith, latest_attempt-UpTo booking n ps (ground arith))

All-After :
    (r : Payment) (ps : List Payment)
    → All (UpTo r.booking_id (r.attempt_number - 1)) ps
    → 1 ≤ r.attempt_number
    → All (λ p. After p r) ps
All-After r [] h one = tt
All-After r (p ∷ ps) h one = (
  λ e. let below : p.attempt_number ≤ r.attempt_number - 1 = h.0 (sym e) in omega arith,
  All-After r ps h.1 one,
)

AttemptsGrow-snoc :
    (ps : List Payment) (r : Payment)
    → All (λ p. After p r) ps
    → AttemptsGrow ps
    → AttemptsGrow (ps ++ r ∷ [])
AttemptsGrow-snoc [] r a g = (tt, tt)
AttemptsGrow-snoc (p ∷ ps) r a g =
    (All-append (After p) ps (r ∷ []) g.0 (a.0, tt), AttemptsGrow-snoc ps r a.1 g.1)

-- A payment that takes the number behind the latest keeps the numbers growing.
pub AttemptsGrow-append :
    (ps : List Payment) (r : Payment)
    → r.attempt_number ≡ latest_attempt r.booking_id ps + 1
    → AttemptsGrow ps
    → AttemptsGrow (ps ++ r ∷ [])
AttemptsGrow-append ps r e g =
    AttemptsGrow-snoc ps r
      (All-After r ps (latest_attempt-UpTo r.booking_id (r.attempt_number - 1) ps (omega arith))
        (omega arith))
      g

module _ (k : ℕ) (f : Payment → Payment)
    (same : (p : Payment)
      → ((f p).booking_id ≡ p.booking_id) × ((f p).attempt_number ≡ p.attempt_number)) where
  After-update_by :
      (p q : Payment) (ps : List Payment)
      → (q.booking_id ≡ p.booking_id) × (q.attempt_number ≡ p.attempt_number)
      → All (After p) ps
      → All (After q) (update_by (λ (p : Payment). p.id) k f ps)
  unfolding update_by
  After-update_by p q [] e a = tt
  After-update_by p q (r ∷ ps) e a = (ground (arith, same r, a.0), After-update_by p q ps e a.1)

  pub AttemptsGrow-update_by :
      (ps : List Payment)
      → AttemptsGrow ps
      → AttemptsGrow (update_by (λ (p : Payment). p.id) k f ps)
  unfolding update_by
  AttemptsGrow-update_by [] g = tt
  AttemptsGrow-update_by (p ∷ ps) g = (
    After-update_by p (if p.id == k then f p else p) ps (ground (arith, same p)) g.0,
    AttemptsGrow-update_by ps g.1,
  )

pub AttemptsGrow-keep_if :
    (test : Payment → Bool) (ps : List Payment) → AttemptsGrow ps → AttemptsGrow (keep_if test ps)
unfolding keep_if
AttemptsGrow-keep_if test [] g = tt
AttemptsGrow-keep_if test (p ∷ ps) g = elim (Bool-cases (test p)) [
  | inl e ↦ rw e (All-keep_if (After p) test ps g.0, AttemptsGrow-keep_if test ps g.1)
  | inr e ↦ rw e (AttemptsGrow-keep_if test ps g.1)
]

-- Where all attempts at paying the booking are numbered above `m`, there are at most `3 - m`.
abbrev Above : ℕ → ℕ → Payment → Type 0
Above booking m p = p.booking_id ≡ booking → m < p.attempt_number

Above-weaken :
    (booking : ℕ) (p : Payment) (ps : List Payment)
    → p.booking_id ≡ booking
    → All (After p) ps
    → All (Above booking p.attempt_number) ps
Above-weaken booking p [] e a = tt
Above-weaken booking p (q ∷ ps) e a = (λ h. a.0 (h ∙ sym e), Above-weaken booking p ps e a.1)

count-Above :
    (booking m : ℕ) (ps : List Payment)
    → m ≤ max_attempts
    → All AttemptInRange ps
    → AttemptsGrow ps
    → All (Above booking m) ps
    → count_if (is_payment_of booking) ps + m ≤ max_attempts
unfolding count_if is_payment_of
count-Above booking m [] h r g a = omega arith
count-Above booking m (p ∷ ps) h r g a = elim (Bool-cases (p.booking_id == booking)) [
  | inl e ↦
      let hit : p.booking_id ≡ booking = (==_iff p.booking_id booking).0 e in
      let rest =
        count-Above booking p.attempt_number ps r.0.1 r.1 g.1 (Above-weaken booking p ps hit g.0) in
      let over = a.0 hit in rw e (omega arith)
  | inr e ↦ rw e (omega (arith, count-Above booking m ps h r.1 g.1 a.1))
]

All-Above : (booking : ℕ) (ps : List Payment) → All AttemptInRange ps → All (Above booking 0) ps
All-Above booking [] r = tt
All-Above booking (p ∷ ps) r = (λ _. omega arith, All-Above booking ps r.1)

pub count-attempts :
    (booking : ℕ) (ps : List Payment)
    → All AttemptInRange ps
    → AttemptsGrow ps
    → count_if (is_payment_of booking) ps ≤ max_attempts
count-attempts booking ps r g =
    omega (arith, count-Above booking 0 ps (omega arith) r g (All-Above booking ps r))
