-- ===== src/Identity/Guesses.antt =====
-- How many guesses at a one-time code `VerifyOTP` allows, and what the right one does.
use adlts_core_engine.Prelude.{
  arith, ℕ, zero, suc, ◌≤◌, ◌≡◌, ◌≢◌, refl, sym, ◌∙◌, subst, Bool, true, false, inl, inr, List, [],
  ◌∷◌, Option, none, some, Text, text_eq, text_eq_sound, Bool-cases, ◌==◌, ltb, first_where, length,
  All,
}
use adlts_core_engine.Program.{State, Outcome, ok, err, and_then, guard, ◌>>=◌, ticked}
use adlts_core_engine.Identity.Accounts.{Candidate}
use adlts_core_engine.Identity.World.{Tables, Error, Env, M, invalid_otp}
use adlts_core_engine.Identity.Requests.{VerifyOtpRequest, LoginResponse}
use adlts_core_engine.Identity.Repository.Rows.{candidate_with}
use adlts_core_engine.Identity.Repository.Writes.{verify_otp_row}
use adlts_core_engine.Identity.Service.Registration.{verify_otp}
use adlts_core_engine.Identity.Reliable.{candidate_by_email-done}
use adlts_core_engine.Identity.Otp.{Lock, guess, lock, verify_otp_row-refines}

-- The request that names an email and a code.
abbrev pub trying : Text → Text → VerifyOtpRequest
trying email code = record { email = email; code = code }

-- Requests for one email, one after another.
pub verify_all : Env → Text → List Text → State Tables → State Tables
verify_all env email [] w = w
verify_all env email (c ∷ cs) w = verify_all env email cs (verify_otp env (trying email c) w).1

-- A lock that opens, if at all, by a code, and within a number of guesses.
abbrev pub Within : ℕ → Text → Option Lock → Type 0
Within n code none = Unit
Within n code (some l) = (l.code ≡ code) × (l.guesses_left ≤ n)

abbrev pub IsErr : Outcome Error LoginResponse → Type 0
IsErr (ok r) = ⊥
IsErr (err e) = Unit

-- A guess that does not open the lock.
abbrev Fails : Outcome Error Bool → Type 0
Fails (ok true) = ⊥
Fails (ok false) = Unit
Fails (err e) = Unit

guess_wrong :
    (now n : ℕ) (code c : Text) (l : Option Lock)
    → code ≢ c
    → Within (suc n) code l
    → Fails (guess now c l).1 × Within n code (guess now c l).0
unfolding guess
guess_wrong now n code c none ne h = (tt, tt)
guess_wrong now n code c (some l) ne h = elim (Bool-cases (l.guesses_left == 0)) [
  | inl a ↦ rw a (tt, tt)
  | inr a ↦ elim (Bool-cases (ltb l.expires_at now)) [
    | inl b ↦ rw (a, b) (tt, tt)
    | inr b ↦ elim (Bool-cases (text_eq l.code c)) [
      | inl hit ↦ absurd (ne (sym h.0 ∙ text_eq_sound l.code c hit))
      | inr miss ↦ rw (a, b, miss) (tt, (h.0, omega (arith, h.1)))
    ]
  ]
]

guess_worn :
    (now : ℕ) (code c : Text) (l : Option Lock)
    → Within 0 code l
    → Fails (guess now c l).1 × Within 0 code (guess now c l).0
unfolding guess
guess_worn now code c none h = (tt, tt)
guess_worn now code c (some l) h =
    let spent : (l.guesses_left == 0) ≡ true = ground arith in rw spent (tt, tt)

refused_end :
    (r : Outcome Error Bool × State Tables) (k : Unit {0} → M LoginResponse)
    → Fails r.0
    → IsErr (and_then r (λ b. guard b invalid_otp >>= k)).0
      × ((and_then r (λ b. guard b invalid_otp >>= k)).1 ≡ r.1)
refused_end (ok true, w) k f = elim f [ ]
refused_end (ok false, w) k f = (tt, refl)
refused_end (err e, w) k f = (tt, refl)

module _ (env : Env) (reliable : (n : ℕ) → env.host.query_fails n ≡ false) (email : Text) where
  -- The candidate of the email is on record.
  abbrev pub OnRecord : Tables → Type 0
  OnRecord t = (c : Candidate) × (first_where (candidate_with email) t.candidates ≡ some c)

  verify_otp-Fails :
      (code : Text) (w : State Tables)
      → OnRecord w.tables
      → Fails (verify_otp_row env email code (ticked w)).0
      → IsErr (verify_otp env (trying email code) w).0
        × ((verify_otp env (trying email code) w).1 ≡ (verify_otp_row env email code (ticked w)).1)
  unfolding verify_otp
  verify_otp-Fails code w (c, found) fails =
      rw (candidate_by_email-done env reliable w email, found)
        (refused_end (verify_otp_row env email code (ticked w)) _ fails)

  -- One more wrong guess, or any guess at a lock that is worn out.
  attempt-Fails :
      (n m : ℕ) (code c : Text) (w : State Tables)
      → ((now : ℕ) (l : Option Lock)
          → Within n code l
          → Fails (guess now c l).1 × Within m code (guess now c l).0)
      → OnRecord w.tables
      → Within n code (lock email w.tables)
      → IsErr (verify_otp env (trying email c) w).0
        × OnRecord (verify_otp env (trying email c) w).1.tables
        × Within m code (lock email (verify_otp env (trying email c) w).1.tables)
  attempt-Fails n m code c w step there within =
      let (answer, left, others, rest) = verify_otp_row-refines env reliable email c (ticked w) in
      let (fails, within') = step (env.host.now (suc (suc w.tick))) (lock email w.tables) within in
      let (refused, same) = verify_otp-Fails c w there (subst Fails (sym answer) fails) in
      (refused, rw (same, rest) there, rw same (subst (Within m code) (sym left) within'))

  worn_after :
      (n : ℕ) (code : Text) (cs : List Text) (w : State Tables)
      → All (λ c. code ≢ c) cs
      → n ≤ length cs
      → OnRecord w.tables
      → Within n code (lock email w.tables)
      → OnRecord (verify_all env email cs w).tables
        × Within 0 code (lock email (verify_all env email cs w).tables)
  unfolding verify_all
  worn_after zero code [] w wrong enough there within = (there, within)
  worn_after (suc n) code [] w wrong enough there within = absurd (omega arith)
  worn_after zero code (c ∷ cs) w wrong enough there within =
      let (_, there', within') =
        attempt-Fails 0 0 code c w (λ now l. guess_worn now code c l) there within in
      worn_after zero code cs _ wrong.1 (omega arith) there' within'
  worn_after (suc n) code (c ∷ cs) w wrong enough there within =
      let (_, there', within') =
        attempt-Fails (suc n) n code c w (λ now l. guess_wrong now n code c l wrong.0) there
          within in
      worn_after n code cs _ wrong.1 (omega arith) there' within'

  -- Where no query fails, five wrong guesses wear a code out: after five or more requests for the
  -- email of a candidate with codes other than the one stored, and with no new code sent between
  -- them, every further request fails, the one with the right code too.
  pub verify_otp-worn_out :
      (code : Text) (cs : List Text) (c : Text) (w : State Tables)
      → OnRecord w.tables
      → Within 5 code (lock email w.tables)
      → All (λ x. code ≢ x) cs
      → 5 ≤ length cs
      → IsErr (verify_otp env (trying email c) (verify_all env email cs w)).0
  verify_otp-worn_out code cs c w there within wrong enough =
      let (there', within') = worn_after 5 code cs w wrong enough there within in
      (attempt-Fails 0 0 code c (verify_all env email cs w) (λ now l. guess_worn now code c l)
        there' within').0
