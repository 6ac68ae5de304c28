-- ===== src/Identity/Otp.antt =====
-- A one-time code as a lock with a number of guesses left: what `Repository.VerifyOTP` implements.
use adlts_core_engine.Prelude.{
  arith, ℕ, suc, ◌+◌, ◌-◌, ◌≡◌, ◌≢◌, refl, sym, ap, ◌∙◌, Bool, true, false, inl, inr, Option, none,
  some, Text, text_eq, text_eq_sound, Bool-cases, Option-cases, ◌==◌, ltb, if◌then◌else◌,
  first_where,
}
use adlts_core_engine.Program.{
  State, Outcome, ok, err, and_then, recover, exec, exec_unless, exec_returning, ticked,
}
use adlts_core_engine.Identity.Accounts.{OtpCode}
use adlts_core_engine.Identity.World.{Tables, Error, Env, database, too_many_attempts, otp_expired}
use adlts_core_engine.Identity.Repository.Rows.{map_option, otp_of, delete_where}
use adlts_core_engine.Identity.Repository.Searches.{
  first_where-update_where, first_where-update_where_other, first_where-delete_where,
  first_where-delete_where_other,
}
use adlts_core_engine.Identity.Repository.Writes.{
  attempted, counted, counted_row, delete_otp, judge_otp, judge_found, verify_otp_row,
}

pub record Lock : Type 0 where
  pub code : Text
  pub guesses_left : ℕ
  pub expires_at : ℕ

-- A guess at a lock: the lock is gone once it is opened, worn out or past its time.
unfoldable pub guess : ℕ → Text → Option Lock → Option Lock × Outcome Error Bool
guess now code none = (none, ok false)
guess now code (some l) =
    if l.guesses_left == 0
    then (none, err too_many_attempts)
    else if ltb l.expires_at now
    then (none, err otp_expired)
    else if text_eq l.code code
    then (none, ok true)
    else (some (record l { guesses_left = l.guesses_left - 1 }), ok false)

-- The lock that a row stands for: five guesses, less those that were counted.
abbrev pub lock_of : OtpCode → Lock
lock_of o = record { code = o.code; guesses_left = 5 - o.attempts; expires_at = o.expires_at }

abbrev pub lock : Text → Tables → Option Lock
lock email t = map_option lock_of (first_where (otp_of email) t.otp_codes)

other_email :
    (e email : Text) → e ≢ email → (o : OtpCode) → otp_of email o ≡ true → otp_of e o ≡ false
other_email e email ne o hit = elim (Bool-cases (otp_of e o)) [
  | inl h ↦ absurd (ne (sym (text_eq_sound o.email e h) ∙ text_eq_sound o.email email hit))
  | inr h ↦ h
]

module _ (env : Env) (reliable : (n : ℕ) → env.host.query_fails n ≡ false) (email : Text) where
  -- The state behind the deletion of the code.
  abbrev without : State Tables → State Tables
  without w = record {
    tables = record (w.tables) { otp_codes = delete_where (otp_of email) w.tables.otp_codes };
    tick = suc w.tick;
  }

  delete_otp-done : (w : State Tables) → delete_otp env email w ≡ (ok tt, without w)
  unfolding delete_otp exec exec_unless
  delete_otp-done w = simp reliable

  counting-done :
      (w : State Tables)
      → recover none (exec_returning env.host database (counted_row email) (λ _. counted email)) w
        ≡ (
          ok (counted_row email w.tables),
          record { tables = counted email w.tables; tick = suc w.tick },
        )
  unfolding exec_returning
  counting-done w = simp reliable

  module _ (code : Text) where
    -- The judgement on a row whose guess was counted, with what it leaves.
    abbrev judged : OtpCode → State Tables → Outcome Error Bool × State Tables
    judged o w =
        if ltb 5 o.attempts
        then (err too_many_attempts, without w)
        else (if ltb o.expires_at (env.host.now w.tick)
            then (err otp_expired, without (ticked w))
            else (if text_eq o.code code
                then (ok true, without (ticked w))
                else (ok false, ticked w)))

    judge_otp-judged : (o : OtpCode) (w : State Tables) → judge_otp env email code o w ≡ judged o w
    unfolding judge_otp
    judge_otp-judged o w = elim (Bool-cases (ltb 5 o.attempts)) [
      | inl a ↦ rw (a, delete_otp-done w)
      | inr a ↦ elim (Bool-cases (ltb o.expires_at (env.host.now w.tick))) [
        | inl b ↦ rw (a, b, delete_otp-done (ticked w))
        | inr b ↦ elim (Bool-cases (text_eq o.code code)) [
          | inl c ↦ rw (a, b, c, delete_otp-done (ticked w))
          | inr c ↦ rw (a, b, c)
        ]
      ]
    ]

    -- What a guess leaves agrees with the lock, and the other emails keep theirs.
    abbrev Agrees :
        State Tables → Option Lock × Outcome Error Bool → Outcome Error Bool × State Tables → Type 0
    Agrees w g r =
        (r.0 ≡ g.1)
        × (lock email r.1.tables ≡ g.0)
        × ((e : Text) → e ≢ email → lock e r.1.tables ≡ lock e w.tables)
        × (r.1.tables ≡ record (w.tables) { otp_codes = r.1.tables.otp_codes })

    lock-without : (w : State Tables) → lock email (without w).tables ≡ none
    lock-without w = rw (first_where-delete_where (otp_of email) w.tables.otp_codes)

    lock-without_other :
        (w : State Tables) (e : Text) → e ≢ email → lock e (without w).tables ≡ lock e w.tables
    lock-without_other w e ne = rw (
        first_where-delete_where_other (otp_of e) (otp_of email) w.tables.otp_codes
          (other_email e email ne))

    worn : (n : ℕ) → ((5 - n) == 0) ≡ ltb 5 (n + 1)
    worn n = ground arith

    judged-Agrees :
        (o : OtpCode) (w : State Tables)
        → first_where (otp_of email) w.tables.otp_codes ≡ some (attempted o)
        → Agrees w (guess (env.host.now w.tick) code (some (lock_of o))) (judged (attempted o) w)
    unfolding guess
    judged-Agrees o w there = elim (Bool-cases (ltb 5 (o.attempts + 1))) [
      | inl a ↦ rw (worn o.attempts, a) (refl, lock-without w, lock-without_other w, refl)
      | inr a ↦ elim (Bool-cases (ltb o.expires_at (env.host.now w.tick))) [
        | inl b ↦ rw (worn o.attempts, a, b) (refl, lock-without w, lock-without_other w, refl)
        | inr b ↦ elim (Bool-cases (text_eq o.code code)) [
          | inl c ↦ rw (worn o.attempts, a, b, c) (refl, lock-without w, lock-without_other w, refl)
          | inr c ↦
              rw (worn o.attempts, a, b, c) (refl, rw there (ground arith), λ e ne. refl, refl)
        ]
      ]
    ]

    abbrev counting : State Tables → State Tables
    counting w = record { tables = counted email w.tables; tick = suc w.tick }

    search-counting :
        (w : State Tables)
        → first_where (otp_of email) (counting w).tables.otp_codes ≡ counted_row email w.tables
    search-counting w =
        first_where-update_where (otp_of email) attempted w.tables.otp_codes (λ o. refl)

    lock-counting_other :
        (w : State Tables) (e : Text) → e ≢ email → lock e (counting w).tables ≡ lock e w.tables
    lock-counting_other w e ne = rw (
        first_where-update_where_other (otp_of e) (otp_of email) attempted w.tables.otp_codes
          (other_email e email ne) (other_email e email ne))

    verify_otp_row-judge_found :
        (w : State Tables)
        → verify_otp_row env email code w
          ≡ judge_found env email code (counted_row email w.tables) (counting w)
    unfolding verify_otp_row
    verify_otp_row-judge_found w =
        ap (λ r. and_then r (judge_found env email code)) (counting-done w)

    -- Where no query fails, checking a code is a guess at the lock of its email, at the time at which
    -- the code is judged: the answer is that of the guess, the lock that is left is the one that the
    -- guess leaves, and the locks of all other emails and every other table are as they were.
    pub verify_otp_row-refines :
        (w : State Tables)
        → Agrees w
            (guess (env.host.now (suc w.tick)) code (lock email w.tables))
            (verify_otp_row env email code w)
    unfolding guess
    verify_otp_row-refines w = elim (Option-cases (first_where (otp_of email) w.tables.otp_codes)) [
      | inl e ↦
          rw (verify_otp_row-judge_found w, e)
            (refl, rw (search-counting w, e), lock-counting_other w, refl)
      | inr (o, e) ↦
          let (answer, left, others, rest) =
            judged-Agrees o (counting w) (search-counting w ∙ rw e) in
          rw (verify_otp_row-judge_found w, e, judge_otp-judged (attempted o) (counting w))
            (answer, left, λ x ne. others x ne ∙ lock-counting_other w x ne, rest)
    ]
