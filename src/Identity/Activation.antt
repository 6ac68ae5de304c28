-- ===== src/Identity/Activation.antt =====
-- What the right code does: it opens the account, and the candidate can log in as long as the
-- candidates are left as they are.
use adlts_core_engine.Prelude.{
  arith, ℕ, suc, ◌≤◌, ◌<◌, ◌≡◌, refl, ap, ◌∙◌, Bool, true, false, none, some, Text, text_eq_refl,
  is_empty, ◌==◌, ltb, first_where, update_by,
}
use adlts_core_engine.Program.{State, Outcome, ok, err, and_then, guard, ◌>>=◌, ticked}
use adlts_core_engine.Identity.Accounts.{UserStatus, Candidate}
use adlts_core_engine.Identity.World.{Tables, Error, Env, M, invalid_otp}
use adlts_core_engine.Identity.Requests.{LoginRequest, LoginResponse}
use adlts_core_engine.Identity.Repository.Rows.{candidate_with, candidate_status}
use adlts_core_engine.Identity.Repository.Searches.{first_where-update_by}
use adlts_core_engine.Identity.Repository.Writes.{verify_otp_row}
use adlts_core_engine.Identity.Service.Tokens.{first_success}
use adlts_core_engine.Identity.Service.Registration.{candidate_holder, verify_otp}
use adlts_core_engine.Identity.Service.Login.{admits_candidate, login_candidate, login}
use adlts_core_engine.Identity.Reads.{Issued}
use adlts_core_engine.Identity.Reliable.{
  Signs, issue_token-done, candidate_by_email-done, update_candidate_status-done,
}
use adlts_core_engine.Identity.Otp.{Lock, guess, lock, verify_otp_row-refines}
use adlts_core_engine.Identity.Guesses.{trying}

guess_right :
    (now : ℕ) (l : Lock)
    → 0 < l.guesses_left
    → now ≤ l.expires_at
    → guess now l.code (some l) ≡ (none, ok true)
unfolding guess
guess_right now l left intime =
    let a : (l.guesses_left == 0) ≡ false = ground arith in
    let b : ltb l.expires_at now ≡ false = ground arith in rw (a, b, text_eq_refl l.code)

accepted_end :
    (r : Outcome Error Bool × State Tables) (k : Unit {0} → M LoginResponse)
    → r.0 ≡ ok true
    → and_then r (λ b. guard b invalid_otp >>= k) ≡ k tt r.1
accepted_end (ok true, w) k e = refl
accepted_end (ok false, w) k e = absurd (cc)
accepted_end (err x, w) k e = absurd (cc)

module _ (env : Env) (reliable : (n : ℕ) → env.host.query_fails n ≡ false) (signs : Signs env) where
  -- A candidate who is active and knows the password is let in.
  login-active :
      (req : LoginRequest) (c : Candidate) (w : State Tables)
      → is_empty req.email ≡ false
      → is_empty req.password ≡ false
      → first_where (candidate_with req.email) w.tables.candidates ≡ some c
      → c.person.status ≡ UserStatus.active
      → env.compare_hash_and_password c.person.password_hash req.password ≡ true
      → (r : LoginResponse) × Issued env (candidate_holder c) r × ((login env req w).0 ≡ ok r)
  unfolding login first_success login_candidate admits_candidate
  login-active req c w mail pass found active matches =
      let (r, issued, done) = issue_token-done env signs (candidate_holder c) (ticked w) in
      (
        r,
        issued,
        rw (
          mail,
          pass,
          candidate_by_email-done env reliable w req.email,
          found,
          matches,
          active,
          done,
        ),
      )

  -- The candidate as the activation leaves it.
  abbrev activated : Candidate → ℕ → Candidate
  activated c now = candidate_status UserStatus.active now c.person.id c

  module _ (email : Text) (c : Candidate) (l : Lock) (w : State Tables) where
    -- Where the code check ends.
    abbrev checked : State Tables
    checked = (verify_otp_row env email l.code (ticked w)).1

    abbrev opened : State Tables
    opened = record {
      tables = record (checked.tables) {
        candidates =
            update_by (λ (x : Candidate). x.person.id) c.person.id
              (candidate_status UserStatus.active (env.host.now checked.tick) c.person.id)
              checked.tables.candidates;
      };
      tick = suc (suc (suc checked.tick));
    }

    opens :
        first_where (candidate_with email) w.tables.candidates ≡ some c
        → (verify_otp_row env email l.code (ticked w)).0 ≡ ok true
        → (r : LoginResponse) × Issued env (candidate_holder c) r
          × (verify_otp env (trying email l.code) w ≡ (ok r, opened))
    unfolding verify_otp
    opens found right =
        let (r, issued, done) =
          issue_token-done env signs (candidate_holder c)
            (record opened { tick = suc checked.tick }) in
        (
          r,
          issued,
          rw (candidate_by_email-done env reliable w email, found)
              (accepted_end (verify_otp_row env email l.code (ticked w)) _ right
                ∙ rw
                    (update_candidate_status-done env reliable checked c.person.id UserStatus.active
                      c.person.id)
                    done),
        )

    -- Where no query fails and claims can be signed: the right code, sent in time for a lock with a
    -- guess left, logs the candidate in and spends the code; and whatever the candidate's status was
    -- before, a login with the candidate's email and password gets its tokens in any later state whose
    -- candidates are those that the code left.
    pub verify_otp-lets_in :
        (password : Text) (later : State Tables)
        → first_where (candidate_with email) w.tables.candidates ≡ some c
        → lock email w.tables ≡ some l
        → 0 < l.guesses_left
        → env.host.now (suc (suc w.tick)) ≤ l.expires_at
        → is_empty email ≡ false
        → is_empty password ≡ false
        → env.compare_hash_and_password c.person.password_hash password ≡ true
        → later.tables.candidates ≡ (verify_otp env (trying email l.code) w).1.tables.candidates
        → (r r' : LoginResponse) × ((verify_otp env (trying email l.code) w).0 ≡ ok r)
          × Issued env (candidate_holder c) r
          × (lock email (verify_otp env (trying email l.code) w).1.tables ≡ none)
          × ((login env (record { email = email; password = password }) later).0 ≡ ok r')
          × Issued env (candidate_holder c) r'
    verify_otp-lets_in password later found locked left intime mail pass matches kept =
        let (answer, gone, _, rest) = verify_otp_row-refines env reliable email l.code (ticked w) in
        let guessed : guess (env.host.now (suc (suc w.tick))) l.code (lock email w.tables)
            ≡ (none, ok true) =
          rw locked (guess_right (env.host.now (suc (suc w.tick))) l left intime) in
        let (r, issued, done) = opens found (answer ∙ rw guessed) in
        let now_active : first_where (candidate_with email) opened.tables.candidates
            ≡ some (activated c (env.host.now checked.tick)) =
          first_where-update_by (λ (x : Candidate). x.person.id) (candidate_with email) _ _ {x = c}
            (λ x. refl) (rw rest found) in
        let same : later.tables.candidates ≡ opened.tables.candidates =
          kept ∙ ap (λ x. x.1.tables.candidates) done in
        let (r', issued', let_in) =
          login-active (record { email = email; password = password })
            (activated c (env.host.now checked.tick)) later mail pass (rw same now_active) refl
            matches in
        (r, r', ap (λ x. x.0) done, issued, rw done (gone ∙ rw guessed), let_in, issued')
