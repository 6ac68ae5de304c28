-- ===== src/Identity/Codes.antt =====
-- The one-time codes that are made and stored: `randomDigits` and `sendOTP`.
use adlts_core_engine.Prelude.{
  arith, ℕ, zero, suc, ◌+◌, ◌≡◌, refl, sym, ap, ◌∙◌, ◌≤◌, ◌<◌, All, [], ◌∷◌, Text, some, length,
}
use adlts_core_engine.Program.Triple.{
  Triple, pure_t, bind_t, weaken_t, weaken_pre_t, guard_t, from_option_t, ask_t, answered_t,
  assume_t, exec_t,
}
use adlts_core_engine.Identity.Accounts.{OtpCode}
use adlts_core_engine.Identity.World.{Tables, Error, Env, database, random_failed, mail_failed, otp}
use adlts_core_engine.Identity.Repository.Rows.{put_by}
use adlts_core_engine.Identity.Repository.Writes.{upsert_otp}
use adlts_core_engine.Identity.Service.Tokens.{otp_ttl, random_digits, send_mail, send_otp}

abbrev pub Any : Error → Tables → Type 0
Any e t = Unit

abbrev with_code : OtpCode → Tables → Tables
with_code o t = record t { otp_codes = put_by (λ (x : OtpCode). x.email) o t.otp_codes }

-- What crypto/rand documents of `Int`: a number that it draws is below the bound.
pub record Bounded (env : Env) : Type 0 where
  pub bounded : (n bound d : ℕ) → env.random_below n bound ≡ some d → d < bound

abbrev pub IsDigit : ℕ → Type 0
IsDigit c = (b'0' ≤ c) × (c ≤ b'9')

module _ (env : Env) where
  -- A code of six digits is stored for the email for five minutes, not yet guessed at.
  pub record Sent (email : Text) (t t' : Tables) : Type 0 where
    pub row : OtpCode
    pub email_is : row.email ≡ email
    pub unguessed : row.attempts ≡ 0
    pub six : length row.code ≡ 6
    pub digits : All IsDigit row.code
    pub made_at : ℕ
    pub expiry : row.expires_at ≡ env.host.now made_at + 300
    pub stored : t' ≡ with_code row t

  abbrev stores : Text → Text → ℕ → ℕ → Tables → Tables
  stores email code expires_at now t =
      with_code
        (record {
          email = email;
          code = code;
          expires_at = expires_at;
          attempts = 0;
          created_at = now;
        })
        t

  module _ (draws : Bounded env) where
    random_digits_t :
        {P : Tables → Type 0} (n : ℕ)
        → Triple Any P (random_digits env n) (λ s t. P t × ((length s ≡ n) × All IsDigit s))
    unfolding random_digits
    random_digits_t zero = pure_t [] (λ t p. (p, (refl, tt)))
    random_digits_t (suc n) = bind_t (answered_t (λ tick. env.random_below tick 10)) λ drawn.
        bind_t (from_option_t drawn random_failed (λ _ _ _. tt)) λ digit.
          assume_t (λ t k. draws.bounded k.0.1.0 10 digit (sym k.0.1.1 ∙ k.1))
            λ small.
              weaken_pre_t (λ t k. k.0.0)
                (bind_t (random_digits_t n) λ rest.
                  pure_t ((b'0' + digit) ∷ rest)
                    (λ t k. (k.0, (ap suc k.1.0, ((omega arith, omega arith), k.1.1)))))

    pub send_otp_t :
        (email : Text) (t0 : Tables)
        → Triple Any (λ t. t ≡ t0) (send_otp env email) (λ _ t. Sent email t0 t)
    unfolding send_otp upsert_otp send_mail
    send_otp_t email t0 = bind_t (random_digits_t 6) λ code. bind_t (answered_t env.host.now) λ now.
        bind_t
          (exec_t env.host database (λ _ _. tt) (stores email code (now + otp_ttl))
            (λ at t k. record {
              row = record {
                email = email;
                code = code;
                expires_at = now + otp_ttl;
                attempts = 0;
                created_at = at;
              };
              email_is = refl;
              unguessed = refl;
              six = k.0.1.0;
              digits = k.0.1.1;
              made_at = k.1.0;
              expiry = ap (λ n. n + 300) k.1.1;
              stored = ap (with_code _) k.0.0;
            }))
          λ _.
            bind_t (ask_t (λ n. env.mail_sent n (otp email code)))
              λ sent. weaken_t (guard_t sent mail_failed (λ _ _ _. tt)) (λ _ t k. k.0)
