-- ===== src/Identity/Service/Tokens.antt =====
-- What the operations share: `issueToken` with the signing of security.Manager, `HashPassword`,
-- `randomDigits`, `sendOTP`, `entityTable`, and trying one thing after another.
use adlts_core_engine.Prelude.{
  ℕ, zero, suc, ◌+◌, List, [], ◌∷◌, Option, none, some, Text, text_eq, if◌then◌else◌,
}
use adlts_core_engine.Booking.Types.{
  candidate, expert, admin, super_admin, institute, transport_authority,
}
use adlts_core_engine.Program.{
  State, Outcome, ok, err, pure, fail, guard, ◌>>=◌, ◌>>◌, from_option, ask,
}
use adlts_core_engine.Security.Guards.{
  Holder, claims_of, entity_name, token_access, token_refresh, access_ttl, refresh_ttl,
}
use adlts_core_engine.Identity.World.{
  Tables, Error, Env, M, Mail, otp, hash_failed, random_failed, sign_failed, mail_failed,
}
use adlts_core_engine.Identity.Requests.{LoginResponse}
use adlts_core_engine.Identity.Repository.Rows.{
  Table, candidates, experts, admins, super_admins, institutes, transport_authorities,
}
use adlts_core_engine.Identity.Repository.Writes.{time_now, upsert_otp}

-- An OTP lives for five minutes, a reset token for fifteen, an invitation for 72 hours, in seconds.
abbrev pub otp_ttl : ℕ
otp_ttl = 300

abbrev pub reset_ttl : ℕ
reset_ttl = 900

abbrev pub invitation_ttl : ℕ
invitation_ttl = 259200

unfoldable pub entity_table : Text → Option Table
entity_table et =
    if text_eq et (entity_name candidate)
    then some candidates
    else if text_eq et (entity_name expert)
    then some experts
    else if text_eq et (entity_name admin)
    then some admins
    else if text_eq et (entity_name super_admin)
    then some super_admins
    else if text_eq et (entity_name institute)
    then some institutes
    else if text_eq et (entity_name transport_authority)
    then some transport_authorities
    else none

abbrev pub or_else {ℓ} :
    {A : Type ℓ} → Outcome Error A × State Tables → M A → Outcome Error A × State Tables
or_else (ok a, w) n = (ok a, w)
or_else (err _, w) n = n w

-- The first of several attempts that succeeds; what the others answer is dropped.
unfoldable pub first_success {ℓ} : {A : Type ℓ} → Error → List (M A) → M A
first_success e [] = fail e
first_success e (m ∷ ms) = λ w. or_else (m w) (first_success e ms)

module _ (env : Env) where
  abbrev pub uuid_new : M ℕ
  uuid_new = ask env.host.new_uuid

  unfoldable pub sign_with_ttl : Holder → Text → ℕ → M Text
  sign_with_ttl h token_type ttl = time_now env >>= λ now.
      from_option (env.jwt.signed_string (claims_of h token_type ttl now)) sign_failed

  unfoldable pub issue_token : Holder → M LoginResponse
  unfolding sign_with_ttl
  issue_token h = do
    access ← sign_with_ttl h token_access access_ttl
    refresh ← sign_with_ttl h token_refresh refresh_ttl
    pure (record { access_token = access; refresh_token = refresh; entity_type = h.entity_type })

  unfoldable pub hash_password : Text → M Text
  hash_password password =
      ask (λ n. env.generate_from_password n password) >>= λ hash. from_option hash hash_failed

  unfoldable pub random_digits : ℕ → M Text
  random_digits zero = pure []
  random_digits (suc n) = do
    drawn ← ask (λ tick. env.random_below tick 10)
    digit ← from_option drawn random_failed
    rest ← random_digits n
    pure ((b'0' + digit) ∷ rest)

  unfoldable pub send_mail : Mail → M (Unit {0})
  send_mail mail = ask (λ n. env.mail_sent n mail) >>= λ sent. guard sent mail_failed

  unfoldable pub send_otp : Text → M (Unit {0})
  unfolding send_mail
  send_otp email = do
    code ← random_digits 6
    now ← time_now env
    upsert_otp env email code (now + otp_ttl)
    send_mail (otp email code)
