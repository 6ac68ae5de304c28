-- ===== src/Identity/World.antt =====
-- The tables of the identity module, its errors, what it takes from outside, and its programs.
use adlts_core_engine.Prelude.{ℕ, Bool, true, List, Option, none, some, Text}
use adlts_core_engine.Program.{Host, Program}
use adlts_core_engine.Security.Guards.{Jwt}
use adlts_core_engine.Identity.Accounts.{
  Candidate, Expert, Admin, SuperAdmin, BaseOrg, Invitation, OtpCode, ResetToken,
}

-- `Institute` and `TransportAuthority` are both no more than a `BaseOrg`.
pub record Tables : Type 0 where
  pub candidates : List Candidate
  pub experts : List Expert
  pub admins : List Admin
  pub super_admins : List SuperAdmin
  pub institutes : List BaseOrg
  pub transport_authorities : List BaseOrg
  pub invitations : List Invitation
  pub otp_codes : List OtpCode
  pub password_reset_tokens : List ResetToken

-- The sentinel errors of service.go, then one constructor for each other error. An error that is
-- wrapped on its way (`fmt.Errorf("…: %w", err)`) is still found by `errors.Is`, and stays itself.
pub data Error : Type 0 where
  email_taken fayida_id_taken invalid_credentials pending_verification pending_approval : Error
  account_suspended account_inactive already_verified invalid_otp invalid_reset_token : Error
  invalid_invite_token invalid_refresh_token invite_already_used invite_expired : Error
  forbidden_invite_role password_too_short same_password not_found : Error
  names_required email_required fayida_id_required birth_date_required gender_invalid : Error
  too_many_attempts otp_expired unknown_entity_type email_and_type_required : Error
  test_center_required token_and_password_required missing_test_center : Error
  nil_dereference database null_column hash_failed random_failed sign_failed mail_failed : Error

pub data Mail : Type 0 where
  otp : Text → Text → Mail
  password_reset : Text → Text → Mail
  invitation : Text → Text → Text → Mail

pub record Env : Type 0 where
  pub host : Host
  pub jwt : Jwt
  -- bcrypt: a hash by tick, for it is salted, and the comparison.
  pub generate_from_password : ℕ → Text → Option Text
  pub compare_hash_and_password : Text → Text → Bool
  -- `rand.Int` below a bound.
  pub random_below : ℕ → ℕ → Option ℕ
  pub uuid_string : ℕ → Text
  pub mail_sent : ℕ → Mail → Bool
  -- Whether the driver scans NULL into a Go value that has no room for it.
  pub scans_null : Bool
  -- `value ILIKE '%' || search || '%'`.
  pub ilike : Text → Text → Bool
  pub base_url : Text

abbrev pub M {ℓ} : Type ℓ → Type ℓ
M A = Program Tables Error A

-- Whether a column is scanned.
abbrev pub scans {ℓ} : {A : Type ℓ} → Env → Option A → Bool
scans env none = env.scans_null
scans env (some a) = true
