-- ===== src/Identity/Handlers/Auth.antt =====
-- The handlers of registration, login and passwords.
use adlts_core_engine.Prelude.{Option, none, some, Text, codes, is_empty, if◌then◌else◌}
use adlts_core_engine.Program.{State, Outcome}
use adlts_core_engine.Security.Guards.{AuthContext}
use adlts_core_engine.Identity.World.{
  Tables, Error, Env, email_taken, fayida_id_taken, password_too_short, invalid_otp,
  invalid_invite_token, invite_already_used, invite_expired, pending_verification, pending_approval,
  account_suspended, account_inactive, invalid_credentials, same_password,
}
use adlts_core_engine.Identity.Requests.{
  RegisterCandidateRequest, VerifyOtpRequest, AcceptInvitationRequest, LoginRequest, LoginResponse,
  ChangePasswordRequest, normalize_candidate, normalize_invitation,
}
use adlts_core_engine.Identity.Service.Registration.{register_candidate, verify_otp, resend_otp}
use adlts_core_engine.Identity.Service.Login.{login, refresh_token}
use adlts_core_engine.Identity.Service.Passwords.{forgot_password, reset_password, change_password}
use adlts_core_engine.Identity.Service.Invitations.{accept_invitation}
use adlts_core_engine.Identity.Handlers.{
  Reply, success, failure, Handled, answer, decoded, malformed,
}

abbrev pub weak_password {ℓ} : {A : Type ℓ} → Reply A
weak_password = failure 422 (codes "WEAK_PASSWORD")

-- The `switch` of each handler on the error of its call.
abbrev pub register_refusal {ℓ} : {A : Type ℓ} → Error → Reply A
register_refusal email_taken = failure 409 (codes "EMAIL_TAKEN")
register_refusal fayida_id_taken = failure 409 (codes "FAYIDA_ID_TAKEN")
register_refusal password_too_short = weak_password
register_refusal _ = failure 422 (codes "REGISTRATION_FAILED")

abbrev pub otp_refusal {ℓ} : {A : Type ℓ} → Error → Reply A
otp_refusal invalid_otp = failure 400 (codes "INVALID_OTP")
otp_refusal _ = failure 500 (codes "VERIFY_FAILED")

abbrev pub accept_refusal {ℓ} : {A : Type ℓ} → Error → Reply A
accept_refusal invalid_invite_token = failure 400 (codes "INVALID_TOKEN")
accept_refusal invite_already_used = failure 409 (codes "TOKEN_USED")
accept_refusal invite_expired = failure 410 (codes "TOKEN_EXPIRED")
accept_refusal password_too_short = weak_password
accept_refusal _ = failure 422 (codes "ACCEPT_FAILED")

abbrev pub login_refusal {ℓ} : {A : Type ℓ} → Error → Reply A
login_refusal pending_verification = failure 403 (codes "PENDING_VERIFICATION")
login_refusal pending_approval = failure 403 (codes "PENDING_APPROVAL")
login_refusal account_suspended = failure 403 (codes "ACCOUNT_SUSPENDED")
login_refusal account_inactive = failure 403 (codes "ACCOUNT_INACTIVE")
login_refusal _ = failure 401 (codes "INVALID_CREDENTIALS")

abbrev pub reset_refusal {ℓ} : {A : Type ℓ} → Error → Reply A
reset_refusal password_too_short = weak_password
reset_refusal _ = failure 400 (codes "INVALID_RESET_TOKEN")

abbrev pub change_refusal {ℓ} : {A : Type ℓ} → Error → Reply A
change_refusal invalid_credentials = failure 401 (codes "WRONG_PASSWORD")
change_refusal password_too_short = weak_password
change_refusal same_password = failure 422 (codes "SAME_PASSWORD")
change_refusal _ = failure 500 (codes "CHANGE_FAILED")

-- A call whose error is dropped.
abbrev pub always {ℓ} :
    {A : Type ℓ} → Outcome Error A × State Tables → Reply (Unit {0}) × State Tables
always (_, w) = (success 200 tt, w)

module _ (env : Env) where
  unfoldable pub handle_register_candidate : Option RegisterCandidateRequest → Handled (Unit {0})
  handle_register_candidate body =
      decoded body
        (λ req w. answer 201 register_refusal (register_candidate env (normalize_candidate req) w))

  unfoldable pub handle_verify_otp : Option VerifyOtpRequest → Handled LoginResponse
  handle_verify_otp body = decoded body (λ req w. answer 200 otp_refusal (verify_otp env req w))

  unfoldable pub handle_resend_otp : Option Text → Handled (Unit {0})
  handle_resend_otp body =
      decoded body
        (λ email w. if is_empty email then (malformed, w) else always (resend_otp env email w))

  unfoldable pub handle_accept_invitation : Option AcceptInvitationRequest → Handled LoginResponse
  handle_accept_invitation body =
      decoded body
        (λ req w. answer 201 accept_refusal (accept_invitation env (normalize_invitation req) w))

  unfoldable pub handle_login : Option LoginRequest → Handled LoginResponse
  handle_login body = decoded body (λ req w. answer 200 login_refusal (login env req w))

  unfoldable pub handle_refresh_token : Option Text → Handled LoginResponse
  handle_refresh_token body = decoded body (λ token w.
      answer 200 (λ _. failure 401 (codes "INVALID_REFRESH_TOKEN")) (refresh_token env token w))

  unfoldable pub handle_forgot_password : Option Text → Handled (Unit {0})
  handle_forgot_password body =
      decoded body
        (λ email w. if is_empty email then (malformed, w) else always (forgot_password env email w))

  -- The body is the token and the new password.
  unfoldable pub handle_reset_password : Option (Text × Text) → Handled (Unit {0})
  handle_reset_password body =
      decoded body (λ req w. answer 200 reset_refusal (reset_password env req.0 req.1 w))

  unfoldable pub handle_change_password :
      Option AuthContext → Option ChangePasswordRequest → Handled (Unit {0})
  handle_change_password none body w = (failure 401 (codes "UNAUTHENTICATED"), w)
  handle_change_password (some auth) body w =
      decoded body (λ req. λ w'. answer 200 change_refusal (change_password env auth req w')) w
