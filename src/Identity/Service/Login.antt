-- ===== src/Identity/Service/Login.antt =====
-- `Login` with its six kinds of account, and `RefreshToken`.
use adlts_core_engine.Prelude.{
  not, List, [], ◌∷◌, none, some, Text, text_eq, is_empty, ◌||◌, ◌==◌, trim_space,
}
use adlts_core_engine.Booking.Types.{expert, admin, super_admin, institute, transport_authority}
use adlts_core_engine.Program.{
  Outcome, ok, err, lift, guard, ◌>>=◌, ◌>>◌, from_option, present, ask,
}
use adlts_core_engine.Security.Guards.{Claims, Holder, entity_name, token_refresh, parse}
use adlts_core_engine.Identity.Accounts.{UserStatus, OrgStatus, Expert, Admin, SuperAdmin, BaseOrg}
use adlts_core_engine.Identity.World.{
  Error, Env, M, invalid_credentials, pending_verification, pending_approval, account_suspended,
  account_inactive, invalid_refresh_token,
}
use adlts_core_engine.Identity.Requests.{LoginRequest, LoginResponse}
use adlts_core_engine.Identity.Repository.Rows.{is_some}
use adlts_core_engine.Identity.Repository.Lookups.{
  candidate_by_email, expert_by_email, admin_by_email, super_admin_by_email, institute_by_email,
  authority_by_email,
}
use adlts_core_engine.Identity.Service.Tokens.{entity_table, first_success, issue_token}
use adlts_core_engine.Identity.Service.Registration.{candidate_holder}

-- The `switch` on the status of each kind of account.
unfoldable pub admits_candidate : UserStatus → Outcome Error (Unit {0})
admits_candidate UserStatus.active = ok tt
admits_candidate UserStatus.pending_verification = err pending_verification
admits_candidate UserStatus.suspended = err account_suspended
admits_candidate UserStatus.inactive = err account_inactive

unfoldable pub admits_staff : UserStatus → Outcome Error (Unit {0})
admits_staff UserStatus.active = ok tt
admits_staff UserStatus.pending_verification = ok tt
admits_staff UserStatus.suspended = err account_suspended
admits_staff UserStatus.inactive = err account_inactive

unfoldable pub admits_institute : OrgStatus → Outcome Error (Unit {0})
admits_institute OrgStatus.active = ok tt
admits_institute OrgStatus.suspended = err account_suspended
admits_institute OrgStatus.inactive = err account_inactive
admits_institute OrgStatus.pending_approval = err pending_approval

unfoldable pub admits_authority : OrgStatus → Outcome Error (Unit {0})
admits_authority OrgStatus.active = ok tt
admits_authority OrgStatus.pending_approval = ok tt
admits_authority OrgStatus.suspended = err account_suspended
admits_authority OrgStatus.inactive = err account_inactive

abbrev pub expert_holder : Expert → Holder
expert_holder e = record {
  id = e.person.id;
  entity_type = entity_name expert;
  email = e.person.email;
  test_center_id = none;
}

abbrev pub admin_holder : Admin → Holder
admin_holder a = record {
  id = a.person.id;
  entity_type = entity_name admin;
  email = a.person.email;
  test_center_id = some a.test_center_id;
}

abbrev pub super_admin_holder : SuperAdmin → Holder
super_admin_holder s = record {
  id = s.id;
  entity_type = entity_name super_admin;
  email = s.email;
  test_center_id = none;
}

abbrev pub institute_holder : BaseOrg → Holder
institute_holder o = record {
  id = o.id;
  entity_type = entity_name institute;
  email = o.email;
  test_center_id = none;
}

abbrev pub authority_holder : BaseOrg → Holder
authority_holder o = record {
  id = o.id;
  entity_type = entity_name transport_authority;
  email = o.email;
  test_center_id = none;
}

-- Whose tokens `RefreshToken` issues anew.
abbrev pub claims_holder : Claims → Holder
claims_holder c = record {
  id = c.subject_id;
  entity_type = c.entity_type;
  email = c.email;
  test_center_id = c.test_center_id;
}

module _ (env : Env) where
  -- `CheckPassword`.
  abbrev pub check_password : Text → Text → M (Unit {0})
  check_password hash password =
      guard (env.compare_hash_and_password hash password) invalid_credentials

  unfoldable pub login_candidate : LoginRequest → M LoginResponse
  login_candidate req = do
    c ← present invalid_credentials (candidate_by_email env req.email)
    check_password c.person.password_hash req.password
    lift (admits_candidate c.person.status)
    issue_token env (candidate_holder c)

  unfoldable pub login_expert : LoginRequest → M LoginResponse
  login_expert req = do
    e ← present invalid_credentials (expert_by_email env req.email)
    check_password e.person.password_hash req.password
    lift (admits_staff e.person.status)
    issue_token env (expert_holder e)

  unfoldable pub login_admin : LoginRequest → M LoginResponse
  login_admin req = do
    a ← present invalid_credentials (admin_by_email env req.email)
    check_password a.person.password_hash req.password
    lift (admits_staff a.person.status)
    issue_token env (admin_holder a)

  unfoldable pub login_super_admin : LoginRequest → M LoginResponse
  login_super_admin req = do
    s ← present invalid_credentials (super_admin_by_email env req.email)
    check_password s.password_hash req.password
    issue_token env (super_admin_holder s)

  unfoldable pub login_institute : LoginRequest → M LoginResponse
  login_institute req = do
    o ← present invalid_credentials (institute_by_email env req.email)
    check_password o.password_hash req.password
    lift (admits_institute o.status)
    issue_token env (institute_holder o)

  unfoldable pub login_authority : LoginRequest → M LoginResponse
  login_authority req = do
    o ← present invalid_credentials (authority_by_email env req.email)
    check_password o.password_hash req.password
    lift (admits_authority o.status)
    issue_token env (authority_holder o)

  abbrev pub tries : LoginRequest → List (M LoginResponse)
  tries req =
      login_candidate req
      ∷ login_expert req
      ∷ login_admin req
      ∷ login_super_admin req
      ∷ login_institute req
      ∷ login_authority req
      ∷ []

  unfoldable pub login : LoginRequest → M LoginResponse
  unfolding first_success
  login req = do
    guard (not (is_empty req.email || is_empty req.password)) invalid_credentials
    first_success invalid_credentials (tries req)

  unfoldable pub refresh_token : Text → M LoginResponse
  refresh_token token = do
    guard (not (is_empty (trim_space token))) invalid_refresh_token
    parsed ← ask (λ n. parse env.jwt (env.host.now n) token)
    claims ← from_option parsed invalid_refresh_token
    guard (text_eq claims.token_type token_refresh) invalid_refresh_token
    guard (not (claims.subject_id == 0 || is_empty claims.entity_type || is_empty claims.email))
        invalid_refresh_token
    guard (is_some (entity_table claims.entity_type)) invalid_refresh_token
    issue_token env (claims_holder claims)
