-- ===== src/Identity/Service/Invitations.antt =====
-- `CreateInvitation`, `AcceptInvitation`, `GetInvitation`, `ResendInvitation`, `CancelInvitation`.
use adlts_core_engine.Prelude.{
  ℕ, ◌+◌, Bool, not, ◌&&◌, ◌||◌, [], ◌++◌, Option, none, some, Text, codes, text_eq, is_empty, ◌==◌,
  ltb, if◌then◌else◌,
}
use adlts_core_engine.Booking.Types.{
  EntityType, candidate, expert, admin, super_admin, institute, transport_authority,
}
use adlts_core_engine.Program.{
  Outcome, ok, err, pure, fail, lift, guard, ◌>>=◌, ◌>>◌, from_option, ignore, present, ask,
}
use adlts_core_engine.Security.Guards.{AuthContext, Holder, entity_name}
use adlts_core_engine.Identity.Accounts.{
  UserStatus, OrgStatus, Audit, BasePerson, Expert, Admin, SuperAdmin, BaseOrg, Invitation,
}
use adlts_core_engine.Identity.World.{
  Error, Env, M, invitation, forbidden_invite_role, email_and_type_required, test_center_required,
  token_and_password_required, password_too_short, invalid_invite_token, invite_already_used,
  invite_expired, missing_test_center, unknown_entity_type, not_found, nil_dereference,
}
use adlts_core_engine.Identity.Requests.{
  AcceptInvitationRequest, CreateInvitationRequest, LoginResponse, normalize_invitation, is_short,
}
use adlts_core_engine.Identity.Repository.Rows.{is_some, is_unused}
use adlts_core_engine.Identity.Repository.Lookups.{invitation_by_token, invitation_by_id}
use adlts_core_engine.Identity.Repository.Writes.{
  create_expert, create_admin, create_super_admin, create_institute, create_authority,
  create_invitation_row, update_invitation_token, mark_invitation_used, cancel_invitation_row,
  time_now,
}
use adlts_core_engine.Identity.Service.Tokens.{
  invitation_ttl, issue_token, hash_password, send_mail, uuid_new,
}
use adlts_core_engine.Identity.Service.Login.{
  expert_holder, admin_holder, super_admin_holder, institute_holder, authority_holder,
}

abbrev pub is_center_admin : AuthContext → Bool
is_center_admin auth = text_eq auth.entity_type (entity_name admin)

-- An administrator invites experts and institutes only, to the own test center.
unfoldable pub scoped :
    AuthContext → CreateInvitationRequest → Outcome Error CreateInvitationRequest
scoped auth req =
    if is_center_admin auth
    then (if text_eq req.entity_type (entity_name expert)
          || text_eq req.entity_type (entity_name institute)
        then ok (record req { test_center_id = auth.test_center_id })
        else err forbidden_invite_role)
    else ok req

abbrev pub new_invitation : AuthContext → CreateInvitationRequest → ℕ → ℕ → Text → Invitation
new_invitation auth req now id token = record {
  id = id;
  token = token;
  email = req.email;
  entity_type = req.entity_type;
  test_center_id = req.test_center_id;
  expires_at = now + invitation_ttl;
  used_at = none;
  created_by = auth.subject_id;
  created_at = now;
}

-- The `switch` on the entity type of an invitation.
unfoldable pub invited_role : Text → Option EntityType
invited_role et =
    if text_eq et (entity_name expert)
    then some expert
    else if text_eq et (entity_name institute)
    then some institute
    else if text_eq et (entity_name admin)
    then some admin
    else if text_eq et (entity_name transport_authority)
    then some transport_authority
    else if text_eq et (entity_name super_admin)
    then some super_admin
    else none

-- The accounts that an invitation opens, active and in the name of who invited.
abbrev pub invited_by : Invitation → ℕ → Audit
invited_by inv now = record {
  created_at = now;
  updated_at = now;
  created_by = inv.created_by;
  updated_by = inv.created_by;
}

abbrev pub invited_person : Invitation → AcceptInvitationRequest → Text → ℕ → ℕ → BasePerson
invited_person inv req hash now id = record {
  id = id;
  first_name = req.first_name;
  middle_name = req.middle_name;
  last_name = req.last_name;
  email = inv.email;
  password_hash = hash;
  status = UserStatus.active;
  audit = invited_by inv now;
}

abbrev pub invited_expert : Invitation → AcceptInvitationRequest → Text → ℕ → ℕ → Expert
invited_expert inv req hash now id = record {
  person = invited_person inv req hash now id;
  phone = req.phone;
  fayida_id = req.fayida_id;
  employee_id = req.employee_id;
  birth_date = none;
  gender = none;
  photo_url = [];
}

abbrev pub invited_org : Invitation → AcceptInvitationRequest → Text → ℕ → ℕ → BaseOrg
invited_org inv req hash now id = record {
  id = id;
  name = req.name;
  email = inv.email;
  password_hash = hash;
  phone = [];
  address = record { street = []; city = []; region = []; country = [] };
  logo_url = [];
  status = OrgStatus.active;
  audit = invited_by inv now;
}

abbrev pub invited_super_admin : Invitation → AcceptInvitationRequest → Text → ℕ → ℕ → SuperAdmin
invited_super_admin inv req hash now id = record {
  id = id;
  name = req.name;
  email = inv.email;
  password_hash = hash;
  audit = invited_by inv now;
}

abbrev pub invited_admin : Invitation → AcceptInvitationRequest → ℕ → Text → ℕ → ℕ → Admin
invited_admin inv req center hash now id = record {
  person = invited_person inv req hash now id;
  test_center_id = center;
}

-- Whether an administrator's center is that of an invitation; the code reads the administrator's
-- center through a pointer.
abbrev pub same_center : Option ℕ → Option ℕ → Outcome Error (Unit {0})
same_center none own = err not_found
same_center (some a) none = err nil_dereference
same_center (some a) (some b) = if a == b then ok tt else err not_found

module _ (env : Env) where
  abbrev pub invite_link : Text → Text
  invite_link token = env.base_url ++ (codes "/accept-invitation?token=" ++ token)

  unfoldable pub create_invitation : AuthContext → CreateInvitationRequest → M Invitation
  create_invitation auth request = do
    guard (not (is_empty request.email || is_empty request.entity_type)) email_and_type_required
    req ← lift (scoped auth request)
    guard (not (text_eq req.entity_type (entity_name admin) && not (is_some req.test_center_id)))
        test_center_required
    now ← time_now env
    id ← uuid_new env
    token ← ask (λ n. env.uuid_string (env.host.new_uuid n))
    let inv = new_invitation auth req now id token
    create_invitation_row env inv
    send_mail env (invitation inv.email inv.entity_type (invite_link inv.token))
    pure inv

  -- One case of the `switch` for each role: the account is made, and its holder returned.
  unfoldable pub open_account :
      Option EntityType → Invitation → AcceptInvitationRequest → Text → ℕ → M Holder
  open_account none inv req hash now = fail unknown_entity_type
  open_account (some candidate) inv req hash now = fail unknown_entity_type
  open_account (some expert) inv req hash now = do
    id ← uuid_new env
    create_expert env (invited_expert inv req hash now id)
    pure (expert_holder (invited_expert inv req hash now id))
  open_account (some institute) inv req hash now = do
    id ← uuid_new env
    create_institute env (invited_org inv req hash now id)
    pure (institute_holder (invited_org inv req hash now id))
  open_account (some admin) inv req hash now = do
    center ← from_option inv.test_center_id missing_test_center
    id ← uuid_new env
    create_admin env (invited_admin inv req center hash now id)
    pure (admin_holder (invited_admin inv req center hash now id))
  open_account (some transport_authority) inv req hash now = do
    id ← uuid_new env
    create_authority env (invited_org inv req hash now id)
    pure (authority_holder (invited_org inv req hash now id))
  open_account (some super_admin) inv req hash now = do
    id ← uuid_new env
    create_super_admin env (invited_super_admin inv req hash now id)
    pure (super_admin_holder (invited_super_admin inv req hash now id))

  unfoldable pub accept_invitation : AcceptInvitationRequest → M LoginResponse
  unfolding invited_role open_account
  accept_invitation request = do
    let req = normalize_invitation request
    guard (not (is_empty req.token || is_empty req.password)) token_and_password_required
    guard (not (is_short req.password)) password_too_short
    inv ← present invalid_invite_token (invitation_by_token env req.token)
    guard (is_unused inv) invite_already_used
    present_time ← time_now env
    guard (not (ltb inv.expires_at present_time)) invite_expired
    hash ← hash_password env req.password
    now ← time_now env
    holder ← open_account (invited_role inv.entity_type) inv req hash now
    ignore (mark_invitation_used env inv.id)
    issue_token env holder

  unfoldable pub get_invitation : AuthContext → ℕ → M Invitation
  get_invitation auth id = do
    inv ← present not_found (invitation_by_id env id)
    if is_center_admin auth
        then lift (same_center inv.test_center_id auth.test_center_id) >> pure inv
        else pure inv

  unfoldable pub resend_invitation : AuthContext → ℕ → M (Unit {0})
  unfolding get_invitation
  resend_invitation auth id = do
    inv ← get_invitation auth id
    guard (is_unused inv) invite_already_used
    token ← ask (λ n. env.uuid_string (env.host.new_uuid n))
    now ← time_now env
    update_invitation_token env id token (now + invitation_ttl)
    send_mail env (invitation inv.email inv.entity_type (invite_link token))

  unfoldable pub cancel_invitation : AuthContext → ℕ → M (Unit {0})
  unfolding get_invitation
  cancel_invitation auth id = do
    inv ← get_invitation auth id
    guard (is_unused inv) invite_already_used
    cancel_invitation_row env id
