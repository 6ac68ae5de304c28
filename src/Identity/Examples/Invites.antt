-- ===== src/Identity/Examples/Invites.antt =====
-- Invitations that are made, cancelled and accepted.
use adlts_core_engine.Identity.Repository.Lookups.{invitation_by_token, invitation_by_id}
use adlts_core_engine.Identity.Service.Tokens.{issue_token, hash_password, send_mail}
use adlts_core_engine.Identity.Repository.Writes.{create_institute, create_invitation_row}
use adlts_core_engine.Prelude.{byte_length, find_by, first_where, ◌≡◌, refl, codes, [], some}
use adlts_core_engine.Program.{fetch, exec_unless, State, err}
use adlts_core_engine.Security.Guards.{AuthContext, claims_of}
use adlts_core_engine.Security.Sample.{sample_jwt}
use adlts_core_engine.Identity.Accounts.{UserStatus, Invitation}
use adlts_core_engine.Identity.World.{Tables, invite_already_used}
use adlts_core_engine.Identity.Requests.{
  normalize_invitation, AcceptInvitationRequest, CreateInvitationRequest, is_short,
}
use adlts_core_engine.Identity.Service.Invitations.{
  scoped, create_invitation, cancel_invitation, accept_invitation,
}
use adlts_core_engine.Identity.Acceptance.{
  Accepted, accept_invitation-Accepted, accept_invitation-once,
}
use adlts_core_engine.Identity.Scope.{Made, create_invitation-Made}
use adlts_core_engine.Identity.Cancellation.{cancel_invitation-Outcomes}
use adlts_core_engine.Identity.Examples.{
  calm, calm_reliable, secret, world_of, as_admin, sample_invitation, result_of, no_tokens,
}

abbrev active_world : State Tables
active_world = world_of UserStatus.active

-- An administrator of center 3 who asks for another center gets the own one.
abbrev asked : CreateInvitationRequest
asked = record { email = codes "q@r.s"; entity_type = codes "expert"; test_center_id = some 9 }

create_invitation-Made_example :
    let r = create_invitation calm as_admin asked active_world in
    Made as_admin active_world.tables (result_of sample_invitation r) r.1.tables
unfolding create_invitation scoped create_invitation_row exec_unless first_where send_mail
create_invitation-Made_example = create_invitation-Made calm as_admin asked active_world refl

abbrev as_other : AuthContext
as_other = record as_admin { test_center_id = some 4 }

cancel_invitation-Outcomes_example :
    (cancel_invitation calm as_other 8 active_world).1.tables ≡ active_world.tables
unfolding cancel_invitation invitation_by_id fetch find_by
cancel_invitation-Outcomes_example = cancel_invitation-Outcomes calm as_other 8 active_world

abbrev acceptance : AcceptInvitationRequest
acceptance = record {
  token = codes "T";
  password = secret;
  first_name = [];
  middle_name = [];
  last_name = [];
  name = codes "I";
  phone = [];
  fayida_id = [];
  fayda_id = [];
  employee_id = [];
}

accept_invitation-Accepted_example :
    let r = accept_invitation calm acceptance active_world in
    (inv : Invitation) × Accepted calm acceptance active_world inv
      (result_of no_tokens r)
      r.1.tables
unfolding accept_invitation sample_jwt claims_of normalize_invitation is_short byte_length
    invitation_by_token fetch first_where hash_password create_institute exec_unless issue_token
accept_invitation-Accepted_example = accept_invitation-Accepted calm acceptance active_world refl

accept_invitation-once_example :
    (accept_invitation calm acceptance (accept_invitation calm acceptance active_world).1).0
    ≡ err invite_already_used
unfolding accept_invitation sample_jwt claims_of is_short normalize_invitation byte_length
    invitation_by_token fetch first_where hash_password create_institute exec_unless issue_token
accept_invitation-once_example =
    accept_invitation-once calm calm_reliable acceptance acceptance active_world
      (accept_invitation calm acceptance active_world).1 refl refl refl refl refl refl
