-- ===== src/Identity/Handlers/Invites.antt =====
-- The handlers of invitations, behind the guards of their routes.
use adlts_core_engine.Prelude.{ℕ, [], Option, Text, codes}
use adlts_core_engine.Security.Guards.{AuthContext}
use adlts_core_engine.Identity.Accounts.{Invitation}
use adlts_core_engine.Identity.World.{
  Error, Env, forbidden_invite_role, invite_already_used, not_found, nil_dereference,
}
use adlts_core_engine.Identity.Requests.{CreateInvitationRequest}
use adlts_core_engine.Identity.Service.Invitations.{
  create_invitation, get_invitation, resend_invitation, cancel_invitation,
}
use adlts_core_engine.Identity.Handlers.{
  Reply, failure, Handled, answer, decoded, with_id, not_there,
}

abbrev pub create_refusal {ℓ} : {A : Type ℓ} → Error → Reply A
create_refusal forbidden_invite_role = failure 403 (codes "FORBIDDEN_ROLE")
create_refusal _ = failure 422 (codes "INVITATION_FAILED")

-- The middleware `Recoverer` of internal/app/app.go answers for a handler that panics.
abbrev pub recovered_panic {ℓ} : {A : Type ℓ} → Reply A
recovered_panic = failure 500 []

abbrev pub get_refusal {ℓ} : {A : Type ℓ} → Error → Reply A
get_refusal nil_dereference = recovered_panic
get_refusal _ = not_there

-- The `switch` of the handlers that resend and cancel, with their last code.
abbrev pub invite_refusal {ℓ} : {A : Type ℓ} → Text → Error → Reply A
invite_refusal code invite_already_used = failure 409 (codes "ALREADY_USED")
invite_refusal code not_found = not_there
invite_refusal code nil_dereference = recovered_panic
invite_refusal code _ = failure 500 code

module _ (env : Env) (auth : AuthContext) where
  unfoldable pub handle_create_invitation : Option CreateInvitationRequest → Handled Invitation
  handle_create_invitation body =
      decoded body (λ req w. answer 201 create_refusal (create_invitation env auth req w))

  unfoldable pub handle_get_invitation : Option ℕ → Handled Invitation
  handle_get_invitation path =
      with_id path (λ id w. answer 200 get_refusal (get_invitation env auth id w))

  unfoldable pub handle_resend_invitation : Option ℕ → Handled (Unit {0})
  handle_resend_invitation path = with_id path (λ id w.
      answer 200 (invite_refusal (codes "RESEND_FAILED")) (resend_invitation env auth id w))

  unfoldable pub handle_cancel_invitation : Option ℕ → Handled (Unit {0})
  handle_cancel_invitation path = with_id path (λ id w.
      answer 200 (invite_refusal (codes "CANCEL_FAILED")) (cancel_invitation env auth id w))
