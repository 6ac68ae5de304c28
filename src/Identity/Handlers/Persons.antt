-- ===== src/Identity/Handlers/Persons.antt =====
-- The handlers of candidates, experts and administrators, behind the guards of their routes.
use adlts_core_engine.Prelude.{ℕ, Option, none, some, Text, codes}
use adlts_core_engine.Security.Guards.{AuthContext}
use adlts_core_engine.Identity.Accounts.{UserStatus, Candidate, Expert, Admin}
use adlts_core_engine.Identity.World.{Env, M}
use adlts_core_engine.Identity.Repository.Writes.{update_candidate_status}
use adlts_core_engine.Identity.Repository.Profiles.{
  candidate_by_id, expert_by_id, admin_by_id, update_candidate_fields, update_expert_fields,
  update_admin_fields, update_expert_status, update_admin_status, delete_expert_row,
  delete_admin_row,
}
use adlts_core_engine.Identity.Handlers.{
  failure, Handled, decoded, with_id, shown, written, update_failed, delete_failed,
  parse_user_status, UpdateNameRequest, UpdatePersonRequest, candidate_self_fields,
  expert_self_fields, admin_self_fields,
}

-- A status that is no status of a person is refused.
abbrev pub with_user_status : Text → (UserStatus → Handled (Unit {0})) → Handled (Unit {0})
with_user_status s k w = elim (parse_user_status s) [
  | none ↦ (failure 422 (codes "INVALID_STATUS"), w)
  | some status ↦ k status w
]

-- The handlers that set a status, up to the statement that they use.
abbrev pub set_status :
    (ℕ → UserStatus → ℕ → M (Unit {0})) → AuthContext → Option ℕ → Option Text → Handled (Unit {0})
set_status update auth path body = with_id path (λ id. decoded body (λ s.
    with_user_status s (λ status w. written update_failed (update id status auth.subject_id w))))

module _ (env : Env) where
  unfoldable pub candidate_me : AuthContext → Handled Candidate
  candidate_me auth w = shown (candidate_by_id env auth.subject_id w)

  unfoldable pub update_candidate_me : AuthContext → Option UpdatePersonRequest → Handled (Unit {0})
  unfolding candidate_self_fields
  update_candidate_me auth body = decoded body (λ req w.
      written update_failed
        (update_candidate_fields env auth.subject_id (candidate_self_fields req) auth.subject_id w))

  unfoldable pub soft_delete_candidate_me : AuthContext → Handled (Unit {0})
  soft_delete_candidate_me auth w =
      written delete_failed
        (update_candidate_status env auth.subject_id UserStatus.inactive auth.subject_id w)

  unfoldable pub get_candidate : Option ℕ → Handled Candidate
  get_candidate path = with_id path (λ id w. shown (candidate_by_id env id w))

  unfoldable pub update_candidate_admin :
      AuthContext → Option ℕ → Option UpdatePersonRequest → Handled (Unit {0})
  unfolding candidate_self_fields
  update_candidate_admin auth path body = with_id path (λ id. decoded body (λ req w.
      written update_failed
        (update_candidate_fields env id (candidate_self_fields req) auth.subject_id w)))

  unfoldable pub set_candidate_status : AuthContext → Option ℕ → Option Text → Handled (Unit {0})
  unfolding parse_user_status
  set_candidate_status = set_status (update_candidate_status env)

  unfoldable pub delete_candidate : AuthContext → Option ℕ → Handled (Unit {0})
  delete_candidate auth path = with_id path (λ id w.
      written delete_failed (update_candidate_status env id UserStatus.inactive auth.subject_id w))

  unfoldable pub expert_me : AuthContext → Handled Expert
  expert_me auth w = shown (expert_by_id env auth.subject_id w)

  unfoldable pub update_expert_me : AuthContext → Option UpdatePersonRequest → Handled (Unit {0})
  unfolding expert_self_fields
  update_expert_me auth body = decoded body (λ req w.
      written update_failed
        (update_expert_fields env auth.subject_id (expert_self_fields req) auth.subject_id w))

  unfoldable pub get_expert : Option ℕ → Handled Expert
  get_expert path = with_id path (λ id w. shown (expert_by_id env id w))

  unfoldable pub update_expert_admin :
      AuthContext → Option ℕ → Option UpdatePersonRequest → Handled (Unit {0})
  unfolding expert_self_fields
  update_expert_admin auth path body = with_id path (λ id. decoded body (λ req w.
      written update_failed
        (update_expert_fields env id (expert_self_fields req) auth.subject_id w)))

  unfoldable pub set_expert_status : AuthContext → Option ℕ → Option Text → Handled (Unit {0})
  unfolding parse_user_status
  set_expert_status = set_status (update_expert_status env)

  unfoldable pub delete_expert : Option ℕ → Handled (Unit {0})
  delete_expert path = with_id path (λ id w. written delete_failed (delete_expert_row env id w))

  unfoldable pub admin_me : AuthContext → Handled Admin
  admin_me auth w = shown (admin_by_id env auth.subject_id w)

  unfoldable pub update_admin_me : AuthContext → Option UpdateNameRequest → Handled (Unit {0})
  unfolding admin_self_fields
  update_admin_me auth body = decoded body (λ req w.
      written update_failed
        (update_admin_fields env auth.subject_id (admin_self_fields req) auth.subject_id w))

  unfoldable pub get_admin : Option ℕ → Handled Admin
  get_admin path = with_id path (λ id w. shown (admin_by_id env id w))

  unfoldable pub update_admin_admin :
      AuthContext → Option ℕ → Option UpdateNameRequest → Handled (Unit {0})
  unfolding admin_self_fields
  update_admin_admin auth path body = with_id path (λ id. decoded body (λ req w.
      written update_failed (update_admin_fields env id (admin_self_fields req) auth.subject_id w)))

  unfoldable pub set_admin_status : AuthContext → Option ℕ → Option Text → Handled (Unit {0})
  unfolding parse_user_status
  set_admin_status = set_status (update_admin_status env)

  unfoldable pub delete_admin : Option ℕ → Handled (Unit {0})
  delete_admin path = with_id path (λ id w. written delete_failed (delete_admin_row env id w))
