-- ===== src/Identity/Handlers/Organizations.antt =====
-- The handlers of institutes, transport authorities and super administrators.
use adlts_core_engine.Prelude.{
  ℕ, Bool, [], ◌∷◌, Option, none, some, Text, codes, text_eq, is_empty, ◌==◌, if◌then◌else◌,
}
use adlts_core_engine.Program.{State, Outcome, ok, err}
use adlts_core_engine.Security.Guards.{AuthContext}
use adlts_core_engine.Identity.Accounts.{OrgStatus, BaseOrg, SuperAdmin}
use adlts_core_engine.Identity.World.{Tables, Error, Env}
use adlts_core_engine.Identity.Repository.Profiles.{
  institute_by_id, authority_by_id, super_admin_by_id, update_institute_fields,
  update_authority_fields, update_super_admin_fields, update_institute_status,
  delete_super_admin_row, set_org_status,
}
use adlts_core_engine.Identity.Handlers.{
  Reply, failure, Handled, decoded, with_id, shown, written, update_failed, delete_failed, given,
  parse_org_status, UpdateInstituteRequest, UpdateAuthorityRequest, institute_self_fields,
  authority_self_fields,
}

abbrev pub with_org_status : Text → (OrgStatus → Handled (Unit {0})) → Handled (Unit {0})
with_org_status s k w = elim (parse_org_status s) [
  | none ↦ (failure 422 (codes "INVALID_STATUS"), w)
  | some status ↦ k status w
]

-- `SUPER_ADMIN_EMAIL`, or the fallback.
abbrev pub root_email : Text → Text
root_email configured = if is_empty configured then codes "root@adlts.et" else configured

-- Whether the row that was read is the root's; a read that failed protects nobody.
abbrev pub is_root : Text → Outcome Error (Option SuperAdmin) → Bool
is_root configured (ok (some s)) = text_eq s.email (root_email configured)
is_root configured (ok none) = Bool.false
is_root configured (err e) = Bool.false

module _ (env : Env) where
  unfoldable pub institute_me : AuthContext → Handled BaseOrg
  institute_me auth w = shown (institute_by_id env auth.subject_id w)

  unfoldable pub update_institute_me :
      AuthContext → Option UpdateInstituteRequest → Handled (Unit {0})
  unfolding institute_self_fields
  update_institute_me auth body = decoded body (λ req w.
      written update_failed
        (update_institute_fields env auth.subject_id (institute_self_fields req) auth.subject_id w))

  unfoldable pub soft_delete_institute_me : AuthContext → Handled (Unit {0})
  soft_delete_institute_me auth w =
      written delete_failed
        (update_institute_status env auth.subject_id OrgStatus.inactive auth.subject_id w)

  unfoldable pub get_institute : Option ℕ → Handled BaseOrg
  get_institute path = with_id path (λ id w. shown (institute_by_id env id w))

  unfoldable pub update_institute_admin :
      AuthContext → Option ℕ → Option UpdateInstituteRequest → Handled (Unit {0})
  unfolding institute_self_fields
  update_institute_admin auth path body = with_id path (λ id. decoded body (λ req w.
      written update_failed
        (update_institute_fields env id (institute_self_fields req) auth.subject_id w)))

  unfoldable pub set_institute_status : AuthContext → Option ℕ → Option Text → Handled (Unit {0})
  unfolding parse_org_status
  set_institute_status auth path body = with_id path (λ id. decoded body (λ s.
      with_org_status s (λ status w.
        written update_failed (update_institute_status env id status auth.subject_id w))))

  unfoldable pub delete_institute : AuthContext → Option ℕ → Handled (Unit {0})
  delete_institute auth path = with_id path (λ id w.
      written delete_failed (update_institute_status env id OrgStatus.inactive auth.subject_id w))

  unfoldable pub authority_me : AuthContext → Handled BaseOrg
  authority_me auth w = shown (authority_by_id env auth.subject_id w)

  unfoldable pub update_authority_me :
      AuthContext → Option UpdateAuthorityRequest → Handled (Unit {0})
  unfolding authority_self_fields
  update_authority_me auth body = decoded body (λ req w.
      written update_failed
        (update_authority_fields env auth.subject_id (authority_self_fields req) auth.subject_id w))

  unfoldable pub get_authority : Option ℕ → Handled BaseOrg
  get_authority path = with_id path (λ id w. shown (authority_by_id env id w))

  unfoldable pub update_authority_admin :
      AuthContext → Option ℕ → Option UpdateAuthorityRequest → Handled (Unit {0})
  unfolding authority_self_fields
  update_authority_admin auth path body = with_id path (λ id. decoded body (λ req w.
      written update_failed
        (update_authority_fields env id (authority_self_fields req) auth.subject_id w)))

  unfoldable pub set_authority_status : AuthContext → Option ℕ → Option Text → Handled (Unit {0})
  unfolding parse_org_status
  set_authority_status auth path body = with_id path (λ id. decoded body (λ s.
      with_org_status s (λ status w.
        written update_failed
          (update_authority_fields env id (set_org_status status ∷ []) auth.subject_id w))))

  unfoldable pub delete_authority : AuthContext → Option ℕ → Handled (Unit {0})
  delete_authority auth path = with_id path (λ id w.
      written delete_failed
        (update_authority_fields env id (set_org_status OrgStatus.inactive ∷ []) auth.subject_id w))

  unfoldable pub super_admin_me : AuthContext → Handled SuperAdmin
  super_admin_me auth w = shown (super_admin_by_id env auth.subject_id w)

  -- The body is the name, if any.
  unfoldable pub update_super_admin_me : AuthContext → Option (Option Text) → Handled (Unit {0})
  update_super_admin_me auth body = decoded body (λ name w.
      written update_failed
        (update_super_admin_fields env auth.subject_id (given (λ v. v) name) auth.subject_id w))

  unfoldable pub get_super_admin : Option ℕ → Handled SuperAdmin
  get_super_admin path = with_id path (λ id w. shown (super_admin_by_id env id w))

  unfoldable pub update_super_admin_admin :
      AuthContext → Option ℕ → Option (Option Text) → Handled (Unit {0})
  update_super_admin_admin auth path body = with_id path (λ id. decoded body (λ name w.
      written update_failed
        (update_super_admin_fields env id (given (λ v. v) name) auth.subject_id w)))

  -- Behind the read of the row that is to be deleted.
  abbrev pub delete_unless_root :
      Text → ℕ → Outcome Error (Option SuperAdmin) × State Tables → Reply (Unit {0}) × State Tables
  delete_unless_root configured id (target, w) =
      if is_root configured target
      then (failure 403 (codes "ROOT_PROTECTED"), w)
      else written delete_failed (delete_super_admin_row env id w)

  unfoldable pub delete_super_admin : Text → AuthContext → Option ℕ → Handled (Unit {0})
  delete_super_admin configured auth path = with_id path (λ id w.
      if id == auth.subject_id
      then (failure 403 (codes "SELF_DELETE"), w)
      else delete_unless_root configured id (super_admin_by_id env id w))
