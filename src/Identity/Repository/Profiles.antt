-- ===== src/Identity/Repository/Profiles.antt =====
-- The queries that only the handlers use: rows by id, updates of some columns, and deletions.
use adlts_core_engine.Prelude.{ℕ, List, [], ◌∷◌, Option, Text, ◌==◌, find_by, update_by}
use adlts_core_engine.Program.{pure, ◌>>=◌}
use adlts_core_engine.Identity.Accounts.{
  UserStatus, OrgStatus, BasePerson, Candidate, Expert, Admin, SuperAdmin, BaseOrg,
}
use adlts_core_engine.Identity.World.{Tables, Env, M}
use adlts_core_engine.Identity.Repository.Rows.{
  audited, expert_status, admin_status, org_status, update_org, delete_where,
}
use adlts_core_engine.Identity.Repository.Lookups.{query, scan_expert}
use adlts_core_engine.Identity.Repository.Writes.{run}

-- An entry of the map that `updateFields` is given: a column and its value.
pub data NameField : Type 0 where
  set_first_name set_middle_name set_last_name : Text → NameField

pub data PersonField : Type 0 where
  set_name_field : NameField → PersonField
  set_phone set_photo_url : Text → PersonField

pub data OrgField : Type 0 where
  set_name set_org_phone set_logo_url set_street set_city set_region set_country : Text → OrgField
  set_org_status : OrgStatus → OrgField

abbrev pub assign_name : NameField → BasePerson → BasePerson
assign_name (set_first_name v) p = record p { first_name = v }
assign_name (set_middle_name v) p = record p { middle_name = v }
assign_name (set_last_name v) p = record p { last_name = v }

abbrev pub assign_candidate : PersonField → Candidate → Candidate
assign_candidate (set_name_field f) c = record c { person = assign_name f c.person }
assign_candidate (set_phone v) c = record c { phone = v }
assign_candidate (set_photo_url v) c = record c { photo_url = v }

abbrev pub assign_expert : PersonField → Expert → Expert
assign_expert (set_name_field f) e = record e { person = assign_name f e.person }
assign_expert (set_phone v) e = record e { phone = v }
assign_expert (set_photo_url v) e = record e { photo_url = v }

abbrev pub assign_admin : NameField → Admin → Admin
assign_admin f a = record a { person = assign_name f a.person }

abbrev pub assign_super_admin : Text → SuperAdmin → SuperAdmin
assign_super_admin v s = record s { name = v }

abbrev pub assign_org : OrgField → BaseOrg → BaseOrg
assign_org (set_name v) o = record o { name = v }
assign_org (set_org_phone v) o = record o { phone = v }
assign_org (set_logo_url v) o = record o { logo_url = v }
assign_org (set_street v) o = record o { address = record (o.address) { street = v } }
assign_org (set_city v) o = record o { address = record (o.address) { city = v } }
assign_org (set_region v) o = record o { address = record (o.address) { region = v } }
assign_org (set_country v) o = record o { address = record (o.address) { country = v } }
assign_org (set_org_status v) o = record o { status = v }

unfoldable pub assign_fields {ℓ κ} : {F : Type ℓ} {A : Type κ} → (F → A → A) → List F → A → A
assign_fields assign [] a = a
assign_fields assign (f ∷ fs) a = assign_fields assign fs (assign f a)

-- The columns are each set once, so the order of the map does not matter.
abbrev pub fields_written {ℓ κ} :
    {F : Type ℓ} {A : Type κ} → (F → A → A) → (ℕ → ℕ → A → A) → List F → ℕ → ℕ → A → A
fields_written assign stamp fields by now a = stamp now by (assign_fields assign fields a)

abbrev pub stamp_person : ℕ → ℕ → BasePerson → BasePerson
stamp_person now by p = record p { audit = audited now by p.audit }

abbrev pub stamp_candidate : ℕ → ℕ → Candidate → Candidate
stamp_candidate now by c = record c { person = stamp_person now by c.person }

abbrev pub stamp_expert : ℕ → ℕ → Expert → Expert
stamp_expert now by e = record e { person = stamp_person now by e.person }

abbrev pub stamp_admin : ℕ → ℕ → Admin → Admin
stamp_admin now by a = record a { person = stamp_person now by a.person }

abbrev pub stamp_super_admin : ℕ → ℕ → SuperAdmin → SuperAdmin
stamp_super_admin now by s = record s { audit = audited now by s.audit }

abbrev pub stamp_org : ℕ → ℕ → BaseOrg → BaseOrg
stamp_org now by o = record o { audit = audited now by o.audit }

abbrev pub super_admin_row : ℕ → Tables → Option SuperAdmin
super_admin_row id t = find_by (λ (s : SuperAdmin). s.id) id t.super_admins

abbrev pub candidate_row : ℕ → Tables → Option Candidate
candidate_row id t = find_by (λ (c : Candidate). c.person.id) id t.candidates

module _ (env : Env) where
  unfoldable pub candidate_by_id : ℕ → M (Option Candidate)
  candidate_by_id id = query env (candidate_row id)

  unfoldable pub expert_by_id : ℕ → M (Option Expert)
  unfolding scan_expert
  expert_by_id id = query env (λ t. find_by (λ (e : Expert). e.person.id) id t.experts) >>= λ found.
      scan_expert env found

  unfoldable pub admin_by_id : ℕ → M (Option Admin)
  admin_by_id id = query env (λ t. find_by (λ (a : Admin). a.person.id) id t.admins)

  unfoldable pub super_admin_by_id : ℕ → M (Option SuperAdmin)
  super_admin_by_id id = query env (super_admin_row id)

  unfoldable pub institute_by_id : ℕ → M (Option BaseOrg)
  institute_by_id id = query env (λ t. find_by (λ (o : BaseOrg). o.id) id t.institutes)

  unfoldable pub authority_by_id : ℕ → M (Option BaseOrg)
  authority_by_id id = query env (λ t. find_by (λ (o : BaseOrg). o.id) id t.transport_authorities)

  -- `updateFields`: without a field there is no statement.
  unfoldable pub update_fields {ℓ} : {F : Type ℓ} → List F → (ℕ → Tables → Tables) → M (Unit {0})
  update_fields [] write = pure tt
  update_fields (f ∷ fs) write = run env write

  unfoldable pub update_candidate_fields : ℕ → List PersonField → ℕ → M (Unit {0})
  unfolding update_fields assign_fields
  update_candidate_fields id fields by = update_fields fields (λ now t. record t {
    candidates =
        update_by (λ (c : Candidate). c.person.id) id
          (fields_written assign_candidate stamp_candidate fields by now) t.candidates;
  })

  unfoldable pub update_expert_fields : ℕ → List PersonField → ℕ → M (Unit {0})
  unfolding update_fields assign_fields
  update_expert_fields id fields by = update_fields fields (λ now t. record t {
    experts =
        update_by (λ (e : Expert). e.person.id) id
          (fields_written assign_expert stamp_expert fields by now) t.experts;
  })

  unfoldable pub update_admin_fields : ℕ → List NameField → ℕ → M (Unit {0})
  unfolding update_fields assign_fields
  update_admin_fields id fields by = update_fields fields (λ now t. record t {
    admins =
        update_by (λ (a : Admin). a.person.id) id
          (fields_written assign_admin stamp_admin fields by now) t.admins;
  })

  -- The only column that callers set here is the name.
  unfoldable pub update_super_admin_fields : ℕ → List Text → ℕ → M (Unit {0})
  unfolding update_fields assign_fields
  update_super_admin_fields id fields by = update_fields fields (λ now t. record t {
    super_admins =
        update_by (λ (s : SuperAdmin). s.id) id
          (fields_written assign_super_admin stamp_super_admin fields by now) t.super_admins;
  })

  unfoldable pub update_institute_fields : ℕ → List OrgField → ℕ → M (Unit {0})
  unfolding update_fields assign_fields
  update_institute_fields id fields by = update_fields fields (λ now t. record t {
    institutes = update_org id (fields_written assign_org stamp_org fields by now) t.institutes;
  })

  unfoldable pub update_authority_fields : ℕ → List OrgField → ℕ → M (Unit {0})
  unfolding update_fields assign_fields
  update_authority_fields id fields by = update_fields fields (λ now t. record t {
    transport_authorities =
        update_org id (fields_written assign_org stamp_org fields by now) t.transport_authorities;
  })

  unfoldable pub update_expert_status : ℕ → UserStatus → ℕ → M (Unit {0})
  update_expert_status id status by = run env (λ now t. record t {
    experts = update_by (λ (e : Expert). e.person.id) id (expert_status status now by) t.experts;
  })

  unfoldable pub update_admin_status : ℕ → UserStatus → ℕ → M (Unit {0})
  update_admin_status id status by = run env (λ now t. record t {
    admins = update_by (λ (a : Admin). a.person.id) id (admin_status status now by) t.admins;
  })

  unfoldable pub update_institute_status : ℕ → OrgStatus → ℕ → M (Unit {0})
  update_institute_status id status by =
      run env
        (λ now t. record t { institutes = update_org id (org_status status now by) t.institutes })

  unfoldable pub delete_expert_row : ℕ → M (Unit {0})
  unfolding delete_where
  delete_expert_row id =
      run env
        (λ _ t. record t { experts = delete_where (λ (e : Expert). e.person.id == id) t.experts })

  unfoldable pub delete_admin_row : ℕ → M (Unit {0})
  unfolding delete_where
  delete_admin_row id =
      run env
        (λ _ t. record t { admins = delete_where (λ (a : Admin). a.person.id == id) t.admins })

  unfoldable pub delete_super_admin_row : ℕ → M (Unit {0})
  unfolding delete_where
  delete_super_admin_row id = run env (λ _ t. record t {
    super_admins = delete_where (λ (s : SuperAdmin). s.id == id) t.super_admins;
  })
