-- ===== src/Identity/Repository/Rows.antt =====
-- What the statements do to the tables.
use adlts_core_engine.Prelude.{
  ℕ, Bool, false, not, ◌||◌, List, [], ◌∷◌, Option, none, some, Text, text_eq, ◌==◌, if◌then◌else◌,
  keep_if, first_where, update_by,
}
use adlts_core_engine.Identity.Accounts.{
  UserStatus, OrgStatus, Audit, BasePerson, Candidate, Expert, Admin, SuperAdmin, BaseOrg,
  Invitation, OtpCode, ResetToken,
}
use adlts_core_engine.Identity.World.{Tables}

-- The table of each kind of account.
pub data Table : Type 0 where
  candidates experts admins super_admins institutes transport_authorities : Table

-- `WHERE email=$1`.
abbrev pub candidate_with : Text → Candidate → Bool
candidate_with email c = text_eq c.person.email email

abbrev pub expert_with : Text → Expert → Bool
expert_with email e = text_eq e.person.email email

abbrev pub admin_with : Text → Admin → Bool
admin_with email a = text_eq a.person.email email

abbrev pub super_admin_with : Text → SuperAdmin → Bool
super_admin_with email s = text_eq s.email email

abbrev pub org_with : Text → BaseOrg → Bool
org_with email o = text_eq o.email email

abbrev pub is_some {ℓ} : {A : Type ℓ} → Option A → Bool
is_some none = false
is_some (some a) = Bool.true

abbrev pub map_option {ℓ κ} : {A : Type ℓ} {B : Type κ} → (A → B) → Option A → Option B
map_option f none = none
map_option f (some a) = some (f a)

-- Whether some row passes a test: what a UNIQUE constraint looks for.
abbrev pub any {ℓ} : {A : Type ℓ} → (A → Bool) → List A → Bool
any p xs = is_some (first_where p xs)

-- The keys and UNIQUE columns of each table of accounts.
abbrev pub clashes_candidate : Candidate → Tables → Bool
clashes_candidate c t =
    any (λ (x : Candidate). x.person.id == c.person.id) t.candidates
    || any (candidate_with c.person.email) t.candidates
    || any (λ (x : Candidate). text_eq x.fayida_id c.fayida_id) t.candidates

abbrev pub clashes_expert : Expert → Tables → Bool
clashes_expert e t =
    any (λ (x : Expert). x.person.id == e.person.id) t.experts
    || any (expert_with e.person.email) t.experts
    || any (λ (x : Expert). text_eq x.fayida_id e.fayida_id) t.experts
    || any (λ (x : Expert). text_eq x.employee_id e.employee_id) t.experts

abbrev pub clashes_admin : Admin → Tables → Bool
clashes_admin a t =
    any (λ (x : Admin). x.person.id == a.person.id) t.admins
    || any (admin_with a.person.email) t.admins

abbrev pub clashes_super_admin : SuperAdmin → Tables → Bool
clashes_super_admin s t =
    any (λ (x : SuperAdmin). x.id == s.id) t.super_admins
    || any (super_admin_with s.email) t.super_admins

abbrev pub clashes_org : BaseOrg → List BaseOrg → Bool
clashes_org o os = any (λ (x : BaseOrg). x.id == o.id) os || any (org_with o.email) os

abbrev pub clashes_invitation : Invitation → Tables → Bool
clashes_invitation i t =
    any (λ (x : Invitation). x.id == i.id) t.invitations
    || any (λ (x : Invitation). text_eq x.token i.token) t.invitations

-- `SET status=$2, updated_at=NOW(), updated_by=$3`.
abbrev pub audited : ℕ → ℕ → Audit → Audit
audited now by a = record a { updated_at = now; updated_by = by }

abbrev pub person_status : UserStatus → ℕ → ℕ → BasePerson → BasePerson
person_status status now by p = record p { status = status; audit = audited now by p.audit }

abbrev pub candidate_status : UserStatus → ℕ → ℕ → Candidate → Candidate
candidate_status status now by c = record c { person = person_status status now by c.person }

abbrev pub expert_status : UserStatus → ℕ → ℕ → Expert → Expert
expert_status status now by e = record e { person = person_status status now by e.person }

abbrev pub admin_status : UserStatus → ℕ → ℕ → Admin → Admin
admin_status status now by a = record a { person = person_status status now by a.person }

abbrev pub org_status : OrgStatus → ℕ → ℕ → BaseOrg → BaseOrg
org_status status now by o = record o { status = status; audit = audited now by o.audit }

-- `SET password_hash=$2, updated_at=NOW()`.
abbrev pub touched : ℕ → Audit → Audit
touched now a = record a { updated_at = now }

abbrev pub person_password : Text → ℕ → BasePerson → BasePerson
person_password hash now p = record p { password_hash = hash; audit = touched now p.audit }

abbrev pub org_password : Text → ℕ → BaseOrg → BaseOrg
org_password hash now o = record o { password_hash = hash; audit = touched now o.audit }

abbrev pub update_org : ℕ → (BaseOrg → BaseOrg) → List BaseOrg → List BaseOrg
update_org id f = update_by (λ (o : BaseOrg). o.id) id f

-- The table named, with a new hash in the row of an id.
unfoldable pub with_password : Table → ℕ → Text → ℕ → Tables → Tables
with_password candidates id hash now t = record t {
  candidates =
      update_by (λ (c : Candidate). c.person.id) id
        (λ c. record c { person = person_password hash now c.person }) t.candidates;
}
with_password experts id hash now t = record t {
  experts =
      update_by (λ (e : Expert). e.person.id) id
        (λ e. record e { person = person_password hash now e.person }) t.experts;
}
with_password admins id hash now t = record t {
  admins =
      update_by (λ (a : Admin). a.person.id) id
        (λ a. record a { person = person_password hash now a.person }) t.admins;
}
with_password super_admins id hash now t = record t {
  super_admins =
      update_by (λ (s : SuperAdmin). s.id) id
        (λ s. record s { password_hash = hash; audit = touched now s.audit }) t.super_admins;
}
with_password institutes id hash now t = record t {
  institutes = update_org id (org_password hash now) t.institutes;
}
with_password transport_authorities id hash now t = record t {
  transport_authorities = update_org id (org_password hash now) t.transport_authorities;
}

-- `INSERT … ON CONFLICT (email) DO UPDATE SET`, of every other column.
unfoldable pub put_by {ℓ} : {A : Type ℓ} → (A → Text) → A → List A → List A
put_by key x [] = x ∷ []
put_by key x (y ∷ ys) = if text_eq (key y) (key x) then x ∷ ys else y ∷ put_by key x ys

unfoldable pub update_where {ℓ} : {A : Type ℓ} → (A → Bool) → (A → A) → List A → List A
update_where p f [] = []
update_where p f (x ∷ xs) = (if p x then f x else x) ∷ update_where p f xs

unfoldable pub delete_where {ℓ} : {A : Type ℓ} → (A → Bool) → List A → List A
delete_where p xs = keep_if (λ x. not (p x)) xs

abbrev pub otp_of : Text → OtpCode → Bool
otp_of email o = text_eq o.email email

abbrev pub reset_of : Text → ResetToken → Bool
reset_of token r = text_eq r.token token

abbrev pub is_unused : Invitation → Bool
is_unused i = not (is_some i.used_at)
