-- ===== src/Identity/Repository/Lookups.antt =====
-- The queries that read an account or an invitation. A row that is not there is no error.
use adlts_core_engine.Prelude.{
  ℕ, Bool, ◌&&◌, Option, none, some, Text, text_eq, first_where, find_by,
}
use adlts_core_engine.Program.{pure, guard, ◌>>=◌, ◌>>◌, from_option, fetch}
use adlts_core_engine.Identity.Accounts.{Candidate, Expert, Admin, SuperAdmin, BaseOrg, Invitation}
use adlts_core_engine.Identity.World.{Tables, Env, M, scans, database, null_column, not_found}
use adlts_core_engine.Identity.Repository.Rows.{
  Table, candidates, experts, admins, super_admins, institutes, transport_authorities,
  candidate_with, expert_with, admin_with, super_admin_with, org_with,
}

-- `scanExpert`: the columns birth_date and gender may be NULL, and go into a time and a string.
unfoldable pub scan_expert : Env → Option Expert → M (Option Expert)
scan_expert env none = pure none
scan_expert env (some e) =
    guard (scans env e.birth_date && scans env e.gender) null_column >> pure (some e)

unfoldable pub hash_of : Table → ℕ → Tables → Option Text
hash_of candidates id t = elim (find_by (λ (c : Candidate). c.person.id) id t.candidates) [
  | none ↦ none
  | some c ↦ some c.person.password_hash
]
hash_of experts id t = elim (find_by (λ (e : Expert). e.person.id) id t.experts) [
  | none ↦ none
  | some e ↦ some e.person.password_hash
]
hash_of admins id t = elim (find_by (λ (a : Admin). a.person.id) id t.admins) [
  | none ↦ none
  | some a ↦ some a.person.password_hash
]
hash_of super_admins id t = elim (find_by (λ (s : SuperAdmin). s.id) id t.super_admins) [
  | none ↦ none
  | some s ↦ some s.password_hash
]
hash_of institutes id t = elim (find_by (λ (o : BaseOrg). o.id) id t.institutes) [
  | none ↦ none
  | some o ↦ some o.password_hash
]
hash_of transport_authorities id t =
    elim (find_by (λ (o : BaseOrg). o.id) id t.transport_authorities) [
      | none ↦ none
      | some o ↦ some o.password_hash
    ]

abbrev pub invitation_row : ℕ → Tables → Option Invitation
invitation_row id t = find_by (λ (i : Invitation). i.id) id t.invitations

abbrev pub invitation_with : Text → Invitation → Bool
invitation_with token i = text_eq i.token token

module _ (env : Env) where
  abbrev pub query {ℓ} : {A : Type ℓ} → (Tables → A) → M A
  query = fetch env.host database

  unfoldable pub candidate_by_email : Text → M (Option Candidate)
  candidate_by_email email = query (λ t. first_where (candidate_with email) t.candidates)

  unfoldable pub candidate_by_fayida_id : Text → M (Option Candidate)
  candidate_by_fayida_id fayida_id =
      query (λ t. first_where (λ (c : Candidate). text_eq c.fayida_id fayida_id) t.candidates)

  unfoldable pub expert_by_email : Text → M (Option Expert)
  unfolding scan_expert
  expert_by_email email =
      query (λ t. first_where (expert_with email) t.experts) >>= λ found. scan_expert env found

  unfoldable pub admin_by_email : Text → M (Option Admin)
  admin_by_email email = query (λ t. first_where (admin_with email) t.admins)

  unfoldable pub super_admin_by_email : Text → M (Option SuperAdmin)
  super_admin_by_email email = query (λ t. first_where (super_admin_with email) t.super_admins)

  unfoldable pub institute_by_email : Text → M (Option BaseOrg)
  institute_by_email email = query (λ t. first_where (org_with email) t.institutes)

  unfoldable pub authority_by_email : Text → M (Option BaseOrg)
  authority_by_email email = query (λ t. first_where (org_with email) t.transport_authorities)

  unfoldable pub invitation_by_token : Text → M (Option Invitation)
  invitation_by_token token = query (λ t. first_where (invitation_with token) t.invitations)

  unfoldable pub invitation_by_id : ℕ → M (Option Invitation)
  invitation_by_id id = query (invitation_row id)

  -- `GetPasswordHash`, for which a missing row is an error.
  unfoldable pub get_password_hash : Table → ℕ → M Text
  unfolding hash_of
  get_password_hash table id = query (hash_of table id) >>= λ found. from_option found not_found
