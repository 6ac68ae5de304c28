-- ===== src/Identity/Repository/Listings.antt =====
-- The listings: twenty rows of those that pass a filter, newest first, and how many pass it.
use adlts_core_engine.Prelude.{
  ℕ, Bool, true, false, not, ◌&&◌, ◌||◌, List, [], ◌∷◌, Option, none, some, Text, codes, text_eq,
  is_empty, ◌==◌, ltb, leb, ℤ, if◌then◌else◌, keep_if, length,
}
use adlts_core_engine.Program.{pure, guard, recover, from_option, ◌>>=◌, ◌>>◌}
use adlts_core_engine.Booking.Repository.{sort, page_of}
use adlts_core_engine.Identity.Accounts.{
  UserStatus, OrgStatus, BasePerson, Candidate, Expert, Admin, SuperAdmin, BaseOrg, Invitation,
}
use adlts_core_engine.Identity.World.{Tables, Env, M, scans, database, null_column}
use adlts_core_engine.Identity.Repository.Rows.{is_unused}
use adlts_core_engine.Identity.Repository.Lookups.{query}
use adlts_core_engine.Identity.Repository.Writes.{time_now}

-- A status in a filter; the database refuses one that is none of the enumeration.
unfoldable pub user_status_filter : Text → Option (Option UserStatus)
user_status_filter s =
    if is_empty s
    then some none
    else if text_eq s (codes "active")
    then some (some UserStatus.active)
    else if text_eq s (codes "inactive")
    then some (some UserStatus.inactive)
    else if text_eq s (codes "suspended")
    then some (some UserStatus.suspended)
    else if text_eq s (codes "pending_verification")
    then some (some UserStatus.pending_verification)
    else none

unfoldable pub org_status_filter : Text → Option (Option OrgStatus)
org_status_filter s =
    if is_empty s
    then some none
    else if text_eq s (codes "active")
    then some (some OrgStatus.active)
    else if text_eq s (codes "inactive")
    then some (some OrgStatus.inactive)
    else if text_eq s (codes "suspended")
    then some (some OrgStatus.suspended)
    else if text_eq s (codes "pending_approval")
    then some (some OrgStatus.pending_approval)
    else none

abbrev pub same_user_status : UserStatus → UserStatus → Bool
same_user_status UserStatus.active UserStatus.active = true
same_user_status UserStatus.inactive UserStatus.inactive = true
same_user_status UserStatus.suspended UserStatus.suspended = true
same_user_status UserStatus.pending_verification UserStatus.pending_verification = true
same_user_status _ _ = false

abbrev pub same_org_status : OrgStatus → OrgStatus → Bool
same_org_status OrgStatus.active OrgStatus.active = true
same_org_status OrgStatus.inactive OrgStatus.inactive = true
same_org_status OrgStatus.suspended OrgStatus.suspended = true
same_org_status OrgStatus.pending_approval OrgStatus.pending_approval = true
same_org_status _ _ = false

-- A filter that is not given keeps every row.
abbrev pub kept_by {ℓ} : {A : Type ℓ} → (A → Bool) → Option A → Bool
kept_by test none = true
kept_by test (some a) = test a

abbrev pub is_at_center : Option ℕ → ℕ → Bool
is_at_center none center = false
is_at_center (some c) center = c == center

-- A status that is none of the three keeps every row.
abbrev pub status_kept : Text → ℕ → Invitation → Bool
status_kept status now i =
    if text_eq status (codes "pending")
    then is_unused i && ltb now i.expires_at
    else if text_eq status (codes "used")
    then not (is_unused i)
    else if text_eq status (codes "expired")
    then is_unused i && leb i.expires_at now
    else true

unfoldable pub invitation_kept : Text → Option ℕ → ℕ → Invitation → Bool
invitation_kept status center now i =
    status_kept status now i && kept_by (is_at_center i.test_center_id) center

module _ (env : Env) where
  -- `buildFilter`.
  abbrev pub matches_person : Text → Option UserStatus → BasePerson → Bool
  matches_person search status p =
      kept_by (same_user_status p.status) status
      && (is_empty search
          || env.ilike p.first_name search
          || env.ilike p.last_name search
          || env.ilike p.email search)

  abbrev pub matches_org : Text → Option OrgStatus → BaseOrg → Bool
  matches_org search status o =
      kept_by (same_org_status o.status) status
      && (is_empty search || env.ilike o.name search || env.ilike o.email search)

  abbrev pub newest {ℓ} : {A : Type ℓ} → (A → ℕ) → (A → Bool) → ℤ → List A → List A
  newest created keep page rows =
      page_of page (sort (λ a b. leb (created b) (created a)) (keep_if keep rows))

  -- A failed count is a count of 0.
  abbrev pub counted_rows {ℓ} : {A : Type ℓ} → (Tables → List A) → (A → Bool) → M ℕ
  counted_rows rows keep = recover 0 (query env (λ t. length (keep_if keep (rows t))))

  abbrev pub listed {ℓ} :
      {A : Type ℓ} → (Tables → List A) → (A → ℕ) → (A → Bool) → ℤ → M (List A × ℕ)
  listed rows created keep page = do
    found ← query env (λ t. newest created keep page (rows t))
    total ← counted_rows rows keep
    pure (found, total)

  unfoldable pub list_candidates : Text → Text → ℤ → M (List Candidate × ℕ)
  unfolding user_status_filter
  list_candidates search status page = do
    wanted ← from_option (user_status_filter status) database
    listed (λ t. t.candidates) (λ (c : Candidate). c.person.audit.created_at)
        (λ c. matches_person search wanted c.person) page

  -- Every row of the page is scanned; one that cannot be ends the listing.
  unfoldable pub scan_experts : List Expert → M (Unit {0})
  scan_experts [] = pure tt
  scan_experts (e ∷ es) =
      guard (scans env e.birth_date && scans env e.gender) null_column >> scan_experts es

  unfoldable pub list_experts : Text → Text → ℤ → M (List Expert × ℕ)
  unfolding user_status_filter scan_experts
  list_experts search status page = do
    wanted ← from_option (user_status_filter status) database
    found ← query env (λ t.
        newest (λ (e : Expert). e.person.audit.created_at)
          (λ e. matches_person search wanted e.person) page t.experts)
    scan_experts found
    total ← counted_rows (λ t. t.experts) (λ e. matches_person search wanted e.person)
    pure (found, total)

  unfoldable pub list_admins : Text → Text → Option ℕ → ℤ → M (List Admin × ℕ)
  unfolding user_status_filter
  list_admins search status center page = do
    wanted ← from_option (user_status_filter status) database
    listed (λ t. t.admins) (λ (a : Admin). a.person.audit.created_at)
        (λ a. matches_person search wanted a.person && kept_by (λ c. a.test_center_id == c) center)
        page

  unfoldable pub list_institutes : Text → Text → ℤ → M (List BaseOrg × ℕ)
  unfolding org_status_filter
  list_institutes search status page = do
    wanted ← from_option (org_status_filter status) database
    listed (λ t. t.institutes) (λ (o : BaseOrg). o.audit.created_at) (matches_org search wanted)
        page

  unfoldable pub list_authorities : Text → Text → ℤ → M (List BaseOrg × ℕ)
  unfolding org_status_filter
  list_authorities search status page = do
    wanted ← from_option (org_status_filter status) database
    listed (λ t. t.transport_authorities) (λ (o : BaseOrg). o.audit.created_at)
        (matches_org search wanted) page

  unfoldable pub list_super_admins : Text → ℤ → M (List SuperAdmin × ℕ)
  list_super_admins search page =
      listed (λ t. t.super_admins) (λ (s : SuperAdmin). s.audit.created_at)
        (λ s. is_empty search || env.ilike s.name search) page

  -- Each statement has its own `NOW()`.
  unfoldable pub list_invitations : Text → Option ℕ → ℤ → M (List Invitation × ℕ)
  unfolding invitation_kept
  list_invitations status center page = do
    now ← time_now env
    found ← query env (λ t.
        newest (λ (i : Invitation). i.created_at) (invitation_kept status center now) page
          t.invitations)
    later ← time_now env
    total ← counted_rows (λ t. t.invitations) (invitation_kept status center later)
    pure (found, total)
