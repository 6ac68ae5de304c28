-- ===== src/Identity/Handlers.antt =====
-- The handlers of internal/identity/handler.go: what a request is answered and what it leaves. A body
-- that does not decode, and an id in the path that is no UUID, are `none`.
pub mod Auth
pub mod Invites
pub mod Persons
pub mod Organizations
pub mod Root
pub mod Self
pub mod Hidden
pub mod Lists
use adlts_core_engine.Prelude.{
  ℕ, ◌<◌, Bool, List, [], ◌∷◌, ◌++◌, Option, none, some, Text, codes, text_eq, if◌then◌else◌,
}
use adlts_core_engine.Program.{State, Outcome, ok, err}
use adlts_core_engine.Identity.Accounts.{UserStatus, OrgStatus, Address}
use adlts_core_engine.Identity.World.{Tables, Error, Env, M}
use adlts_core_engine.Identity.Repository.Profiles.{
  NameField, set_first_name, set_middle_name, set_last_name, PersonField, set_name_field, set_phone,
  set_photo_url, OrgField, set_name, set_org_phone, set_logo_url, set_street, set_city, set_region,
  set_country,
}

-- `httpx.Success` and `httpx.Failure`: a status with a payload, or with a code.
pub data Reply {ℓ} (A : Type ℓ) : Type ℓ where
  success : ℕ → A → Reply A
  failure : ℕ → Text → Reply A

abbrev pub Handled {ℓ} : Type ℓ → Type ℓ
Handled A = State Tables → Reply A × State Tables

-- The answer to a call of the service, by what it returned.
abbrev pub answer {ℓ} :
    {A : Type ℓ} → ℕ → (Error → Reply A) → Outcome Error A × State Tables → Reply A × State Tables
answer code refuse (ok a, w) = (success code a, w)
answer code refuse (err e, w) = (refuse e, w)

abbrev pub malformed {ℓ} : {A : Type ℓ} → Reply A
malformed = failure 400 (codes "INVALID_BODY")

-- `DecodeJSON`.
abbrev pub decoded {ℓ κ} : {R : Type ℓ} {A : Type κ} → Option R → (R → Handled A) → Handled A
decoded none k w = (malformed, w)
decoded (some r) k w = k r w

-- `parseID`.
abbrev pub with_id {ℓ} : {A : Type ℓ} → Option ℕ → (ℕ → Handled A) → Handled A
with_id none k w = (failure 400 (codes "INVALID_ID"), w)
with_id (some id) k w = k id w

abbrev pub not_there {ℓ} : {A : Type ℓ} → Reply A
not_there = failure 404 (codes "NOT_FOUND")

-- A row that was asked for; an error of the query counts as no row.
abbrev pub shown {ℓ} :
    {A : Type ℓ} → Outcome Error (Option A) × State Tables → Reply A × State Tables
shown (ok (some a), w) = (success 200 a, w)
shown (ok none, w) = (not_there, w)
shown (err e, w) = (not_there, w)

-- A write, and the code of its failure.
abbrev pub written {ℓ} :
    {A : Type ℓ} → Text → Outcome Error A × State Tables → Reply A × State Tables
written code = answer 200 (λ _. failure 500 code)

abbrev pub update_failed : Text
update_failed = codes "UPDATE_FAILED"

abbrev pub delete_failed : Text
delete_failed = codes "DELETE_FAILED"

unfoldable pub parse_user_status : Text → Option UserStatus
parse_user_status s =
    if text_eq s (codes "active")
    then some UserStatus.active
    else if text_eq s (codes "inactive")
    then some UserStatus.inactive
    else if text_eq s (codes "suspended")
    then some UserStatus.suspended
    else none

unfoldable pub parse_org_status : Text → Option OrgStatus
parse_org_status s =
    if text_eq s (codes "active")
    then some OrgStatus.active
    else if text_eq s (codes "inactive")
    then some OrgStatus.inactive
    else if text_eq s (codes "suspended")
    then some OrgStatus.suspended
    else if text_eq s (codes "pending_approval")
    then some OrgStatus.pending_approval
    else none

-- The bodies of the updates: what is missing stays as it is.
pub record UpdateNameRequest : Type 0 where
  pub first_name : Option Text
  pub middle_name : Option Text
  pub last_name : Option Text

pub record UpdatePersonRequest : Type 0 where
  pub names : UpdateNameRequest
  pub phone : Option Text
  pub photo_url : Option Text

pub record UpdateInstituteRequest : Type 0 where
  pub name : Option Text
  pub phone : Option Text
  pub logo_url : Option Text
  pub address : Option Address

pub record UpdateAuthorityRequest : Type 0 where
  pub name : Option Text
  pub phone : Option Text
  pub address : Option Address

abbrev pub given {ℓ κ} : {A : Type ℓ} {F : Type κ} → (A → F) → Option A → List F
given set none = []
given set (some a) = set a ∷ []

unfoldable pub admin_self_fields : UpdateNameRequest → List NameField
admin_self_fields r =
    given set_first_name r.first_name
    ++ (given set_middle_name r.middle_name ++ given set_last_name r.last_name)

abbrev pub name_fields : UpdateNameRequest → List PersonField
name_fields r =
    given (λ v. set_name_field (set_first_name v)) r.first_name
    ++ (given (λ v. set_name_field (set_middle_name v)) r.middle_name
        ++ given (λ v. set_name_field (set_last_name v)) r.last_name)

unfoldable pub candidate_self_fields : UpdatePersonRequest → List PersonField
candidate_self_fields r =
    name_fields r.names ++ (given set_phone r.phone ++ given set_photo_url r.photo_url)

unfoldable pub expert_self_fields : UpdatePersonRequest → List PersonField
expert_self_fields r =
    name_fields r.names ++ (given set_phone r.phone ++ given set_photo_url r.photo_url)

abbrev pub address_fields : Option Address → List OrgField
address_fields none = []
address_fields (some a) =
    set_street a.street ∷ set_city a.city ∷ set_region a.region ∷ set_country a.country ∷ []

unfoldable pub institute_self_fields : UpdateInstituteRequest → List OrgField
institute_self_fields r =
    given set_name r.name
    ++ (given set_org_phone r.phone ++ (given set_logo_url r.logo_url ++ address_fields r.address))

unfoldable pub authority_self_fields : UpdateAuthorityRequest → List OrgField
authority_self_fields r =
    given set_name r.name ++ (given set_org_phone r.phone ++ address_fields r.address)
