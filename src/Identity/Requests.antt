-- ===== src/Identity/Requests.antt =====
-- The requests of internal/identity/dto.go, their normalization, and the validation of
-- `RegisterCandidateRequest` in service.go.
use adlts_core_engine.Prelude.{
  ℕ, Bool, not, ◌&&◌, ◌||◌, Option, Text, codes, text_eq, is_empty, byte_length, ltb, ◌==◌,
  if◌then◌else◌,
}
use adlts_core_engine.Program.{Outcome, ok, err}
use adlts_core_engine.Identity.World.{
  Error, password_too_short, names_required, email_required, fayida_id_required,
  birth_date_required, gender_invalid,
}

pub record RegisterCandidateRequest : Type 0 where
  pub first_name : Text
  pub middle_name : Text
  pub last_name : Text
  pub email : Text
  pub password : Text
  pub phone : Text
  pub fayida_id : Text
  pub fayda_id : Text
  pub birth_date : ℕ
  pub gender : Text

pub record VerifyOtpRequest : Type 0 where
  pub email : Text
  pub code : Text

pub record LoginRequest : Type 0 where
  pub email : Text
  pub password : Text

pub record LoginResponse : Type 0 where
  pub access_token : Text
  pub refresh_token : Text
  pub entity_type : Text

pub record ChangePasswordRequest : Type 0 where
  pub current_password : Text
  pub new_password : Text

pub record AcceptInvitationRequest : Type 0 where
  pub token : Text
  pub password : Text
  pub first_name : Text
  pub middle_name : Text
  pub last_name : Text
  pub name : Text
  pub phone : Text
  pub fayida_id : Text
  pub fayda_id : Text
  pub employee_id : Text

pub record CreateInvitationRequest : Type 0 where
  pub email : Text
  pub entity_type : Text
  pub test_center_id : Option ℕ

-- The id under its old spelling counts where the new one is missing.
abbrev pub fayida_or : Text → Text → Text
fayida_or fayida_id fayda_id =
    if is_empty fayida_id && not (is_empty fayda_id) then fayda_id else fayida_id

unfoldable pub normalize_candidate : RegisterCandidateRequest → RegisterCandidateRequest
normalize_candidate r = record r { fayida_id = fayida_or r.fayida_id r.fayda_id }

unfoldable pub normalize_invitation : AcceptInvitationRequest → AcceptInvitationRequest
normalize_invitation r = record r { fayida_id = fayida_or r.fayida_id r.fayda_id }

-- `len(password) < 8`.
unfoldable pub is_short : Text → Bool
is_short password = ltb (byte_length password) 8

unfoldable pub validate : RegisterCandidateRequest → Outcome Error (Unit {0})
unfolding is_short
validate r =
    if is_empty r.first_name || is_empty r.last_name
    then err names_required
    else if is_empty r.email
    then err email_required
    else if is_short r.password
    then err password_too_short
    else if is_empty r.fayida_id
    then err fayida_id_required
    else if r.birth_date == 0
    then err birth_date_required
    else if not (text_eq r.gender (codes "male")) && not (text_eq r.gender (codes "female"))
    then err gender_invalid
    else ok tt
