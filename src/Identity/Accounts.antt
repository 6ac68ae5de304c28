-- ===== src/Identity/Accounts.antt =====
-- The entities of internal/domain: person.go, org.go, superadmin.go, invitation.go, shared.go and
-- the statuses of enums.go, without the Amharic names, which no operation here writes. A time or an
-- id of nothing is 0; where a column may be NULL the value is an option, and the zero value of Go
-- stands for NULL there.
use adlts_core_engine.Prelude.{ℕ, Option, Text}

pub data UserStatus : Type 0 where
  active inactive suspended pending_verification : UserStatus

pub data OrgStatus : Type 0 where
  active inactive suspended pending_approval : OrgStatus

pub record Audit : Type 0 where
  pub created_at : ℕ
  pub updated_at : ℕ
  pub created_by : ℕ
  pub updated_by : ℕ

pub record Address : Type 0 where
  pub street : Text
  pub city : Text
  pub region : Text
  pub country : Text

pub record BasePerson : Type 0 where
  pub id : ℕ
  pub first_name : Text
  pub middle_name : Text
  pub last_name : Text
  pub email : Text
  pub password_hash : Text
  pub status : UserStatus
  pub audit : Audit

pub record Candidate : Type 0 where
  pub person : BasePerson
  pub phone : Text
  pub fayida_id : Text
  pub birth_date : ℕ
  pub gender : Text
  pub address : Address
  pub photo_url : Text

pub record Expert : Type 0 where
  pub person : BasePerson
  pub phone : Text
  pub fayida_id : Text
  pub employee_id : Text
  pub birth_date : Option ℕ
  pub gender : Option Text
  pub photo_url : Text

pub record Admin : Type 0 where
  pub person : BasePerson
  pub test_center_id : ℕ

pub record SuperAdmin : Type 0 where
  pub id : ℕ
  pub name : Text
  pub email : Text
  pub password_hash : Text
  pub audit : Audit

pub record BaseOrg : Type 0 where
  pub id : ℕ
  pub name : Text
  pub email : Text
  pub password_hash : Text
  pub phone : Text
  pub address : Address
  pub logo_url : Text
  pub status : OrgStatus
  pub audit : Audit

pub record Invitation : Type 0 where
  pub id : ℕ
  pub token : Text
  pub email : Text
  pub entity_type : Text
  pub test_center_id : Option ℕ
  pub expires_at : ℕ
  pub used_at : Option ℕ
  pub created_by : ℕ
  pub created_at : ℕ

-- The rows of `otp_codes` and `password_reset_tokens`.
pub record OtpCode : Type 0 where
  pub email : Text
  pub code : Text
  pub expires_at : ℕ
  pub attempts : ℕ
  pub created_at : ℕ

pub record ResetToken : Type 0 where
  pub email : Text
  pub token : Text
  pub expires_at : ℕ
  pub created_at : ℕ
