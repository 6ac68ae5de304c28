-- ===== src/Booking/Types.antt =====
-- The entities of internal/domain/booking.go, the identities of internal/platform/security, and
-- the errors of internal/booking/dto.go. UUIDs and times are numbers.
use adlts_core_engine.Prelude.{ℕ, Bool, Option, Text, ℤ, ◌==◌}

pub data BookingStatus : Type 0 where
  drafted pending_verification verified rejected scheduled : BookingStatus
  payment_pending payment_failed confirmed archived cancelled : BookingStatus

-- The strings differ, so their places in the declaration tell them apart.
abbrev pub status_code : BookingStatus → ℕ
status_code drafted = 0
status_code pending_verification = 1
status_code verified = 2
status_code rejected = 3
status_code scheduled = 4
status_code payment_pending = 5
status_code payment_failed = 6
status_code confirmed = 7
status_code archived = 8
status_code cancelled = 9

abbrev pub is_status : BookingStatus → BookingStatus → Bool
is_status a b = status_code a == status_code b

-- The values that the code writes to bookings.payment_status.
pub data PaymentStatus : Type 0 where
  unpaid pending failed paid : PaymentStatus

-- The values that it writes to payments.status.
pub data AttemptStatus : Type 0 where
  pending success failed : AttemptStatus

-- The columns of a row of `bookings`.
pub record BookingRow : Type 0 where
  pub id : ℕ
  pub candidate_id : ℕ
  pub institute_id : ℕ
  pub test_id : Option ℕ
  pub slot_id : Option ℕ
  pub status : BookingStatus
  pub requires_verification : Bool
  pub verified_by : Option ℕ
  pub verified_at : Option ℕ
  pub rejection_reason : Option Text
  pub test_center_id : Option ℕ
  pub test_level_code : Text
  pub scheduled_at : Option ℕ
  pub payment_ref : Option Text
  pub payment_status : PaymentStatus
  pub payment_amount_cents : Option ℤ
  pub payment_attempts : ℕ
  pub archived_at : Option ℕ
  pub created_at : ℕ
  pub updated_at : ℕ
  pub created_by : ℕ
  pub updated_by : ℕ

-- `domain.Booking`: a row with what the query joins to it.
pub record Booking : Type 0 where
  pub row : BookingRow
  pub open row use *
  pub candidate_name : Option Text
  pub candidate_email : Option Text
  pub candidate_phone : Option Text
  pub candidate_fayida_id : Option Text
  pub institute_name : Option Text

pub record Slot : Type 0 where
  pub id : ℕ
  pub institute_id : ℕ
  pub test_center_id : Option ℕ
  pub test_id : Option ℕ
  pub starts_at : ℕ
  pub ends_at : ℕ
  pub capacity : ℕ
  pub booked_count : ℕ
  pub created_at : ℕ
  pub updated_at : ℕ

pub record Payment : Type 0 where
  pub id : ℕ
  pub booking_id : ℕ
  pub amount_cents : ℤ
  pub currency : Text
  pub status : AttemptStatus
  pub provider : Text
  pub provider_ref : Option Text
  pub attempt_number : ℕ
  pub created_at : ℕ
  pub updated_at : ℕ

-- The columns of `candidates` that this module reads.
pub record Candidate : Type 0 where
  pub id : ℕ
  pub first_name : Text
  pub middle_name : Text
  pub last_name : Text
  pub email : Text
  pub phone : Text
  pub fayida_id : Option Text
  pub status : Text

pub record Institute : Type 0 where
  pub id : ℕ
  pub name : Text

pub data EntityType : Type 0 where
  candidate expert admin super_admin institute transport_authority : EntityType

pub record AuthContext : Type 0 where
  pub subject_id : ℕ
  pub entity_type : EntityType
  pub email : Text
  pub test_center_id : Option ℕ

-- The sentinel errors, and one constructor for each kind of error that is built on the way.
pub data Error : Type 0 where
  missing_institute_id missing_slot_id missing_slot_times invalid_slot_times : Error
  invalid_verify_action invalid_amount invalid_currency : Error
  booking_not_found slot_not_found payment_not_found institute_not_found : Error
  candidate_not_found slot_full forbidden invalid_status_for_action : Error
  max_payment_attempts already_processed payment_provider : Error
  payment_verification_mismatch : Error
  database candidate_not_active test_center_not_set testing_module : Error
  test_creation : Error → Error
