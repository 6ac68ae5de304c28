-- ===== src/Booking/Examples/Samples.antt =====
-- The rows, requests and environments of the examples.
use adlts_core_engine.Prelude.{
  ℕ, ◌+◌, ◌≡◌, refl, Bool, false, [], ◌∷◌, Option, none, some, Text, codes, text_eq, pos, ◌==◌,
  if◌then◌else◌,
}
use adlts_core_engine.Booking.Types.{
  BookingStatus, PaymentStatus, AttemptStatus, BookingRow, Slot, Payment, Candidate, Institute,
  EntityType, admin, AuthContext,
}
use adlts_core_engine.Booking.Requests.{VerifyBookingRequest, SlotRequest, InitiatePaymentRequest}
use adlts_core_engine.Booking.World.{World, Env, ok, PaymentVerifyResult, unreachable}
use adlts_core_engine.Booking.Service.{new_booking}

-- Booking 1 of candidate 5 at institute 6, in the given state.
abbrev pub booking_in : BookingStatus → PaymentStatus → Option ℕ → BookingRow
booking_in s p slot = record (new_booking 5 6) {
  id = 1;
  status = s;
  payment_status = p;
  slot_id = slot;
}

-- Slot 7 has one seat left of two, slot 8 one of one.
abbrev pub slot_7 : Slot
slot_7 = record {
  id = 7;
  institute_id = 6;
  test_center_id = some 9;
  test_id = none;
  starts_at = 100;
  ends_at = 200;
  capacity = 2;
  booked_count = 1;
  created_at = 0;
  updated_at = 0;
}

abbrev pub slot_8 : Slot
slot_8 = record slot_7 { id = 8; capacity = 1; booked_count = 0 }

-- Payment 30, whose attempt failed or is pending, and payment 31, which succeeded.
abbrev pub payment_30 : Payment
payment_30 = record {
  id = 30;
  booking_id = 1;
  amount_cents = pos 5000;
  currency = codes "ETB";
  status = AttemptStatus.pending;
  provider = codes "chapa";
  provider_ref = some (codes "tx30");
  attempt_number = 1;
  created_at = 10;
  updated_at = 10;
}

abbrev pub payment_31 : Payment
payment_31 = record payment_30 {
  id = 31;
  status = AttemptStatus.success;
  provider_ref = some (codes "tx31");
  attempt_number = 2;
  created_at = 20;
}

abbrev pub candidate_5 : Candidate
candidate_5 = record {
  id = 5;
  first_name = codes "Abel";
  middle_name = [];
  last_name = codes "Tesfaye";
  email = codes "abel@test.et";
  phone = codes "0911223344";
  fayida_id = none;
  status = codes "active";
}

abbrev pub institute_6 : Institute
institute_6 = record { id = 6; name = codes "Driving School" }

abbrev pub world_of : BookingRow → World
world_of b = record {
  tables = record {
    bookings = b ∷ [];
    slots = slot_7 ∷ slot_8 ∷ [];
    payments = payment_30 ∷ payment_31 ∷ [];
    candidates = candidate_5 ∷ [];
    institutes = institute_6 ∷ [];
  };
  tick = 0;
}

-- Two ids parse; the gateway reports the given status of every transaction.
abbrev parse : Text → Option ℕ
parse s = if text_eq s (codes "7") then some 7 else if text_eq s (codes "8") then some 8 else none

abbrev pub reported : Text → Text → PaymentVerifyResult
reported status ref = record {
  tx_ref = ref;
  status = status;
  amount_cents = pos 5000;
  currency = codes "ETB";
}

abbrev pub env_of : (ℕ → Bool) → Text → Env
env_of fails status = record {
  query_fails = fails;
  now = λ n. 1000 + n;
  new_uuid = λ n. 5000 + n;
  parse_uuid = parse;
  uuid_string = λ n. codes "00000000-0000-0000-0000-000000000001";
  provider = record {
    initiate_payment = λ n r. ok (record { checkout_url = codes "https://pay"; tx_ref = r.tx_ref });
    verify_transaction = λ n ref. ok (reported status ref);
  };
  create_test = λ n d. unreachable;
  base_url = codes "http://localhost/";
  frontend_base_url = codes "http://front";
  internal_api_key = codes " ";
}

abbrev pub calm : Env
calm = env_of (λ _. false) (codes "failed")

abbrev pub calm_reliable : (n : ℕ) → calm.query_fails n ≡ false
calm_reliable n = refl

-- The fourth query fails.
abbrev pub fourth_fails : Env
fourth_fails = env_of (λ n. n == 3) (codes "failed")

abbrev pub person : ℕ → EntityType → AuthContext
person id e = record { subject_id = id; entity_type = e; email = []; test_center_id = none }

abbrev pub boss : AuthContext
boss = person 2 admin

abbrev pub ask_slot : Text → SlotRequest
ask_slot s = record { slot_id = s }

abbrev pub approval : VerifyBookingRequest
approval = record { action = []; status = codes "Approved"; rejection_reason = [] }

abbrev pub pay_request : InitiatePaymentRequest
pay_request = record { amount_cents = pos 5000; currency = [] }

abbrev pub bad_request : InitiatePaymentRequest
bad_request = record { amount_cents = pos 0; currency = [] }
