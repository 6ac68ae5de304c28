-- ===== src/Booking/Handlers.antt =====
-- The handlers of internal/booking/handler.go: what a request is answered and what it leaves. A
-- request without an identity, a body that does not decode and an id that is no UUID are `none`; a
-- page is the number that `strconv.Atoi` reads, 0 where it reads none. A status that is asked for is
-- one of the enumeration.
use adlts_core_engine.Prelude.{
  ℕ, Bool, true, false, List, Option, none, some, Text, codes, is_empty, ℤ, pos, negsuc, leb,
  if◌then◌else◌,
}
use adlts_core_engine.Booking.Types.{
  BookingStatus, Booking, Slot, Payment, AuthContext, Error, missing_institute_id, missing_slot_id,
  missing_slot_times, invalid_slot_times, invalid_verify_action, invalid_amount, invalid_currency,
  booking_not_found, slot_not_found, payment_not_found, institute_not_found, candidate_not_found,
  slot_full, forbidden, invalid_status_for_action, max_payment_attempts, already_processed,
  payment_provider, payment_verification_mismatch, test_creation,
}
use adlts_core_engine.Booking.Requests.{
  CreateBookingRequest, VerifyBookingRequest, SlotRequest, InitiatePaymentRequest,
  CreateSlotRequest,
}
use adlts_core_engine.Booking.World.{World, Env, Result, ok, err}
use adlts_core_engine.Booking.Service.{
  InitiatePaymentResponse, create_booking_for, get_booking, list_bookings_for, verify_booking,
  schedule_booking, reschedule_booking, delete_booking, initiate_payment, retry_payment,
  list_payments, create_slot, list_slots, get_slot, handle_chapa_transaction,
}

pub data Reply {ℓ} (A : Type ℓ) : Type ℓ where
  success : ℕ → A → Reply A
  failure : ℕ → Text → Reply A

abbrev pub Handled {ℓ} : Type ℓ → Type ℓ
Handled A = World → Reply A × World

-- `errors.Is`, which looks into the one error that wraps another.
unfoldable pub is_provider_error : Error → Bool
is_provider_error payment_provider = true
is_provider_error (test_creation e) = is_provider_error e
is_provider_error _ = false

unfoldable pub is_mismatch : Error → Bool
is_mismatch payment_verification_mismatch = true
is_mismatch (test_creation e) = is_mismatch e
is_mismatch _ = false

abbrev pub bad_request {ℓ} : {A : Type ℓ} → Reply A
bad_request = failure 400 (codes "INVALID_REQUEST")

abbrev pub missing {ℓ} : {A : Type ℓ} → Reply A
missing = failure 404 (codes "NOT_FOUND")

-- The `default` of the `switch`.
abbrev pub other_error {ℓ} : {A : Type ℓ} → Error → Reply A
other_error e =
    if is_provider_error e
    then failure 502 (codes "PAYMENT_PROVIDER_ERROR")
    else if is_mismatch e
    then failure 422 (codes "PAYMENT_VERIFICATION_MISMATCH")
    else failure 500 (codes "SERVER_ERROR")

unfoldable pub handle_service_error {ℓ} : {A : Type ℓ} → Error → Reply A
unfolding is_provider_error is_mismatch
handle_service_error booking_not_found = missing
handle_service_error slot_not_found = missing
handle_service_error payment_not_found = missing
handle_service_error institute_not_found = missing
handle_service_error candidate_not_found = missing
handle_service_error forbidden = failure 403 (codes "FORBIDDEN")
handle_service_error already_processed = failure 409 (codes "ALREADY_PROCESSED")
handle_service_error invalid_status_for_action = bad_request
handle_service_error slot_full = bad_request
handle_service_error max_payment_attempts = bad_request
handle_service_error invalid_verify_action = bad_request
handle_service_error invalid_amount = bad_request
handle_service_error invalid_currency = bad_request
handle_service_error missing_institute_id = bad_request
handle_service_error missing_slot_id = bad_request
handle_service_error invalid_slot_times = bad_request
handle_service_error missing_slot_times = bad_request
handle_service_error e = other_error e

abbrev pub answer {ℓ} : {A : Type ℓ} → ℕ → Result A × World → Reply A × World
answer code (ok a, w) = (success code a, w)
answer code (err e, w) = (handle_service_error e, w)

abbrev pub authenticated {ℓ} :
    {A : Type ℓ} → Option AuthContext → (AuthContext → Handled A) → Handled A
authenticated none k w = (failure 401 (codes "UNAUTHORIZED"), w)
authenticated (some auth) k w = k auth w

abbrev pub with_id {ℓ} : {A : Type ℓ} → Option ℕ → (ℕ → Handled A) → Handled A
with_id none k w = (failure 400 (codes "INVALID_ID"), w)
with_id (some id) k w = k id w

abbrev pub decoded {ℓ κ} : {R : Type ℓ} {A : Type κ} → Option R → (R → Handled A) → Handled A
decoded none k w = (failure 400 (codes "INVALID_BODY"), w)
decoded (some r) k w = k r w

unfoldable pub page_param : ℤ → ℤ
page_param (pos n) = if leb n 0 then pos 1 else pos n
page_param (negsuc n) = pos 1

-- A request of the payment gateway: to the route of POST, with whether its signature is valid and
-- the two references of its body, or to that of GET, with those of its query.
pub data ChapaRequest : Type 0 where
  webhook : Bool → Option (Text × Text) → ChapaRequest
  callback : Text → Text → ChapaRequest

abbrev pub first_of : Text → Text → Text
first_of tx_ref trx_ref = if is_empty tx_ref then trx_ref else tx_ref

-- The webhook answers with 200 whatever became of the transaction.
abbrev pub acknowledged : Result (Unit {0}) × World → Reply Text × World
acknowledged (ok tt, w) = (success 200 (codes "processed"), w)
acknowledged (err e, w) = (success 200 (codes "received"), w)

abbrev pub processed : Result (Unit {0}) × World → Reply Text × World
processed (ok tt, w) = (success 200 (codes "processed"), w)
processed (err e, w) = (handle_service_error e, w)

module _ (env : Env) where
  unfoldable pub create_booking_request :
      Option AuthContext → Option CreateBookingRequest → Handled Booking
  create_booking_request identity body =
      authenticated identity
        λ auth. decoded body λ req w. answer 201 (create_booking_for env auth.subject_id req w)

  unfoldable pub get_booking_request : Option AuthContext → Option ℕ → Handled Booking
  get_booking_request identity path =
      authenticated identity λ auth. with_id path λ id w. answer 200 (get_booking env auth id w)

  unfoldable pub list_bookings_request :
      Option AuthContext → Option BookingStatus → ℤ → Handled (List Booking × ℕ)
  unfolding page_param
  list_bookings_request identity status page =
      authenticated identity
        λ auth w. answer 200 (list_bookings_for env auth status (page_param page) w)

  unfoldable pub verify_booking_request :
      Option AuthContext → Option ℕ → Option VerifyBookingRequest → Handled Booking
  verify_booking_request identity path body =
      authenticated identity λ auth.
        with_id path λ id. decoded body λ req w. answer 200 (verify_booking env auth id req w)

  unfoldable pub schedule_booking_request :
      Option AuthContext → Option ℕ → Option SlotRequest → Handled Booking
  schedule_booking_request identity path body = authenticated identity λ auth.
      with_id path λ id. decoded body λ req w. answer 200 (schedule_booking env auth id req w)

  unfoldable pub reschedule_booking_request :
      Option AuthContext → Option ℕ → Option SlotRequest → Handled Booking
  reschedule_booking_request identity path body = authenticated identity λ auth.
      with_id path λ id. decoded body λ req w. answer 200 (reschedule_booking env auth id req w)

  unfoldable pub delete_booking_request : Option AuthContext → Option ℕ → Handled (Unit {0})
  delete_booking_request identity path =
      authenticated identity λ auth. with_id path λ id w. answer 200 (delete_booking env auth id w)

  unfoldable pub initiate_payment_request :
      Option AuthContext
      → Option ℕ
      → Option InitiatePaymentRequest
      → Handled InitiatePaymentResponse
  initiate_payment_request identity path body = authenticated identity λ auth.
      with_id path λ id. decoded body λ req w. answer 201 (initiate_payment env auth id req w)

  unfoldable pub retry_payment_request :
      Option AuthContext
      → Option ℕ
      → Option InitiatePaymentRequest
      → Handled InitiatePaymentResponse
  retry_payment_request identity path body =
      authenticated identity λ auth.
        with_id path λ id. decoded body λ req w. answer 201 (retry_payment env auth id req w)

  unfoldable pub list_payments_request : Option AuthContext → Option ℕ → Handled (List Payment)
  list_payments_request identity path =
      authenticated identity λ auth. with_id path λ id w. answer 200 (list_payments env auth id w)

  unfoldable pub create_slot_request : Option AuthContext → Option CreateSlotRequest → Handled Slot
  create_slot_request identity body =
      authenticated identity λ auth. decoded body λ req w. answer 201 (create_slot env auth req w)

  unfoldable pub list_slots_request : Option ℕ → ℤ → Handled (List Slot × ℕ)
  unfolding page_param
  list_slots_request none page w = (failure 400 (codes "INVALID_INSTITUTE"), w)
  list_slots_request (some institute) page w =
      answer 200 (list_slots env institute (page_param page) w)

  unfoldable pub get_slot_request : Option ℕ → Handled Slot
  get_slot_request path = with_id path λ id w. answer 200 (get_slot env id w)

  unfoldable pub handle_chapa_webhook : Bool → Option (Text × Text) → ℕ → Handled Text
  handle_chapa_webhook valid body id w =
      if valid
      then decoded body
          (λ refs w'. acknowledged (handle_chapa_transaction env id (first_of refs.0 refs.1) w')) w
      else (failure 401 (codes "INVALID_SIGNATURE"), w)

  unfoldable pub handle_chapa_callback : Text → Text → ℕ → Handled Text
  handle_chapa_callback tx_ref trx_ref id w =
      if is_empty (first_of tx_ref trx_ref)
      then (failure 400 (codes "MISSING_TX_REF"), w)
      else processed (handle_chapa_transaction env id (first_of tx_ref trx_ref) w)

  -- The two routes that need no login.
  abbrev pub chapa_request : Option ℕ → ChapaRequest → Handled Text
  chapa_request path (webhook valid body) = with_id path (handle_chapa_webhook valid body)
  chapa_request path (callback tx_ref trx_ref) = with_id path (handle_chapa_callback tx_ref trx_ref)
