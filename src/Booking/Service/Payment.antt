-- ===== src/Booking/Service/Payment.antt =====
-- The payment lifecycle: `InitiatePayment`, `RetryPayment`, `HandleChapaTransaction` with what it
-- dispatches to, and `ListPayments`.
use adlts_core_engine.Prelude.{
  ℕ, ◌+◌, Bool, true, false, not, ◌&&◌, ◌||◌, List, [], ◌∷◌, ◌++◌, Option, none, some, Text, codes,
  is_empty, trim_space, trim_right, equal_fold, is_positive, int_eq, ◌==◌, ltb, leb, if◌then◌else◌,
}
use adlts_core_engine.Booking.Types.{
  BookingStatus, verified, scheduled, payment_pending, payment_failed, confirmed, is_status,
  PaymentStatus, AttemptStatus, Payment, AuthContext, booking_not_found, payment_not_found,
  forbidden, invalid_status_for_action, max_payment_attempts, already_processed, payment_provider,
  payment_verification_mismatch, testing_module, test_creation,
}
use adlts_core_engine.Booking.Requests.{InitiatePaymentRequest, validate_payment}
use adlts_core_engine.Booking.Chapa.{ChapaStatus, normalize_chapa_status, generate_tx_ref}
use adlts_core_engine.Booking.World.{
  World, Env, Result, ok, err, M, pure, fail, ◌>>=◌, ◌>>◌, guard, when, replace_error, or_error,
  or_undo, ignore, time_now, ticked, PaymentInitRequest, PaymentInitResult, PaymentVerifyResult,
  HttpOutcome, unreachable, response,
}
use adlts_core_engine.Booking.Repository.{
  set_status, set_payment_status, set_payment_amount_cents, set_payment_attempts, set_payment_ref,
  set_test_id, booking_by_id, update_booking_fields, create_payment, payment_by_provider_ref,
  list_payments_by_booking, update_payment_status, latest_payment_attempt_number,
  test_creation_details, candidate_contact_by_id,
}
use adlts_core_engine.Booking.Service.Lifecycle.{checked, may_access}

abbrev pub max_attempts : ℕ
max_attempts = 3

abbrev pub is_paid : PaymentStatus → Bool
is_paid PaymentStatus.paid = true
is_paid _ = false

abbrev pub is_success : AttemptStatus → Bool
is_success AttemptStatus.success = true
is_success _ = false

abbrev pub is_pending : AttemptStatus → Bool
is_pending AttemptStatus.pending = true
is_pending _ = false

-- The statuses from which a payment may be initiated.
abbrev pub may_pay : BookingStatus → Bool
may_pay s = is_status s verified || is_status s scheduled || is_status s payment_failed

pub record InitiatePaymentResponse : Type 0 where
  pub payment_id : ℕ
  pub checkout_url : Text
  pub tx_ref : Text

abbrev pub without_slash : Text → Text
without_slash = trim_right (λ c. c == b'/')

abbrev pub new_payment : ℕ → InitiatePaymentRequest → Text → ℕ → Payment
new_payment booking_id req tx_ref attempt = record {
  id = 0;
  booking_id = booking_id;
  amount_cents = req.amount_cents;
  currency = req.currency;
  status = AttemptStatus.pending;
  provider = codes "chapa";
  provider_ref = some tx_ref;
  attempt_number = attempt;
  created_at = 0;
  updated_at = 0;
}

-- What the verified transaction must agree on with the stored payment.
unfoldable pub matches_payment : Payment → Text → PaymentVerifyResult → Bool
matches_payment p tx_ref v =
    equal_fold v.tx_ref tx_ref
    && ((is_empty v.currency || equal_fold v.currency p.currency)
        && (not (is_positive v.amount_cents) || int_eq v.amount_cents p.amount_cents))

module _ (env : Env) where
  -- A call of the payment provider, which takes a tick; its errors become `payment_provider`.
  unfoldable pub provider_initiate : PaymentInitRequest → M PaymentInitResult
  provider_initiate req w =
      replace_error payment_provider (env.provider.initiate_payment w.tick req, ticked w)

  unfoldable pub provider_verify : Text → M PaymentVerifyResult
  provider_verify ref w =
      replace_error payment_provider (env.provider.verify_transaction w.tick ref, ticked w)

  unfoldable pub init_request :
      ℕ → InitiatePaymentRequest → Text → Text → Text → Text → Text → PaymentInitRequest
  init_request id req tx_ref email first_name last_name phone = record {
    tx_ref = tx_ref;
    amount_cents = req.amount_cents;
    currency = req.currency;
    email = email;
    first_name = first_name;
    last_name = last_name;
    phone = phone;
    callback_url =
        without_slash env.base_url
        ++ codes "/api/v1/bookings/"
        ++ env.uuid_string id
        ++ codes "/payments/callback";
    return_url =
        without_slash env.frontend_base_url
        ++ codes "/bookings/"
        ++ env.uuid_string id
        ++ codes "/payment/success";
  }

  -- The error path of the provider's call: both rows are marked as failed, if that succeeds.
  unfoldable pub mark_failed : ℕ → ℕ → ℕ → M (Unit {0})
  mark_failed payment_id id subject = do
    ignore (update_payment_status env payment_id AttemptStatus.failed)
    ignore (
        update_booking_fields env id
          (set_status payment_failed ∷ set_payment_status PaymentStatus.failed ∷ []) subject)

  unfoldable pub initiate_payment :
      AuthContext → ℕ → InitiatePaymentRequest → M InitiatePaymentResponse
  initiate_payment auth id request = do
    req ← checked (validate_payment request)
    b ← or_error booking_not_found (booking_by_id env id)
    guard (b.candidate_id == auth.subject_id) forbidden
    guard (not (is_paid b.payment_status)) already_processed
    guard (may_pay b.status) invalid_status_for_action
    last ← latest_payment_attempt_number env id
    guard (leb (last + 1) max_attempts) max_payment_attempts
    contact ← candidate_contact_by_id env auth.subject_id
    nanos ← time_now env
    let tx_ref = generate_tx_ref (env.uuid_string id) nanos
    payment ← create_payment env (new_payment id req tx_ref (last + 1))
    or_undo
        (update_booking_fields env id
          (set_status payment_pending
            ∷ set_payment_status PaymentStatus.pending
            ∷ set_payment_amount_cents req.amount_cents
            ∷ set_payment_attempts (last + 1)
            ∷ [])
          auth.subject_id)
        (ignore (update_payment_status env payment.id AttemptStatus.failed))
    result ←
        or_undo
          (provider_initiate (
            init_request id req tx_ref contact.email contact.first_name contact.last_name
              contact.phone))
          (mark_failed payment.id id auth.subject_id)
    pure (record {
      payment_id = payment.id;
      checkout_url = result.checkout_url;
      tx_ref = result.tx_ref;
    })

  -- The test id of the response is stored if it parses; a failure to store it is ignored.
  unfoldable pub store_test_id : ℕ → Option ℕ → M (Unit {0})
  store_test_id id none = pure tt
  store_test_id id (some test_id) =
      ignore (update_booking_fields env id (set_test_id test_id ∷ []) 0)

  abbrev pub parsed_test_id : Text → Option ℕ
  parsed_test_id body = if is_empty body then none else env.parse_uuid body

  unfoldable pub handle_response : ℕ → HttpOutcome → M (Unit {0})
  handle_response id unreachable = fail testing_module
  handle_response id (response code body) =
      if code == 409
      then pure tt
      else if code == 201
      then store_test_id id (parsed_test_id body)
      else fail testing_module

  unfoldable pub trigger_test_creation : ℕ → M (Unit {0})
  trigger_test_creation id =
      if is_empty (trim_space env.internal_api_key)
      then pure tt
      else (test_creation_details env id >>= λ details w.
          handle_response id (env.create_test w.tick details) (ticked w))

  -- `fmt.Errorf("booking.triggerTestCreation …: %w", err)`.
  abbrev pub wrap_creation : Result (Unit {0}) × World → Result (Unit {0}) × World
  wrap_creation (ok u, w) = (ok u, w)
  wrap_creation (err e, w) = (err (test_creation e), w)

  unfoldable pub confirm_payment : Payment → Text → M (Unit {0})
  confirm_payment p tx_ref = do
    when (not (is_success p.status)) (update_payment_status env p.id AttemptStatus.success)
    update_booking_fields env p.booking_id
        (set_status confirmed ∷ set_payment_status PaymentStatus.paid ∷ set_payment_ref tx_ref ∷ [])
        0
    λ w. wrap_creation (trigger_test_creation p.booking_id w)

  unfoldable pub fail_payment : Payment → M (Unit {0})
  fail_payment p = do
    update_payment_status env p.id AttemptStatus.failed
    update_booking_fields env p.booking_id
        (set_status payment_failed ∷ set_payment_status PaymentStatus.failed ∷ []) 0

  unfoldable pub keep_payment_pending : Payment → M (Unit {0})
  keep_payment_pending p = do
    when (not (is_pending p.status)) (update_payment_status env p.id AttemptStatus.pending)
    update_booking_fields env p.booking_id
        (set_status payment_pending ∷ set_payment_status PaymentStatus.pending ∷ []) 0

  unfoldable pub settle : Payment → Text → ChapaStatus → M (Unit {0})
  settle p tx_ref ChapaStatus.success = confirm_payment p tx_ref
  settle p tx_ref ChapaStatus.failed = fail_payment p
  settle p tx_ref ChapaStatus.pending = keep_payment_pending p
  settle p tx_ref (ChapaStatus.other s) = pure tt

  -- What a transaction whose payment is not yet a success goes through.
  unfoldable pub verify_and_settle : Payment → Text → M (Unit {0})
  verify_and_settle p tx_ref = do
    v ← provider_verify tx_ref
    guard (matches_payment p tx_ref v) payment_verification_mismatch
    settle p tx_ref (normalize_chapa_status v.status)

  unfoldable pub handle_chapa_transaction : ℕ → Text → M (Unit {0})
  handle_chapa_transaction booking_id ref = do
    let tx_ref = trim_space ref
    guard (not (is_empty tx_ref)) payment_not_found
    p ← or_error payment_not_found (payment_by_provider_ref env tx_ref)
    guard (p.booking_id == booking_id) payment_not_found
    if is_success p.status then confirm_payment p tx_ref else verify_and_settle p tx_ref

  unfoldable pub retry_payment :
      AuthContext → ℕ → InitiatePaymentRequest → M InitiatePaymentResponse
  retry_payment auth id request = do
    b ← or_error booking_not_found (booking_by_id env id)
    guard (b.candidate_id == auth.subject_id) forbidden
    guard (is_status b.status payment_failed) invalid_status_for_action
    guard (ltb b.payment_attempts max_attempts) max_payment_attempts
    update_booking_fields env id (set_status scheduled ∷ []) auth.subject_id
    initiate_payment auth id request

  unfoldable pub list_payments : AuthContext → ℕ → M (List Payment)
  list_payments auth id = do
    b ← or_error booking_not_found (booking_by_id env id)
    guard (may_access auth b.row) forbidden
    list_payments_by_booking env id
