-- ===== src/Booking/Settlement.antt =====
-- What a transaction that the gateway reports does to a payment and to its booking.
use adlts_core_engine.Prelude.{
  ℕ, suc, ◌≡◌, ◌≢◌, refl, true, false, Option, some, Text, is_empty, trim_space, ==_iff, eq_refl,
  find_by, find_by-update_by_ne, find_by-update_by_self, ltb,
}
use adlts_core_engine.Booking.Types.{
  BookingRow, Payment, confirmed, payment_failed, PaymentStatus, AttemptStatus, AuthContext,
  scheduled, Error,
}
use adlts_core_engine.Booking.Requests.{InitiatePaymentRequest, validate_payment}
use adlts_core_engine.Booking.Chapa.{ChapaStatus, normalize_chapa_status}
use adlts_core_engine.Booking.World.{Tables, World, Env, ok, err, ticked, PaymentVerifyResult}
use adlts_core_engine.Booking.Repository.{booking_row, joined, latest_by_ref}
use adlts_core_engine.Booking.Service.{
  max_attempts, is_success, matches_payment, provider_verify, trigger_test_creation,
  confirm_payment, fail_payment, settle, verify_and_settle, handle_chapa_transaction, retry_payment,
  initiate_payment,
}
use adlts_core_engine.Booking.Reliable.{
  booking_by_id-found, update_booking_fields-done, update_payment_status-done,
  payment_by_provider_ref-found,
}

abbrev pub payment_row : ℕ → Tables → Option Payment
payment_row id t = find_by (λ (p : Payment). p.id) id t.payments

-- The row of a booking whose payment failed.
abbrev pub unpaid_row : ℕ → BookingRow → BookingRow
unpaid_row now b = record b {
  status = payment_failed;
  payment_status = PaymentStatus.failed;
  updated_at = now;
  updated_by = 0;
}

-- The gateway says, at the tick of the call, that the transaction of the payment has this status,
-- and what it says agrees with the payment.
pub record Reports (env : Env) (tick : ℕ) (ref : Text) (p : Payment) (status : ChapaStatus)
    : Type 0 where
  pub verified : PaymentVerifyResult
  pub answered : env.provider.verify_transaction tick ref ≡ ok verified
  pub agrees : matches_payment p ref verified ≡ true
  pub reported : normalize_chapa_status verified.status ≡ status

module _ (env : Env) (reliable : (n : ℕ) → env.query_fails n ≡ false) (w : World) where
  -- A transaction of a known payment that is not yet a success is settled as the gateway reports.
  handle_chapa_transaction-settles :
      (id : ℕ) (ref : Text) (p : Payment) (status : ChapaStatus)
      → is_empty (trim_space ref) ≡ false
      → latest_by_ref (trim_space ref) w.payments ≡ some p
      → p.booking_id ≡ id
      → is_success p.status ≡ false
      → Reports env (suc w.tick) (trim_space ref) p status
      → handle_chapa_transaction env id ref w
        ≡ settle env p (trim_space ref) status (ticked (ticked w))
  unfolding handle_chapa_transaction verify_and_settle provider_verify
  handle_chapa_transaction-settles id ref p status given found own open_ r = simp (
    given,
    payment_by_provider_ref-found env reliable w (trim_space ref) found,
    (==_iff p.booking_id id).1 own,
    open_,
    r.answered,
    r.agrees,
    r.reported,
  )

  -- Where no query fails, the failure of one attempt undoes the payment by another: a booking that
  -- is paid by a successful payment is left as failed, while that payment is still a success.
  handle_chapa_transaction-demotes :
      (id : ℕ) (ref : Text) (p q : Payment) (b : BookingRow)
      → is_empty (trim_space ref) ≡ false
      → latest_by_ref (trim_space ref) w.payments ≡ some p
      → p.booking_id ≡ id
      → is_success p.status ≡ false
      → Reports env (suc w.tick) (trim_space ref) p ChapaStatus.failed
      → payment_row q.id w.tables ≡ some q
      → q.id ≢ p.id
      → q.booking_id ≡ id
      → q.status ≡ AttemptStatus.success
      → booking_row id w.tables ≡ some b
      → b.payment_status ≡ PaymentStatus.paid
      → let t = (handle_chapa_transaction env id ref w).1.tables in
        (booking_row id t ≡ some (unpaid_row (env.now (suc (suc (suc (suc w.tick))))) b))
        × (payment_row q.id t ≡ some q)
  unfolding settle fail_payment
  handle_chapa_transaction-demotes id ref p q b given found own open_ r other ne _ _ row _ =
      rw (handle_chapa_transaction-settles id ref p ChapaStatus.failed given found own open_ r) (
        simp (update_payment_status-done env reliable, update_booking_fields-done env reliable, own)
          (
            find_by-update_by_self (λ (r : BookingRow). r.id) id _ w.bookings (λ _. refl) row,
            find_by-update_by_ne (λ (r : Payment). r.id) q.id p.id _ w.payments (λ _. refl) ne
                other,
          ))

  -- Where no query fails and no testing module is configured, the transaction of a successful
  -- payment confirms its booking and marks it as paid, whatever has become of the booking since.
  handle_chapa_transaction-revives :
      (id : ℕ) (ref : Text) (p : Payment) (b : BookingRow)
      → is_empty (trim_space env.internal_api_key) ≡ true
      → is_empty (trim_space ref) ≡ false
      → latest_by_ref (trim_space ref) w.payments ≡ some p
      → p.booking_id ≡ id
      → p.status ≡ AttemptStatus.success
      → booking_row id w.tables ≡ some b
      → let r = handle_chapa_transaction env id ref w in
        (r.0 ≡ ok tt)
        × (booking_row id r.1.tables
            ≡ some (record b {
              status = confirmed;
              payment_status = PaymentStatus.paid;
              payment_ref = some (trim_space ref);
              updated_at = env.now (suc w.tick);
              updated_by = 0;
            }))
        × (r.1.payments ≡ w.payments)
  unfolding handle_chapa_transaction confirm_payment trigger_test_creation
  handle_chapa_transaction-revives id ref p b alone given found own paid row =
      simp
        (
          given,
          payment_by_provider_ref-found env reliable w (trim_space ref) found,
          eq_refl id,
          paid,
          update_booking_fields-done env reliable,
          own,
          alone,
        )
        (
          refl,
          find_by-update_by_self (λ (r : BookingRow). r.id) id _ w.bookings (λ _. refl) row,
          refl,
        )

  -- Where no query fails, retrying a failed payment with a request that is not valid fails, but
  -- has by then made the booking a scheduled one.
  retry_payment-invalid :
      (auth : AuthContext) (id : ℕ) (req : InitiatePaymentRequest) (b : BookingRow) {e : Error}
      → booking_row id w.tables ≡ some b
      → b.candidate_id ≡ auth.subject_id
      → b.status ≡ payment_failed
      → ltb b.payment_attempts max_attempts ≡ true
      → validate_payment req ≡ err e
      → let r = retry_payment env auth id req w in
        (r.0 ≡ err e)
        × (booking_row id r.1.tables
            ≡ some (record b {
              status = scheduled;
              updated_at = env.now (suc w.tick);
              updated_by = auth.subject_id;
            }))
  unfolding retry_payment initiate_payment joined
  retry_payment-invalid auth id req b row own was few invalid =
      simp
        (
          booking_by_id-found env reliable w id row,
          (==_iff b.candidate_id auth.subject_id).1 own,
          was,
          few,
          update_booking_fields-done env reliable,
          invalid,
        )
        (refl, find_by-update_by_self (λ (r : BookingRow). r.id) id _ w.bookings (λ _. refl) row)
