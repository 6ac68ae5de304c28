-- ===== src/Booking/Invariant/Payment.antt =====
-- The operations of the payment lifecycle keep the tables sound.
use adlts_core_engine.Prelude.{
  ℕ, ◌+◌, ◌≤◌, ◌≡◌, refl, sym, ap, subst, true, not, [], ◌∷◌, Option, none, some, Text, arith, ltb,
  leb, is_empty, trim_space, ◌==◌,
}
use adlts_core_engine.Booking.Types.{
  AuthContext, AttemptStatus, Payment, booking_not_found, payment_not_found, forbidden,
  invalid_status_for_action, max_payment_attempts, already_processed, payment_provider,
  payment_verification_mismatch, testing_module, payment_failed, payment_pending, confirmed,
  scheduled, is_status, PaymentStatus,
}
use adlts_core_engine.Booking.Requests.{InitiatePaymentRequest, validate_payment}
use adlts_core_engine.Booking.Chapa.{ChapaStatus, generate_tx_ref, normalize_chapa_status}
use adlts_core_engine.Booking.World.{
  Tables, Env, World, ticked, Result, ok, err, HttpOutcome, unreachable, response,
  PaymentInitRequest, replace_error,
}
use adlts_core_engine.Booking.Repository.{
  booking_by_id, set_status, set_payment_status, set_payment_amount_cents, set_payment_attempts,
  set_payment_ref, set_test_id,
}
use adlts_core_engine.Booking.Service.{
  max_attempts, is_paid, is_success, is_pending, may_pay, new_payment, matches_payment,
  provider_initiate, provider_verify, mark_failed, initiate_payment, store_test_id, parsed_test_id,
  handle_response, trigger_test_creation, wrap_creation, confirm_payment, fail_payment,
  keep_payment_pending, settle, verify_and_settle, handle_chapa_transaction, retry_payment,
}
use adlts_core_engine.Booking.Triple.{
  Ends, bind_t, pure_t, fail_t, drop_t, assume_t, if_t, or_error_t, or_undo_t, ignore_t, guard_t,
  checked_t, time_now_t, when_t,
}
use adlts_core_engine.Booking.Reads.{
  booking_by_id_t, latest_payment_attempt_number_t, payment_by_provider_ref_t,
  candidate_contact_by_id_t, test_creation_details_t,
}
use adlts_core_engine.Booking.Invariant.WellFormed.{Sound}
use adlts_core_engine.Booking.Invariant.Statements.{
  Keeps, update_booking_fields_t, create_payment_t, update_payment_status_t,
}

same : (t : Tables) → Sound t → Sound t
same t s = s

le_of_leb : (a b : ℕ) → leb a b ≡ true → a ≤ b
le_of_leb a b h = ground arith

-- A call of the provider leaves the tables alone.
answer_t :
    {A : Type 0} (r : ℕ → Result A) (next : World → World)
    → ((w : World) → (next w).tables ≡ w.tables)
    → Keeps (λ w. replace_error payment_provider (r w.tick, next w))
answer_t r next quiet = record { apply = λ w s. go (r w.tick) (next w) (quiet w) s }
  where
    go :
        {A : Type 0} {t : Tables} (o : Result A) (v : World)
        → v.tables ≡ t
        → Sound t
        → Ends Sound (λ (_ : A). Sound) (replace_error payment_provider (o, v))
    go (ok a) v e s = subst Sound (sym e) s
    go (err x) v e s = subst Sound (sym e) s

module _ (env : Env) where
  booking_t : (id : ℕ) → Keeps (booking_by_id env id)
  booking_t id = drop_t (booking_by_id_t same env id)

  mark_failed_t : (payment id subject : ℕ) → Keeps (mark_failed env payment id subject)
  unfolding mark_failed
  mark_failed_t payment id subject =
      bind_t (ignore_t (update_payment_status_t env payment AttemptStatus.failed)) λ _. ignore_t (
        update_booking_fields_t env same id
          (set_status payment_failed ∷ set_payment_status PaymentStatus.failed ∷ []) subject
          (λ _ _. (tt, (tt, tt))))

  provider_initiate_t : (req : PaymentInitRequest) → Keeps (provider_initiate env req)
  unfolding provider_initiate
  provider_initiate_t req = answer_t (λ tick. env.provider.initiate_payment tick req) _ (λ w. refl)

  provider_verify_t : (ref : Text) → Keeps (provider_verify env ref)
  unfolding provider_verify
  provider_verify_t ref = answer_t (λ tick. env.provider.verify_transaction tick ref) _ (λ w. refl)

  pub initiate_payment_t :
      (auth : AuthContext) (id : ℕ) (req : InitiatePaymentRequest)
      → Keeps (initiate_payment env auth id req)
  unfolding initiate_payment
  initiate_payment_t auth id request =
      bind_t (drop_t (checked_t same (validate_payment request))) λ req.
        bind_t (or_error_t booking_not_found (booking_t id)) λ b.
          bind_t (drop_t (guard_t same (b.candidate_id == auth.subject_id) forbidden)) λ _.
            bind_t (drop_t (guard_t same (not (is_paid b.payment_status)) already_processed)) λ _.
              bind_t (drop_t (guard_t same (may_pay b.status) invalid_status_for_action)) λ _.
                bind_t (latest_payment_attempt_number_t same env id) λ last.
                  bind_t (guard_t (λ t h. h.0) (leb (last + 1) max_attempts) max_payment_attempts)
                    λ _. bind_t (candidate_contact_by_id_t (λ t h. h.0.0) env auth.subject_id) λ c.
                      bind_t (time_now_t env) λ nanos.
                        assume_t (λ t h. le_of_leb (last + 1) max_attempts h.1)
                          λ few.
                            let ref = generate_tx_ref (env.uuid_string id) nanos in
                            bind_t
                              (create_payment_t env (λ t h. h.0.0)
                                (new_payment id req ref (last + 1)) (λ t h. ap (λ n. n + 1) h.0.1)
                                (λ t h. few))
                              λ p.
                                bind_t
                                  (or_undo_t
                                    (update_booking_fields_t env same id
                                      (set_status payment_pending
                                        ∷ set_payment_status PaymentStatus.pending
                                        ∷ set_payment_amount_cents req.amount_cents
                                        ∷ set_payment_attempts (last + 1)
                                        ∷ [])
                                      auth.subject_id (λ _ _. (tt, (tt, (tt, (few, tt))))))
                                    (ignore_t
                                      (update_payment_status_t env p.id AttemptStatus.failed)))
                                  λ _.
                                    bind_t
                                      (or_undo_t (provider_initiate_t _)
                                        (mark_failed_t p.id id auth.subject_id))
                                      λ result. pure_t _ same

  store_test_id_t : (id : ℕ) (test : Option ℕ) → Keeps (store_test_id env id test)
  unfolding store_test_id
  store_test_id_t id none = pure_t tt same
  store_test_id_t id (some test) =
      ignore_t (update_booking_fields_t env same id (set_test_id test ∷ []) 0 (λ _ _. (tt, tt)))

  handle_response_t : (id : ℕ) (r : HttpOutcome) → Keeps (handle_response env id r)
  unfolding handle_response
  handle_response_t id unreachable = fail_t testing_module same
  handle_response_t id (response code body) = if_t (code == 409) (pure_t tt same) (
      if_t (code == 201) (store_test_id_t id (parsed_test_id env body))
        (fail_t testing_module same))

  trigger_test_creation_t : (id : ℕ) → Keeps (trigger_test_creation env id)
  unfolding trigger_test_creation
  trigger_test_creation_t id = if_t (is_empty (trim_space env.internal_api_key)) (pure_t tt same) (
      bind_t (test_creation_details_t same env id) λ details. record {
        apply = λ w s. (handle_response_t id (env.create_test w.tick details)).apply (ticked w) s;
      })

  wrapped :
      (r : Result (Unit {0}) × World)
      → Ends Sound (λ _. Sound) r
      → Ends Sound (λ _. Sound) (wrap_creation env r)
  wrapped (ok u, w) s = s
  wrapped (err e, w) s = s

  confirm_payment_t : (p : Payment) (ref : Text) → Keeps (confirm_payment env p ref)
  unfolding confirm_payment
  confirm_payment_t p ref =
      bind_t
        (when_t (not (is_success p.status))
          (update_payment_status_t env p.id AttemptStatus.success))
        λ _.
          bind_t
            (update_booking_fields_t env same p.booking_id
              (set_status confirmed
                ∷ set_payment_status PaymentStatus.paid
                ∷ set_payment_ref ref
                ∷ [])
              0 (λ _ _. (tt, (tt, (tt, tt)))))
            λ _. record {
              apply = λ w s.
                  wrapped (trigger_test_creation env p.booking_id w)
                    ((trigger_test_creation_t p.booking_id).apply w s);
            }

  fail_payment_t : (p : Payment) → Keeps (fail_payment env p)
  unfolding fail_payment
  fail_payment_t p = bind_t (update_payment_status_t env p.id AttemptStatus.failed) λ _.
      update_booking_fields_t env same p.booking_id
        (set_status payment_failed ∷ set_payment_status PaymentStatus.failed ∷ []) 0
        (λ _ _. (tt, (tt, tt)))

  keep_payment_pending_t : (p : Payment) → Keeps (keep_payment_pending env p)
  unfolding keep_payment_pending
  keep_payment_pending_t p =
      bind_t
        (when_t (not (is_pending p.status))
          (update_payment_status_t env p.id AttemptStatus.pending))
        λ _.
          update_booking_fields_t env same p.booking_id
            (set_status payment_pending ∷ set_payment_status PaymentStatus.pending ∷ []) 0
            (λ _ _. (tt, (tt, tt)))

  settle_t : (p : Payment) (ref : Text) (s : ChapaStatus) → Keeps (settle env p ref s)
  unfolding settle
  settle_t p ref ChapaStatus.success = confirm_payment_t p ref
  settle_t p ref ChapaStatus.failed = fail_payment_t p
  settle_t p ref ChapaStatus.pending = keep_payment_pending_t p
  settle_t p ref (ChapaStatus.other s) = pure_t tt same

  verify_and_settle_t : (p : Payment) (ref : Text) → Keeps (verify_and_settle env p ref)
  unfolding verify_and_settle
  verify_and_settle_t p ref = bind_t (provider_verify_t ref) λ v.
      bind_t (drop_t (guard_t same (matches_payment p ref v) payment_verification_mismatch))
        λ _. settle_t p ref (normalize_chapa_status v.status)

  pub handle_chapa_transaction_t :
      (id : ℕ) (ref : Text) → Keeps (handle_chapa_transaction env id ref)
  unfolding handle_chapa_transaction
  handle_chapa_transaction_t id raw =
      let ref = trim_space raw in
      bind_t (drop_t (guard_t same (not (is_empty ref)) payment_not_found)) λ _.
        bind_t (or_error_t payment_not_found (drop_t (payment_by_provider_ref_t same env ref))) λ p.
          bind_t (drop_t (guard_t same (p.booking_id == id) payment_not_found))
            λ _. if_t (is_success p.status) (confirm_payment_t p ref) (verify_and_settle_t p ref)

  pub retry_payment_t :
      (auth : AuthContext) (id : ℕ) (req : InitiatePaymentRequest)
      → Keeps (retry_payment env auth id req)
  unfolding retry_payment
  retry_payment_t auth id req = bind_t (or_error_t booking_not_found (booking_t id)) λ b.
      bind_t (drop_t (guard_t same (b.candidate_id == auth.subject_id) forbidden)) λ _.
        bind_t (drop_t (guard_t same (is_status b.status payment_failed) invalid_status_for_action))
          λ _.
            bind_t
              (drop_t (guard_t same (ltb b.payment_attempts max_attempts) max_payment_attempts))
              λ _.
                bind_t
                  (update_booking_fields_t env same id (set_status scheduled ∷ []) auth.subject_id
                    (λ _ _. (tt, tt)))
                  λ _. initiate_payment_t auth id req
