-- ===== src/Booking/Closed/Histories.antt =====
-- Rejected, archived and cancelled bookings through histories of requests.
use adlts_core_engine.Prelude.{
  ℕ, ◌+◌, ◌≡◌, ◌≢◌, Bool, true, false, not, List, [], ◌∷◌, ◌++◌, some, All, arith, ltb, leb, ◌==◌,
  find_by,
}
use adlts_core_engine.Booking.Types.{
  payment_failed, is_status, BookingRow, AuthContext, PaymentStatus, AttemptStatus,
  missing_institute_id, booking_not_found, institute_not_found, forbidden,
  invalid_status_for_action, already_processed, max_payment_attempts, payment_provider,
}
use adlts_core_engine.Booking.Requests.{
  CreateBookingRequest, InitiatePaymentRequest, CreateSlotRequest, validate_create,
  validate_payment, validate_create_slot,
}
use adlts_core_engine.Booking.World.{
  ticked, World, Env, Result, ok, err, PaymentInitRequest, replace_error,
}
use adlts_core_engine.Booking.Repository.{
  set_status, set_payment_status, booking_row, create_booking, create_slot_row, create_payment,
  insert_row,
}
use adlts_core_engine.Booking.Service.{
  is_admin, is_paid, may_pay, max_attempts, create_booking_for, create_slot, provider_initiate,
  mark_failed, initiate_payment, retry_payment,
}
use adlts_core_engine.Booking.Triple.{
  Ends, Triple, bind_t, pure_t, drop_t, or_error_t, or_undo_t, ignore_t, guard_t, checked_t,
  from_option_t, time_now_t, uuid_new_t, exec_unless_t, tables_t,
}
use adlts_core_engine.Booking.Reads.{
  booking_by_id_t, institute_exists_t, candidate_contact_by_id_t, latest_payment_attempt_number_t,
}
use adlts_core_engine.Booking.History.{
  Call, creates, verifies, schedules, reschedules, deletes, archives, pays, retries, settles,
  opens_slot, step, run,
}
use adlts_core_engine.Booking.Closed.{
  is_closed, Holds, update_t, booking_t, payment_t, verify_t, open_t, schedule_t, reschedule_t,
  same, Kept,
}

module _ (env : Env) (id : ℕ) (b : BookingRow) (closed : is_closed b.status ≡ true) where
  -- A row behind the others does not hide an earlier one.
  found_first :
      (rows : List BookingRow) (row : BookingRow)
      → find_by (λ (r : BookingRow). r.id) id rows ≡ some b
      → find_by (λ (r : BookingRow). r.id) id (rows ++ row ∷ []) ≡ some b
  unfolding find_by
  found_first [] row e = absurd (cc e)
  found_first (r ∷ rows) row e = ground (arith, found_first rows row)

  create_t :
      (candidate : ℕ) (req : CreateBookingRequest)
      → Triple
          (Kept env id b closed)
          (Kept env id b closed)
          (create_booking_for env candidate req)
          (λ _. (Kept env id b closed))
  unfolding create_booking_for create_booking insert_row
  create_t candidate request =
      bind_t (drop_t (checked_t (same env id b closed) (validate_create request))) λ req.
        bind_t
          (drop_t (
            from_option_t (same env id b closed) (env.parse_uuid req.institute_id)
              missing_institute_id))
          λ i. bind_t (institute_exists_t (same env id b closed) env i) λ exists.
            bind_t (drop_t (guard_t (same env id b closed) exists institute_not_found)) λ _.
              bind_t (uuid_new_t env) λ new_id. bind_t (time_now_t env) λ now.
                bind_t
                  (exec_unless_t (same env id b closed) env _ _
                    λ _ t k _. found_first t.bookings _ k)
                  λ _. (booking_t env id b closed) new_id

  open_slot_t :
      (auth : AuthContext) (req : CreateSlotRequest)
      → Triple
          (Kept env id b closed)
          (Kept env id b closed)
          (create_slot env auth req)
          (λ _. (Kept env id b closed))
  unfolding create_slot create_slot_row insert_row
  open_slot_t auth request =
      bind_t (drop_t (checked_t (same env id b closed) (validate_create_slot request))) λ req.
        bind_t (drop_t (guard_t (same env id b closed) (is_admin auth.entity_type) forbidden)) λ _.
          bind_t
            (drop_t (
              from_option_t (same env id b closed) (env.parse_uuid req.institute_id)
                missing_institute_id))
            λ i. bind_t (institute_exists_t (same env id b closed) env i) λ exists.
              bind_t (drop_t (guard_t (same env id b closed) exists institute_not_found)) λ _.
                bind_t (uuid_new_t env) λ new_id. bind_t (time_now_t env) λ now.
                  bind_t (exec_unless_t (same env id b closed) env _ _ λ _ t k _. k)
                    λ _. pure_t _ (same env id b closed)

  mark_failed_t :
      (payment j by : ℕ)
      → id ≢ j
      → Triple
          (Kept env id b closed)
          (Kept env id b closed)
          (mark_failed env payment j by)
          (λ _. (Kept env id b closed))
  unfolding mark_failed
  mark_failed_t payment j by other =
      bind_t (ignore_t ((payment_t env id b closed) payment AttemptStatus.failed)) λ _. ignore_t (
        (update_t env id b closed) (same env id b closed) j other
          (set_status payment_failed ∷ set_payment_status PaymentStatus.failed ∷ []) by)

  provider_t :
      (req : PaymentInitRequest)
      → Triple
          (Kept env id b closed)
          (Kept env id b closed)
          (provider_initiate env req)
          (λ _. (Kept env id b closed))
  unfolding provider_initiate
  provider_t req = record { apply = λ w k. go (env.provider.initiate_payment w.tick req) w k }
    where
      go :
          {A : Type 0} (r : Result A) (w : World)
          → (Kept env id b closed) w.tables
          → Ends
              (Kept env id b closed)
              (λ (_ : A). (Kept env id b closed))
              (replace_error payment_provider (r, ticked w))
      go (ok a) w k = k
      go (err e) w k = k

  pay_t :
      (auth : AuthContext) (j : ℕ) (req : InitiatePaymentRequest)
      → Triple
          (Kept env id b closed)
          (Kept env id b closed)
          (initiate_payment env auth j req)
          (λ _. (Kept env id b closed))
  unfolding initiate_payment create_payment insert_row
  pay_t auth j request =
      bind_t (drop_t (checked_t (same env id b closed) (validate_payment request))) λ req.
        bind_t (or_error_t booking_not_found (booking_by_id_t (same env id b closed) env j)) λ r.
          bind_t (drop_t (guard_t (λ t h. h.0) (r.candidate_id == auth.subject_id) forbidden)) λ _.
            bind_t
              (drop_t (guard_t (λ t h. h.0) (not (is_paid r.payment_status)) already_processed))
              λ _. bind_t (guard_t (λ t h. h.0) (may_pay r.status) invalid_status_for_action) λ _.
                (open_t env id b closed) j r.row (may_pay r.status) (λ e. ground (arith, e))
                  λ other.
                    bind_t (drop_t (latest_payment_attempt_number_t (same env id b closed) env j))
                      λ last.
                        bind_t
                          (drop_t (
                            guard_t (same env id b closed) (leb (last + 1) max_attempts)
                              max_payment_attempts))
                          λ _.
                            bind_t
                              (candidate_contact_by_id_t (same env id b closed) env auth.subject_id)
                              λ c. bind_t (time_now_t env) λ nanos.
                                bind_t
                                  (bind_t (uuid_new_t env) λ new_id. bind_t (time_now_t env) λ now.
                                    bind_t
                                      (exec_unless_t (same env id b closed) env _ _ λ _ t k _. k)
                                      λ _. pure_t _ (same env id b closed))
                                  λ p.
                                    bind_t
                                      (or_undo_t
                                        ((update_t env id b closed) (same env id b closed) j other _
                                          auth.subject_id)
                                        (ignore_t
                                          ((payment_t env id b closed) p.id AttemptStatus.failed)))
                                      λ _.
                                        bind_t
                                          (or_undo_t (provider_t _)
                                            (mark_failed_t p.id j auth.subject_id other))
                                          λ result. pure_t _ (same env id b closed)

  retry_t :
      (auth : AuthContext) (j : ℕ) (req : InitiatePaymentRequest)
      → Triple
          (Kept env id b closed)
          (Kept env id b closed)
          (retry_payment env auth j req)
          (λ _. (Kept env id b closed))
  unfolding retry_payment
  retry_t auth j request =
      bind_t (or_error_t booking_not_found (booking_by_id_t (same env id b closed) env j)) λ r.
        bind_t (drop_t (guard_t (λ t h. h.0) (r.candidate_id == auth.subject_id) forbidden)) λ _.
          bind_t
            (guard_t (λ t h. h.0) (is_status r.status payment_failed) invalid_status_for_action)
            λ _.
              (open_t env id b closed) j r.row (is_status r.status payment_failed)
                (λ e. ground (arith, e))
                λ other.
                  bind_t
                    (drop_t (
                      guard_t (same env id b closed) (ltb r.payment_attempts max_attempts)
                        max_payment_attempts))
                    λ _.
                      bind_t
                        ((update_t env id b closed) (same env id b closed) j other _
                          auth.subject_id)
                        λ _. pay_t auth j request

-- The calls other than deletions, archivings and the transactions that the gateway's callback, webhook
-- and verification lead to.
abbrev pub is_request : Call → Bool
is_request (settles _ _) = false
is_request (archives _) = false
is_request (deletes _ _) = false
is_request _ = true

step-Holds :
    (env : Env) (w : World) (id : ℕ) (b : BookingRow) (c : Call)
    → is_closed b.status ≡ true
    → is_request c ≡ true
    → Holds id b w.tables
    → Holds id b (step env w c).tables
unfolding step
step-Holds env w id b (creates k req) closed r h = tables_t (create_t env id b closed k req) w h
step-Holds env w id b (verifies a j req) closed r h =
    tables_t (verify_t env id b closed a j req) w h
step-Holds env w id b (schedules a j req) closed r h =
    tables_t (schedule_t env id b closed a j req) w h
step-Holds env w id b (reschedules a j req) closed r h =
    tables_t (reschedule_t env id b closed a j req) w h
step-Holds env w id b (deletes a j) closed r h = absurd (cc r)
step-Holds env w id b (archives j) closed r h = absurd (cc r)
step-Holds env w id b (pays a j req) closed r h = tables_t (pay_t env id b closed a j req) w h
step-Holds env w id b (retries a j req) closed r h = tables_t (retry_t env id b closed a j req) w h
step-Holds env w id b (settles j ref) closed r h = absurd (cc r)
step-Holds env w id b (opens_slot a req) closed r h =
    tables_t (open_slot_t env id b closed a req) w h

-- A rejected, archived or cancelled booking stays exactly as it is through any history of creations,
-- decisions, schedulings, reschedulings, payments, retries and new slots, whoever makes them and
-- whichever queries fail. Deletions, archivings and the gateway's transactions are no part of it.
pub run-closed :
    (env : Env) (w : World) (id : ℕ) (b : BookingRow) (cs : List Call)
    → is_closed b.status ≡ true
    → All (λ c. is_request c ≡ true) cs
    → booking_row id w.tables ≡ some b
    → booking_row id (run env w cs).tables ≡ some b
unfolding run
run-closed env w id b [] closed all h = h
run-closed env w id b (c ∷ cs) closed all h =
    run-closed env (step env w c) id b cs closed all.1 (step-Holds env w id b c closed all.0 h)
