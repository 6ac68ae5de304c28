-- ===== src/Booking/Closed.antt =====
-- Triples for what keeps a rejected, archived or cancelled booking as it is.
pub mod Histories
use adlts_core_engine.Prelude.{
  ℕ, ◌+◌, ◌≡◌, ◌≢◌, refl, sym, ◌∙◌, ap, subst, inl, inr, Bool, true, false, not, ◌&&◌, ◌||◌, List,
  [], ◌∷◌, ◌++◌, Option, none, some, All, arith, text_eq, codes, ltb, leb, ◌==◌, if◌then◌else◌,
  Bool-cases, find_by, find_by-update_by_ne, Text,
}
use adlts_core_engine.Booking.Types.{
  BookingStatus, drafted, pending_verification, verified, rejected, scheduled, payment_pending,
  payment_failed, confirmed, archived, cancelled, is_status, BookingRow, Booking, Slot, AuthContext,
  PaymentStatus, AttemptStatus, Error, missing_institute_id, missing_slot_id, booking_not_found,
  slot_not_found, institute_not_found, slot_full, forbidden, invalid_status_for_action,
  candidate_not_active, already_processed, max_payment_attempts, payment_provider,
}
use adlts_core_engine.Booking.Requests.{
  CreateBookingRequest, VerifyBookingRequest, SlotRequest, InitiatePaymentRequest,
  CreateSlotRequest, approve, validate_create, validate_verify, validate_slot, validate_payment,
  validate_create_slot,
}
use adlts_core_engine.Booking.World.{
  ticked, Tables, World, Env, M, Result, ok, err, PaymentInitRequest, replace_error,
}
use adlts_core_engine.Booking.Repository.{
  BookingField, set_status, set_payment_status, set_payment_amount_cents, set_payment_attempts,
  booking_row, touched, write_booking, booking_by_id, update_booking_fields,
  increment_slot_booked_count, decrement_slot_booked_count, create_booking, create_slot_row,
  create_payment, insert_row, update_payment_status,
}
use adlts_core_engine.Booking.Chapa.{generate_tx_ref}
use adlts_core_engine.Booking.Service.{
  is_admin, is_institute, is_candidate, is_repeated, is_paid, may_pay, may_reschedule, max_attempts,
  new_payment, new_slot, create_booking_for, decision, decide_booking, verify_booking, take_slot,
  schedule_booking, release_slot, reschedule_booking, create_slot, provider_initiate, mark_failed,
  initiate_payment, retry_payment,
}
use adlts_core_engine.Booking.Triple.{
  Ends, Triple, bind_t, pure_t, fail_t, weaken_t, drop_t, if_t, or_error_t, or_undo_t, ignore_t,
  guard_t, checked_t, from_option_t, time_now_t, uuid_new_t, exec_t, exec_unless_t, assume_t,
  weaken_pre_t, tables_t,
}
use adlts_core_engine.Booking.Reads.{
  booking_by_id_t, slot_by_id_t, institute_exists_t, candidate_status_by_id_t,
  candidate_contact_by_id_t, latest_payment_attempt_number_t,
}
use adlts_core_engine.Booking.Invariant.{assign_all-id}
use adlts_core_engine.Booking.History.{
  Call, creates, verifies, schedules, reschedules, deletes, archives, pays, retries, settles,
  opens_slot, step, run,
}

abbrev pub is_closed : BookingStatus → Bool
is_closed rejected = true
is_closed archived = true
is_closed cancelled = true
is_closed _ = false

-- The row that a booking's id leads to.
abbrev pub Holds : ℕ → BookingRow → Tables → Type 0
Holds id b t = booking_row id t ≡ some b

module _ (env : Env) (id : ℕ) (b : BookingRow) (closed : is_closed b.status ≡ true) where
  abbrev pub Kept : Tables → Type 0
  Kept = Holds id b

  pub same : (t : Tables) → Kept t → Kept t
  same t k = k

  -- A booking that is read in an open status is another.
  other_of_open :
      (j : ℕ) (r : BookingRow) (t : Tables)
      → Kept t
      → booking_row j t ≡ some r
      → is_closed r.status ≡ false
      → id ≢ j
  other_of_open j r t kept read open_ e = cc (kept, read, open_, closed, e)

  -- A statement on the row of another booking.
  pub update_t :
      {P : Tables → Type 0} (weak : (t : Tables) → P t → Kept t) (j : ℕ)
      → id ≢ j
      → (fs : List BookingField) (by : ℕ)
      → Triple Kept P (update_booking_fields env j fs by) (λ _. Kept)
  unfolding update_booking_fields
  update_t weak j other [] by = pure_t tt weak
  update_t weak j other (f ∷ fs) by = exec_t weak env _ λ now t p.
      find_by-update_by_ne (λ (r : BookingRow). r.id) id j (touched (f ∷ fs) by now) t.bookings
        (λ r. assign_all-id (f ∷ fs) r) other (weak t p)

  pub booking_t : (j : ℕ) → Triple Kept Kept (booking_by_id env j) (λ _. Kept)
  booking_t j = drop_t (booking_by_id_t same env j)

  pub seat_t : (j : ℕ) → Triple Kept Kept (decrement_slot_booked_count env j) (λ _. Kept)
  unfolding decrement_slot_booked_count
  seat_t j = exec_t same env _ λ now t k. k

  pub payment_t :
      (j : ℕ) (s : AttemptStatus) → Triple Kept Kept (update_payment_status env j s) (λ _. Kept)
  unfolding update_payment_status
  payment_t j s = bind_t (time_now_t env) λ now. exec_t same env _ λ _ t k. k

  pub decide_t :
      (auth : AuthContext) (j : ℕ) (req : VerifyBookingRequest)
      → id ≢ j
      → Triple Kept Kept (decide_booking env auth j req) (λ _. Kept)
  unfolding decide_booking decision
  decide_t auth j req other =
      bind_t
        (elim (Bool-cases (text_eq req.action approve)) [
          | inl e ↦ rw e (bind_t (time_now_t env) λ now. pure_t _ same)
          | inr e ↦ rw e (pure_t _ same)
        ])
        λ fs. bind_t (update_t same j other fs auth.subject_id) λ _. booking_t j

  pub take_slot_t :
      (j slot_id by : ℕ) (slot : Slot)
      → id ≢ j
      → Triple Kept Kept (take_slot env j slot_id slot by) (λ _. Kept)
  unfolding take_slot increment_slot_booked_count
  take_slot_t j slot_id by slot other = bind_t (exec_t same env _ λ now t k. k) λ _.
      bind_t (or_undo_t (update_t same j other _ by) (ignore_t (seat_t slot_id))) λ _. booking_t j

  pub verify_t :
      (auth : AuthContext) (j : ℕ) (req : VerifyBookingRequest)
      → Triple Kept Kept (verify_booking env auth j req) (λ _. Kept)
  unfolding verify_booking
  verify_t auth j request = bind_t (drop_t (checked_t same (validate_verify request))) λ req.
      bind_t
        (drop_t
          (guard_t same (is_admin auth.entity_type || is_institute auth.entity_type) forbidden))
        λ _. bind_t (or_error_t booking_not_found (booking_by_id_t same env j)) λ r.
          elim (Bool-cases (is_status r.status pending_verification)) [
            | inl e ↦ rw e (
                assume_t (λ t h. other_of_open j r.row t h.0 h.1 (ground arith))
                  λ other. weaken_pre_t (λ t h. h.0) (decide_t auth j req other))
            | inr e ↦ rw e (
                if_t (is_repeated req.action r.status) (pure_t r (λ t h. h.0))
                  (fail_t invalid_status_for_action (λ t h. h.0)))
          ]

  -- What follows a guard that a closed booking does not pass is about another booking.
  pub open_t :
      {A : Type 0} {m : M A} (j : ℕ) (r : BookingRow) (test : Bool)
      → (test ≡ true → is_closed r.status ≡ false)
      → (id ≢ j → Triple Kept Kept m (λ _. Kept))
      → Triple Kept (λ t. (Kept t × (booking_row j t ≡ some r)) × (test ≡ true)) m (λ _. Kept)
  open_t j r test opens k =
      assume_t (λ t h. other_of_open j r t h.0.0 h.0.1 (opens h.1))
        λ other. weaken_pre_t (λ t h. h.0.0) (k other)

  pub schedule_t :
      (auth : AuthContext) (j : ℕ) (req : SlotRequest)
      → Triple Kept Kept (schedule_booking env auth j req) (λ _. Kept)
  unfolding schedule_booking
  schedule_t auth j request = bind_t (drop_t (checked_t same (validate_slot request))) λ req.
      bind_t (drop_t (guard_t same (is_admin auth.entity_type) forbidden)) λ _.
        bind_t (or_error_t booking_not_found (booking_by_id_t same env j)) λ r.
          bind_t (guard_t (λ t h. h.0) (is_status r.status verified) invalid_status_for_action) λ _.
            open_t j r.row (is_status r.status verified) (λ e. ground (arith, e))
              λ other. bind_t (candidate_status_by_id_t same env r.candidate_id) λ c.
                bind_t (drop_t (guard_t same (text_eq c (codes "active")) candidate_not_active))
                  λ _.
                    bind_t
                      (drop_t (from_option_t same (env.parse_uuid req.slot_id) missing_slot_id))
                      λ slot_id.
                        bind_t (or_error_t slot_not_found (drop_t (slot_by_id_t same env slot_id)))
                          λ slot.
                            bind_t
                              (drop_t
                                (guard_t same (ltb slot.booked_count slot.capacity) slot_full))
                              λ _. take_slot_t j slot_id auth.subject_id slot other

  pub release_t : (old : Option ℕ) → Triple Kept Kept (release_slot env old) (λ _. Kept)
  unfolding release_slot
  release_t none = pure_t tt same
  release_t (some old) = ignore_t (seat_t old)

  pub reschedule_t :
      (auth : AuthContext) (j : ℕ) (req : SlotRequest)
      → Triple Kept Kept (reschedule_booking env auth j req) (λ _. Kept)
  unfolding reschedule_booking
  reschedule_t auth j request = bind_t (drop_t (checked_t same (validate_slot request))) λ req.
      bind_t (or_error_t booking_not_found (booking_by_id_t same env j)) λ r.
        bind_t
          (drop_t (
            guard_t (λ t h. h.0)
              (not (is_candidate auth.entity_type && not (r.candidate_id == auth.subject_id)))
              forbidden))
          λ _.
            bind_t
              (drop_t (
                guard_t (λ t h. h.0) (is_admin auth.entity_type || is_candidate auth.entity_type)
                  forbidden))
              λ _.
                bind_t (guard_t (λ t h. h.0) (may_reschedule r.status) invalid_status_for_action)
                  λ _.
                    open_t j r.row (may_reschedule r.status) (λ e. ground (arith, e))
                      λ other.
                        bind_t
                          (drop_t (from_option_t same (env.parse_uuid req.slot_id) missing_slot_id))
                          λ slot_id.
                            bind_t
                              (or_error_t slot_not_found (drop_t (slot_by_id_t same env slot_id)))
                              λ slot.
                                bind_t
                                  (drop_t
                                    (guard_t same (ltb slot.booked_count slot.capacity) slot_full))
                                  λ _.
                                    bind_t (release_t r.slot_id)
                                      λ _. take_slot_t j slot_id auth.subject_id slot other
