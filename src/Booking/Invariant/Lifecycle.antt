-- ===== src/Booking/Invariant/Lifecycle.antt =====
-- The operations of the booking lifecycle and of slot management keep the tables sound.
use adlts_core_engine.Prelude.{
  ℕ, ◌<◌, ◌≡◌, inl, inr, true, Option, none, some, All, arith, text_eq, ltb, codes, Bool-cases,
  ◌==◌, ◌&&◌, ◌||◌, not,
}
use adlts_core_engine.Booking.Types.{
  AuthContext, pending_verification, drafted, verified, BookingRow, Slot, missing_institute_id,
  missing_slot_id, booking_not_found, slot_not_found, institute_not_found, slot_full, forbidden,
  invalid_status_for_action, candidate_not_active, is_status,
}
use adlts_core_engine.Booking.Requests.{
  CreateBookingRequest, VerifyBookingRequest, SlotRequest, CreateSlotRequest, approve,
  validate_create, validate_verify, validate_slot, validate_create_slot,
}
use adlts_core_engine.Booking.World.{Tables, Env}
use adlts_core_engine.Booking.Repository.{booking_by_id}
use adlts_core_engine.Booking.Service.{
  is_admin, is_institute, is_candidate, is_repeated, create_booking_for, decision, decide_booking,
  verify_booking, take_slot, schedule_booking, release_slot, reschedule_booking, check_delete,
  delete_booking, archive_booking, create_slot, new_slot, may_reschedule,
}
use adlts_core_engine.Booking.Triple.{
  Triple, bind_t, pure_t, fail_t, weaken_t, drop_t, if_t, or_error_t, or_undo_t, ignore_t, guard_t,
  checked_t, from_option_t, time_now_t,
}
use adlts_core_engine.Booking.Reads.{
  booking_by_id_t, slot_by_id_t, institute_exists_t, candidate_status_by_id_t,
}
use adlts_core_engine.Booking.Invariant.WellFormed.{Sound}
use adlts_core_engine.Booking.Invariant.Writes.{IsMild}
use adlts_core_engine.Booking.Invariant.Statements.{
  Keeps, HasRoom, decrement-HasRoom_t, update_booking_fields_t, create_booking_t,
  delete_booking_row_t, create_slot_row_t, increment_slot_booked_count_t,
  decrement_slot_booked_count_t,
}

lt_of_ltb : (a b : ℕ) → ltb a b ≡ true → a < b
lt_of_ltb a b h = ground arith

same : (t : Tables) → Sound t → Sound t
same t s = s

module _ (env : Env) where
  -- Reading a booking, where only soundness is needed of the row.
  booking_t : (id : ℕ) → Keeps (λ w. booking_by_id env id w)
  booking_t id = drop_t (booking_by_id_t same env id)

  pub create_booking_for_t :
      (candidate : ℕ) (req : CreateBookingRequest) → Keeps (create_booking_for env candidate req)
  unfolding create_booking_for
  create_booking_for_t candidate req = bind_t (drop_t (checked_t same (validate_create req))) λ r.
      bind_t (drop_t (from_option_t same (env.parse_uuid r.institute_id) missing_institute_id)) λ i.
        bind_t (institute_exists_t same env i) λ exists.
          bind_t (drop_t (guard_t same exists institute_not_found))
            λ _. create_booking_t env _ candidate (omega arith)

  decision_t :
      (auth : AuthContext) (req : VerifyBookingRequest)
      → Triple Sound Sound (decision env auth req) (λ fs t. Sound t × All IsMild fs)
  unfolding decision
  decision_t auth req = elim (Bool-cases (text_eq req.action approve)) [
    | inl e ↦ rw e (bind_t (time_now_t env) λ now. pure_t _ (λ t s. (s, (tt, (tt, (tt, tt))))))
    | inr e ↦ rw e (pure_t _ (λ t s. (s, (tt, (tt, tt)))))
  ]

  decide_booking_t :
      (auth : AuthContext) (id : ℕ) (req : VerifyBookingRequest)
      → Keeps (decide_booking env auth id req)
  unfolding decide_booking
  decide_booking_t auth id req = bind_t (decision_t auth req) λ fs.
      bind_t (update_booking_fields_t env (λ t h. h.0) id fs auth.subject_id (λ t h. h.1))
        λ _. booking_t id

  pub verify_booking_t :
      (auth : AuthContext) (id : ℕ) (req : VerifyBookingRequest)
      → Keeps (verify_booking env auth id req)
  unfolding verify_booking
  verify_booking_t auth id request =
      bind_t (drop_t (checked_t same (validate_verify request))) λ req.
        bind_t
          (drop_t
            (guard_t same (is_admin auth.entity_type || is_institute auth.entity_type) forbidden))
          λ _. bind_t (or_error_t booking_not_found (booking_t id)) λ b.
            if_t (is_status b.status pending_verification) (decide_booking_t auth id req) (
              if_t (is_repeated req.action b.status) (pure_t b same)
                (fail_t invalid_status_for_action same))

  -- The two operations that give a slot to a booking end alike.
  take_slot_t :
      {P : Tables → Type 0} (weak : (t : Tables) → P t → Sound t) (id slot_id by : ℕ) (slot : Slot)
      → ((t : Tables) → P t → HasRoom slot_id t)
      → Triple Sound P (take_slot env id slot_id slot by) (λ _. Sound)
  unfolding take_slot
  take_slot_t weak id slot_id by slot room =
      bind_t (increment_slot_booked_count_t env weak slot_id room) λ _.
        bind_t
          (or_undo_t (update_booking_fields_t env same id _ by (λ _ _. (tt, (tt, (tt, tt)))))
            (ignore_t (decrement_slot_booked_count_t env slot_id)))
          λ _. booking_t id

  pub schedule_booking_t :
      (auth : AuthContext) (id : ℕ) (req : SlotRequest) → Keeps (schedule_booking env auth id req)
  unfolding schedule_booking
  schedule_booking_t auth id request =
      bind_t (drop_t (checked_t same (validate_slot request))) λ req.
        bind_t (drop_t (guard_t same (is_admin auth.entity_type) forbidden)) λ _.
          bind_t (or_error_t booking_not_found (booking_t id)) λ b.
            bind_t (drop_t (guard_t same (is_status b.status verified) invalid_status_for_action))
              λ _. bind_t (candidate_status_by_id_t same env b.candidate_id) λ c.
                bind_t (drop_t (guard_t same (text_eq c (codes "active")) candidate_not_active))
                  λ _.
                    bind_t
                      (drop_t (from_option_t same (env.parse_uuid req.slot_id) missing_slot_id))
                      λ slot_id.
                        bind_t (or_error_t slot_not_found (slot_by_id_t same env slot_id)) λ slot.
                          bind_t
                            (guard_t (λ t h. h.0) (ltb slot.booked_count slot.capacity) slot_full)
                            λ _.
                              take_slot_t (λ t h. h.0.0) id slot_id auth.subject_id slot
                                (λ t h. (slot, h.0.1, lt_of_ltb _ _ h.1))

  -- The old seat is given back before the new one is taken, which may be of the same slot.
  release_slot-HasRoom_t :
      (old : Option ℕ) (slot_id : ℕ)
      → Triple Sound
          (λ t. Sound t × HasRoom slot_id t)
          (release_slot env old)
          (λ _ t. Sound t × HasRoom slot_id t)
  unfolding release_slot
  release_slot-HasRoom_t none slot_id = pure_t tt (λ t h. h)
  release_slot-HasRoom_t (some old) slot_id = ignore_t (decrement-HasRoom_t env slot_id old)

  pub reschedule_booking_t :
      (auth : AuthContext) (id : ℕ) (req : SlotRequest) → Keeps (reschedule_booking env auth id req)
  unfolding reschedule_booking
  reschedule_booking_t auth id request =
      bind_t (drop_t (checked_t same (validate_slot request))) λ req.
        bind_t (or_error_t booking_not_found (booking_t id)) λ b.
          bind_t
            (drop_t (
              guard_t same
                (not (is_candidate auth.entity_type && not (b.candidate_id == auth.subject_id)))
                forbidden))
            λ _.
              bind_t
                (drop_t (
                  guard_t same (is_admin auth.entity_type || is_candidate auth.entity_type)
                    forbidden))
                λ _.
                  bind_t (drop_t (guard_t same (may_reschedule b.status) invalid_status_for_action))
                    λ _.
                      bind_t
                        (drop_t (from_option_t same (env.parse_uuid req.slot_id) missing_slot_id))
                        λ slot_id.
                          bind_t (or_error_t slot_not_found (slot_by_id_t same env slot_id)) λ slot.
                            bind_t
                              (weaken_t
                                (guard_t (λ t h. h.0) (ltb slot.booked_count slot.capacity)
                                  slot_full)
                                (λ _ t h. (h.0.0, (slot, h.0.1, lt_of_ltb _ _ h.1))))
                              λ _. bind_t (release_slot-HasRoom_t b.slot_id slot_id) λ _.
                                take_slot_t (λ t h. h.0) id slot_id auth.subject_id slot
                                  (λ t h. h.1)

  release_slot_t : (old : Option ℕ) → Keeps (release_slot env old)
  unfolding release_slot
  release_slot_t none = pure_t tt same
  release_slot_t (some old) = ignore_t (decrement_slot_booked_count_t env old)

  check_delete_t : (auth : AuthContext) (b : BookingRow) → Keeps (check_delete env auth b)
  unfolding check_delete
  check_delete_t auth b =
      if_t (is_candidate auth.entity_type)
        (bind_t (drop_t (guard_t same (b.candidate_id == auth.subject_id) forbidden))
          λ _. drop_t (guard_t same (is_status b.status drafted) invalid_status_for_action))
        (drop_t (guard_t same (is_admin auth.entity_type) forbidden))

  pub delete_booking_t : (auth : AuthContext) (id : ℕ) → Keeps (delete_booking env auth id)
  unfolding delete_booking
  delete_booking_t auth id = bind_t (or_error_t booking_not_found (booking_t id)) λ b.
      bind_t (check_delete_t auth b.row)
        λ _. bind_t (release_slot_t b.slot_id) λ _. delete_booking_row_t env same id

  pub archive_booking_t : (id : ℕ) → Keeps (archive_booking env id)
  unfolding archive_booking
  archive_booking_t id =
      bind_t (time_now_t env) λ now. update_booking_fields_t env same id _ 0 (λ _ _. (tt, (tt, tt)))

  pub create_slot_t :
      (auth : AuthContext) (req : CreateSlotRequest) → Keeps (create_slot env auth req)
  unfolding create_slot
  create_slot_t auth request =
      bind_t (drop_t (checked_t same (validate_create_slot request))) λ req.
        bind_t (drop_t (guard_t same (is_admin auth.entity_type) forbidden)) λ _.
          bind_t
            (drop_t (from_option_t same (env.parse_uuid req.institute_id) missing_institute_id))
            λ i. bind_t (institute_exists_t same env i) λ exists.
              bind_t (drop_t (guard_t same exists institute_not_found))
                λ _. create_slot_row_t env (new_slot i auth req) (omega arith)
