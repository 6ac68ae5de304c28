-- ===== src/Booking/Service/Lifecycle.antt =====
-- The booking lifecycle: `CreateBooking` to `ArchiveBooking`. An operation returns at its first
-- error; what it wrote before that stays written.
use adlts_core_engine.Prelude.{
  ℕ, Bool, true, false, not, ◌&&◌, ◌||◌, List, [], ◌∷◌, Option, none, some, Text, codes, text_eq,
  is_empty, trim_space, ℤ, ◌==◌, ltb, if◌then◌else◌,
}
use adlts_core_engine.Booking.Types.{
  BookingStatus, drafted, pending_verification, verified, rejected, scheduled, confirmed, archived,
  is_status, unpaid, BookingRow, Booking, Slot, EntityType, candidate, admin, super_admin,
  institute, AuthContext, missing_institute_id, missing_slot_id, booking_not_found, slot_not_found,
  institute_not_found, slot_full, forbidden, invalid_status_for_action, candidate_not_active,
}
use adlts_core_engine.Booking.Requests.{
  CreateBookingRequest, VerifyBookingRequest, SlotRequest, approve, reject, validate_create,
  validate_verify, validate_slot,
}
use adlts_core_engine.Booking.World.{
  Env, Result, M, pure, fail, ◌>>=◌, ◌>>◌, guard, or_error, or_undo, ignore, from_option, time_now,
}
use adlts_core_engine.Booking.Repository.{
  set_status, set_verified_by, set_verified_at, set_rejection_reason, set_slot_id, set_scheduled_at,
  set_archived_at, BookingField, BookingFilter, booking_by_id, create_booking, list_bookings,
  update_booking_fields, delete_booking_row, slot_by_id, increment_slot_booked_count,
  decrement_slot_booked_count, institute_exists, candidate_status_by_id,
}

-- A validation that leaves the world alone.
abbrev pub checked {ℓ} : {A : Type ℓ} → Result A → M A
checked r w = (r, w)

abbrev pub is_admin : EntityType → Bool
is_admin admin = true
is_admin super_admin = true
is_admin _ = false

abbrev pub is_candidate : EntityType → Bool
is_candidate candidate = true
is_candidate _ = false

abbrev pub is_institute : EntityType → Bool
is_institute institute = true
is_institute _ = false

-- `authorizeBookingAccess`.
unfoldable pub may_access : AuthContext → BookingRow → Bool
may_access auth b = elim auth.entity_type [
  | candidate ↦ b.candidate_id == auth.subject_id
  | institute ↦ b.institute_id == auth.subject_id
  | admin ↦ true
  | super_admin ↦ true
  | _ ↦ false
]

-- The row that `CreateBooking` hands to the repository, which fills in the rest.
abbrev pub new_booking : ℕ → ℕ → BookingRow
new_booking candidate_id institute_id = record {
  id = 0;
  candidate_id = candidate_id;
  institute_id = institute_id;
  test_id = none;
  slot_id = none;
  status = pending_verification;
  requires_verification = false;
  verified_by = none;
  verified_at = none;
  rejection_reason = none;
  test_center_id = none;
  test_level_code = [];
  scheduled_at = none;
  payment_ref = none;
  payment_status = unpaid;
  payment_amount_cents = none;
  payment_attempts = 0;
  archived_at = none;
  created_at = 0;
  updated_at = 0;
  created_by = 0;
  updated_by = 0;
}

-- The filter that `ListBookings` builds from who asks.
unfoldable pub scope_filter : AuthContext → Option BookingStatus → Option BookingFilter
scope_filter auth status = elim auth.entity_type [
  | candidate ↦
      some (record { candidate_id = some auth.subject_id; institute_id = none; status = status })
  | institute ↦
      some (record { candidate_id = none; institute_id = some auth.subject_id; status = status })
  | admin ↦ some (record { candidate_id = none; institute_id = none; status = status })
  | super_admin ↦ some (record { candidate_id = none; institute_id = none; status = status })
  | _ ↦ none
]

-- The reason that is stored for a rejection.
abbrev pub reason_or_default : Text → Text
reason_or_default s = if is_empty (trim_space s) then codes "Rejected by reviewer" else s

-- An action repeated on a booking that has already come out that way.
abbrev pub is_repeated : Text → BookingStatus → Bool
is_repeated action status =
    (text_eq action approve && is_status status verified)
    || (text_eq action reject && is_status status rejected)

-- `allowed` in `RescheduleBooking`.
abbrev pub may_reschedule : BookingStatus → Bool
may_reschedule status = is_status status scheduled || is_status status confirmed

module _ (env : Env) where
  unfoldable pub create_booking_for : ℕ → CreateBookingRequest → M Booking
  create_booking_for candidate_id request = do
    req ← checked (validate_create request)
    institute_id ← from_option (env.parse_uuid req.institute_id) missing_institute_id
    exists ← institute_exists env institute_id
    guard exists institute_not_found
    create_booking env (new_booking candidate_id institute_id) candidate_id

  unfoldable pub get_booking : AuthContext → ℕ → M Booking
  get_booking auth id = do
    b ← or_error booking_not_found (booking_by_id env id)
    guard (may_access auth b.row) forbidden
    pure b

  unfoldable pub list_bookings_for : AuthContext → Option BookingStatus → ℤ → M (List Booking × ℕ)
  list_bookings_for auth status page = do
    f ← from_option (scope_filter auth status) forbidden
    list_bookings env f page

  -- The columns that a decision on a pending booking writes; approving reads the clock.
  unfoldable pub decision : AuthContext → VerifyBookingRequest → M (List BookingField)
  decision auth req =
      if text_eq req.action approve
      then (time_now env >>= λ now.
          pure (set_status verified ∷ set_verified_by auth.subject_id ∷ set_verified_at now ∷ []))
      else pure
          (set_status rejected ∷ set_rejection_reason (reason_or_default req.rejection_reason) ∷ [])

  unfoldable pub decide_booking : AuthContext → ℕ → VerifyBookingRequest → M Booking
  decide_booking auth id req = do
    fields ← decision auth req
    update_booking_fields env id fields auth.subject_id
    booking_by_id env id

  unfoldable pub verify_booking : AuthContext → ℕ → VerifyBookingRequest → M Booking
  verify_booking auth id request = do
    req ← checked (validate_verify request)
    guard (is_admin auth.entity_type || is_institute auth.entity_type) forbidden
    b ← or_error booking_not_found (booking_by_id env id)
    if is_status b.status pending_verification
        then decide_booking auth id req
        else if is_repeated req.action b.status
        then pure b
        else fail invalid_status_for_action

  -- How `ScheduleBooking` and `RescheduleBooking` end: the seat is counted, the booking is updated
  -- (or the seat given back), and the booking is read again.
  unfoldable pub take_slot : ℕ → ℕ → Slot → ℕ → M Booking
  take_slot id slot_id slot by = do
    increment_slot_booked_count env slot_id
    or_undo
        (update_booking_fields env id
          (set_slot_id slot_id ∷ set_scheduled_at slot.starts_at ∷ set_status scheduled ∷ []) by)
        (ignore (decrement_slot_booked_count env slot_id))
    booking_by_id env id

  unfoldable pub schedule_booking : AuthContext → ℕ → SlotRequest → M Booking
  schedule_booking auth id request = do
    req ← checked (validate_slot request)
    guard (is_admin auth.entity_type) forbidden
    b ← or_error booking_not_found (booking_by_id env id)
    guard (is_status b.status verified) invalid_status_for_action
    candidate_status ← candidate_status_by_id env b.candidate_id
    guard (text_eq candidate_status (codes "active")) candidate_not_active
    slot_id ← from_option (env.parse_uuid req.slot_id) missing_slot_id
    slot ← or_error slot_not_found (slot_by_id env slot_id)
    guard (ltb slot.booked_count slot.capacity) slot_full
    take_slot id slot_id slot auth.subject_id

  -- `if b.SlotID != nil { _ = DecrementSlotBookedCount }`.
  unfoldable pub release_slot : Option ℕ → M (Unit {0})
  release_slot none = pure tt
  release_slot (some slot_id) = ignore (decrement_slot_booked_count env slot_id)

  unfoldable pub reschedule_booking : AuthContext → ℕ → SlotRequest → M Booking
  reschedule_booking auth id request = do
    req ← checked (validate_slot request)
    b ← or_error booking_not_found (booking_by_id env id)
    guard (not (is_candidate auth.entity_type && not (b.candidate_id == auth.subject_id))) forbidden
    guard (is_admin auth.entity_type || is_candidate auth.entity_type) forbidden
    guard (may_reschedule b.status) invalid_status_for_action
    slot_id ← from_option (env.parse_uuid req.slot_id) missing_slot_id
    slot ← or_error slot_not_found (slot_by_id env slot_id)
    guard (ltb slot.booked_count slot.capacity) slot_full
    release_slot b.slot_id
    take_slot id slot_id slot auth.subject_id

  -- A candidate deletes only own drafts; an administrator deletes any booking.
  unfoldable pub check_delete : AuthContext → BookingRow → M (Unit {0})
  check_delete auth b =
      if is_candidate auth.entity_type
      then (guard (b.candidate_id == auth.subject_id) forbidden
          >> guard (is_status b.status drafted) invalid_status_for_action)
      else guard (is_admin auth.entity_type) forbidden

  unfoldable pub delete_booking : AuthContext → ℕ → M (Unit {0})
  delete_booking auth id = do
    b ← or_error booking_not_found (booking_by_id env id)
    check_delete auth b.row
    release_slot b.slot_id
    delete_booking_row env id

  unfoldable pub archive_booking : ℕ → M (Unit {0})
  archive_booking id = do
    now ← time_now env
    update_booking_fields env id (set_status archived ∷ set_archived_at now ∷ []) 0
