-- ===== src/Booking/Decisions.antt =====
-- What `VerifyBooking` decides, and who may decide it.
use adlts_core_engine.Prelude.{
  ℕ, suc, ◌≡◌, ◌≢◌, refl, ◌∙◌, true, false, ◌||◌, some, Text, text_eq, text_eq_sound, arith,
  if◌then◌else◌, Bool-cases, inl, inr, find_by-update_by_self,
}
use adlts_core_engine.Booking.Types.{
  BookingRow, pending_verification, verified, rejected, institute, AuthContext, forbidden,
}
use adlts_core_engine.Booking.Requests.{
  VerifyBookingRequest, approve, reject, action_of, validate_verify,
}
use adlts_core_engine.Booking.World.{World, Env, ok, err, time_now, fetch}
use adlts_core_engine.Booking.Repository.{booking_row, joined, booking_by_id}
use adlts_core_engine.Booking.Service.{
  is_admin, is_institute, may_access, reason_or_default, get_booking, decision, decide_booking,
  verify_booking,
}
use adlts_core_engine.Booking.Reliable.{
  booking_by_id-ticked, booking_by_id-found, update_booking_fields-done,
}

-- The row of an approved booking, and that of a rejected one.
abbrev pub approved : Env → World → AuthContext → BookingRow → BookingRow
approved env w auth b = record b {
  status = verified;
  verified_by = some auth.subject_id;
  verified_at = some (env.now (suc w.tick));
  updated_at = env.now (suc (suc w.tick));
  updated_by = auth.subject_id;
}

abbrev pub refused : Env → World → AuthContext → Text → BookingRow → BookingRow
refused env w auth reason b = record b {
  status = rejected;
  rejection_reason = some (reason_or_default reason);
  updated_at = env.now (suc w.tick);
  updated_by = auth.subject_id;
}

-- A booking outside `pending_verification` is never changed by a decision, whoever asks, whatever
-- the request, and whichever queries fail.
pub verify_booking-decided :
    (env : Env) (w : World) (auth : AuthContext) (id : ℕ) (req : VerifyBookingRequest)
    (b : BookingRow)
    → booking_row id w.tables ≡ some b
    → b.status ≢ pending_verification
    → (verify_booking env auth id req w).1.tables ≡ w.tables
unfolding verify_booking booking_by_id fetch joined
verify_booking-decided env w auth id req b found decided = ground arith

module _ (env : Env) (reliable : (n : ℕ) → env.query_fails n ≡ false) (w : World) where
  approves :
      (auth : AuthContext) (id : ℕ) (req : VerifyBookingRequest) (b : BookingRow)
      → booking_row id w.tables ≡ some b
      → b.status ≡ pending_verification
      → (is_admin auth.entity_type || is_institute auth.entity_type) ≡ true
      → action_of req.action req.status ≡ approve
      → booking_row id (verify_booking env auth id req w).1.tables ≡ some (approved env w auth b)
  unfolding verify_booking decide_booking decision validate_verify time_now joined
  approves auth id req b found pending role action =
      simp
        (
          action,
          role,
          booking_by_id-found env reliable w id found,
          pending,
          update_booking_fields-done env reliable,
          booking_by_id-ticked,
        )
        (find_by-update_by_self (λ (r : BookingRow). r.id) id _ w.bookings (λ _. refl) found)

  refuses :
      (auth : AuthContext) (id : ℕ) (req : VerifyBookingRequest) (b : BookingRow)
      → booking_row id w.tables ≡ some b
      → b.status ≡ pending_verification
      → (is_admin auth.entity_type || is_institute auth.entity_type) ≡ true
      → action_of req.action req.status ≡ reject
      → booking_row id (verify_booking env auth id req w).1.tables
        ≡ some (refused env w auth req.rejection_reason b)
  unfolding verify_booking decide_booking decision validate_verify time_now joined
  refuses auth id req b found pending role action =
      simp
        (
          action,
          role,
          booking_by_id-found env reliable w id found,
          pending,
          update_booking_fields-done env reliable,
          booking_by_id-ticked,
        )
        (find_by-update_by_self (λ (r : BookingRow). r.id) id _ w.bookings (λ _. refl) found)

  -- Where no query fails, an institute that may not read a booking, because it is another's,
  -- approves it if it is pending: the row becomes verified in the name of that institute.
  verify_booking-foreign_institute :
      (auth : AuthContext) (id : ℕ) (req : VerifyBookingRequest) (b : BookingRow)
      → booking_row id w.tables ≡ some b
      → b.status ≡ pending_verification
      → auth.entity_type ≡ institute
      → b.institute_id ≢ auth.subject_id
      → action_of req.action req.status ≡ approve
      → ((get_booking env auth id w).0 ≡ err forbidden)
        × (booking_row id (verify_booking env auth id req w).1.tables
            ≡ some (approved env w auth b))
  unfolding get_booking may_access joined
  verify_booking-foreign_institute auth id req b found pending who other action = (
    simp (booking_by_id-found env reliable w id found) (ground arith),
    approves auth id req b found pending (rw who) action,
  )

validate_verify-cases :
    (req v : VerifyBookingRequest)
    → validate_verify req ≡ ok v
    → (action_of req.action req.status ≡ v.action)
      × (req.rejection_reason ≡ v.rejection_reason)
      × ((text_eq v.action approve || text_eq v.action reject) ≡ true)
unfolding validate_verify
validate_verify-cases req v e =
    elim (Bool-cases (
      text_eq (action_of req.action req.status) approve
      || text_eq (action_of req.action req.status) reject)) [
        | inl good ↦ (ground arith, ground arith, ground arith)
        | inr bad ↦ cc (rw bad at e)
      ]

-- Where no query fails, an administrator or institute that decides on a pending booking leaves it
-- approved if the request, once validated, says so, and rejected with its reason otherwise.
pub verify_booking-pending :
    (env : Env) (reliable : (n : ℕ) → env.query_fails n ≡ false) (w : World) (auth : AuthContext)
    (id : ℕ) (req v : VerifyBookingRequest) (b : BookingRow)
    → booking_row id w.tables ≡ some b
    → b.status ≡ pending_verification
    → (is_admin auth.entity_type || is_institute auth.entity_type) ≡ true
    → validate_verify req ≡ ok v
    → booking_row id (verify_booking env auth id req w).1.tables
      ≡ some (
          if text_eq v.action approve
          then approved env w auth b
          else refused env w auth v.rejection_reason b)
verify_booking-pending env reliable w auth id req v b found pending role valid =
    let (action, reason, known) = validate_verify-cases req v valid in
    elim (Bool-cases (text_eq v.action approve)) [
      | inl yea ↦ rw yea (
          approves env reliable w auth id req b found pending role
            (action ∙ text_eq_sound v.action approve yea))
      | inr nay ↦
          rw (nay, ← reason)
            (refuses env reliable w auth id req b found pending role
              (action ∙ text_eq_sound v.action reject (rw nay at known)))
    ]
