-- ===== src/Booking/Examples/Witnesses.antt =====
-- The theorems on histories, decisions, seats and listings at the samples.
use adlts_core_engine.Prelude.{
  pos, All, keep_if, ◌≤◌, ◌<◌, ◌≡◌, refl, [], ◌∷◌, none, some, codes, arith, find_by, update_by,
  count_if,
}
use adlts_core_engine.Booking.Types.{
  cancelled, pending_verification, verified, PaymentStatus, BookingRow, Slot, candidate, admin,
}
use adlts_core_engine.Booking.Requests.{
  VerifyBookingRequest, InitiatePaymentRequest, action_of, validate_verify, validate_payment,
}
use adlts_core_engine.Booking.World.{fetch, exec, exec_unless}
use adlts_core_engine.Booking.Repository.{
  booking_row, slot_row, joined, is_payment_of, booking_by_id, slot_by_id, candidate_status_by_id,
  update_booking_fields, increment_slot_booked_count,
}
use adlts_core_engine.Booking.Service.{verify_booking, schedule_booking, take_slot}
use adlts_core_engine.Booking.History.{pays, schedules, archives, step, run}
use adlts_core_engine.Booking.Invariant.{Sound}
use adlts_core_engine.Booking.Invariant.Histories.{
  step-Sound, run-within_capacity, run-three_payments,
}
use adlts_core_engine.Booking.Decisions.{approved, verify_booking-decided, verify_booking-pending}
use adlts_core_engine.Booking.Seats.{
  placed, seated, Schedulable, schedule_booking-books, take_slot-oversells,
}
use adlts_core_engine.Booking.Examples.Samples.{
  booking_in, slot_7, candidate_5, world_of, calm, calm_reliable, fourth_fails, person, boss,
  ask_slot, approval, pay_request,
}
use adlts_core_engine.Booking.Closed.Histories.{run-closed}
use adlts_core_engine.Booking.Types.{Booking}
use adlts_core_engine.Booking.Repository.{
  joined, list_bookings, matches_filter, sort, insert_sorted, page_of,
}
use adlts_core_engine.Booking.Service.{scope_filter, list_bookings_for}
use adlts_core_engine.Booking.Listing.{Shown, list_bookings_for-Shown}
use adlts_core_engine.Booking.Examples.Worlds.{pending_world, verified_world, Sound-world_of, calls}

run-within_capacity_example : 2 ≤ 2
unfolding run step schedule_booking booking_by_id slot_by_id candidate_status_by_id take_slot fetch
    exec exec_unless joined find_by update_by update_booking_fields increment_slot_booked_count
    adlts_core_engine.Booking.Requests.validate_slot
run-within_capacity_example =
    run-within_capacity calm verified_world (schedules boss 1 (ask_slot (codes "7")) ∷ []) 7
      (record slot_7 { booked_count = 2; updated_at = 1003 })
      (Sound-world_of (booking_in verified PaymentStatus.unpaid none) (omega arith)) refl

run-three_payments_example :
    count_if (is_payment_of 1) (run calm verified_world calls).tables.payments ≤ 3
run-three_payments_example =
    run-three_payments calm verified_world calls 1
      (Sound-world_of (booking_in verified PaymentStatus.unpaid none) (omega arith))

step-Sound_example : Sound (step calm verified_world (archives 1)).tables
step-Sound_example =
    step-Sound calm verified_world (archives 1)
      (Sound-world_of (booking_in verified PaymentStatus.unpaid none) (omega arith))

verify_booking-decided_example :
    (verify_booking fourth_fails boss 1 approval verified_world).1.tables ≡ verified_world.tables
unfolding find_by
verify_booking-decided_example =
    verify_booking-decided fourth_fails verified_world boss 1 approval
      (booking_in verified PaymentStatus.unpaid none) refl (λ e. cc e)

abbrev validated : VerifyBookingRequest
validated = record { action = codes "approve"; status = codes "Approved"; rejection_reason = [] }

verify_booking-pending_example :
    booking_row 1 (verify_booking calm boss 1 approval pending_world).1.tables
    ≡ some (
        approved calm pending_world boss
          (booking_in pending_verification PaymentStatus.unpaid none))
unfolding find_by action_of validate_verify
verify_booking-pending_example =
    verify_booking-pending calm calm_reliable pending_world boss 1 approval validated
      (booking_in pending_verification PaymentStatus.unpaid none) refl refl refl refl

abbrev fits :
    Schedulable calm verified_world boss 1 7
      (ask_slot (codes "7"))
      (booking_in verified PaymentStatus.unpaid none)
      candidate_5
      slot_7
unfolding find_by
fits = record {
  role = refl;
  given = refl;
  found = refl;
  status = refl;
  who = refl;
  active = refl;
  parsed = refl;
  seat = refl;
  free = refl;
}

schedule_booking-books_example :
    let t = (schedule_booking calm boss 1 (ask_slot (codes "7")) verified_world).1.tables in
    (booking_row 1 t
      ≡ some (placed 1004 7 slot_7 2 (booking_in verified PaymentStatus.unpaid none)))
    × (slot_row 7 t ≡ some (seated 1003 slot_7))
    × (t.payments ≡ verified_world.payments)
schedule_booking-books_example =
    schedule_booking-books calm calm_reliable verified_world boss 1 7 (ask_slot (codes "7"))
      (booking_in verified PaymentStatus.unpaid none) candidate_5 slot_7 fits

take_slot-oversells_example :
    let first = (schedule_booking calm boss 1 (ask_slot (codes "7")) verified_world).1 in
    (s : Slot) × (slot_row 7 (take_slot calm 4 7 slot_7 3 first).1.tables ≡ some s)
    × (s.capacity < s.booked_count)
take_slot-oversells_example =
    take_slot-oversells calm calm_reliable verified_world boss (person 3 admin) 1 4 7
      (ask_slot (codes "7")) (booking_in verified PaymentStatus.unpaid none) candidate_5 slot_7 fits
      refl

abbrev cancelled_booking : BookingRow
cancelled_booking = booking_in cancelled PaymentStatus.unpaid none

run-closed_example :
    booking_row 1
      (run calm (world_of cancelled_booking) (
        schedules boss 1 (ask_slot (codes "7"))
        ∷ pays (person 5 candidate) 1 pay_request
        ∷ [])).tables
    ≡ some cancelled_booking
unfolding find_by
run-closed_example =
    run-closed calm (world_of cancelled_booking) 1 cancelled_booking
      (schedules boss 1 (ask_slot (codes "7")) ∷ pays (person 5 candidate) 1 pay_request ∷ []) refl
      (refl, (refl, tt)) refl

list_bookings_for-Shown_example :
    All
      (λ (b : Booking). Shown (person 5 candidate) none b.row)
      (joined pending_world.tables (booking_in pending_verification PaymentStatus.unpaid none) ∷ [])
unfolding list_bookings_for list_bookings scope_filter fetch matches_filter keep_if sort
    insert_sorted page_of
list_bookings_for-Shown_example =
    list_bookings_for-Shown calm pending_world (person 5 candidate) none (pos 1) {n = 1} refl
