-- ===== src/Booking/Invariant/Histories.antt =====
-- Every history of calls keeps the tables sound, and so keeps the bounds on seats and payments.
use adlts_core_engine.Prelude.{ℕ, ◌≤◌, ◌≡◌, List, [], ◌∷◌, some, count_if, find_by-All}
use adlts_core_engine.Booking.Types.{Slot}
use adlts_core_engine.Booking.World.{World, Env}
use adlts_core_engine.Booking.Repository.{is_payment_of, slot_row}
use adlts_core_engine.Booking.History.{
  Call, creates, verifies, schedules, reschedules, deletes, archives, pays, retries, settles,
  opens_slot, step, run,
}
use adlts_core_engine.Booking.Triple.{tables_t}
use adlts_core_engine.Booking.Invariant.WellFormed.{WithinCapacity, Sound}
use adlts_core_engine.Booking.Invariant.Attempts.{count-attempts}
use adlts_core_engine.Booking.Invariant.Lifecycle.{
  create_booking_for_t, verify_booking_t, schedule_booking_t, reschedule_booking_t,
  delete_booking_t, archive_booking_t, create_slot_t,
}
use adlts_core_engine.Booking.Invariant.Payment.{
  initiate_payment_t, handle_chapa_transaction_t, retry_payment_t,
}

module _ (env : Env) where
  -- Every call, successful or not, leaves sound tables behind sound tables.
  pub step-Sound : (w : World) (c : Call) → Sound w.tables → Sound (step env w c).tables
  unfolding step
  step-Sound w (creates k req) s = tables_t (create_booking_for_t env k req) w s
  step-Sound w (verifies a id req) s = tables_t (verify_booking_t env a id req) w s
  step-Sound w (schedules a id req) s = tables_t (schedule_booking_t env a id req) w s
  step-Sound w (reschedules a id req) s = tables_t (reschedule_booking_t env a id req) w s
  step-Sound w (deletes a id) s = tables_t (delete_booking_t env a id) w s
  step-Sound w (archives id) s = tables_t (archive_booking_t env id) w s
  step-Sound w (pays a id req) s = tables_t (initiate_payment_t env a id req) w s
  step-Sound w (retries a id req) s = tables_t (retry_payment_t env a id req) w s
  step-Sound w (settles id ref) s = tables_t (handle_chapa_transaction_t env id ref) w s
  step-Sound w (opens_slot a req) s = tables_t (create_slot_t env a req) w s

  run-Sound : (w : World) (cs : List Call) → Sound w.tables → Sound (run env w cs).tables
  unfolding run
  run-Sound w [] s = s
  run-Sound w (c ∷ cs) s = run-Sound (step env w c) cs (step-Sound w c s)

  -- After any history of calls made one after another, from sound tables, no slot that is read has
  -- more bookings counted than it has seats.
  pub run-within_capacity :
      (w : World) (cs : List Call) (id : ℕ) (slot : Slot)
      → Sound w.tables
      → slot_row id (run env w cs).tables ≡ some slot
      → slot.booked_count ≤ slot.capacity
  run-within_capacity w cs id slot s found =
      find_by-All (λ (r : Slot). r.id) WithinCapacity id _ (run-Sound w cs s).capacity found

  -- After any history of calls made one after another, from sound tables, a booking has at most
  -- three payments, whatever failed on the way.
  pub run-three_payments :
      (w : World) (cs : List Call) (id : ℕ)
      → Sound w.tables
      → count_if (is_payment_of id) (run env w cs).tables.payments ≤ 3
  run-three_payments w cs id s =
      count-attempts id _ (run-Sound w cs s).attempt_range (run-Sound w cs s).attempts_grow
