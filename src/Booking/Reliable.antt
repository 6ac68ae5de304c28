-- ===== src/Booking/Reliable.antt =====
-- What each statement does where no query fails: the equations by which the operations are run.
use adlts_core_engine.Prelude.{ℕ, suc, ◌+◌, ◌-◌, ◌≡◌, false, List, ◌∷◌, some, Text, arith}
use adlts_core_engine.Booking.Types.{AttemptStatus, BookingRow, Slot, Payment, Candidate}
use adlts_core_engine.Booking.World.{Tables, World, Env, ok, ticked, time_now, fetch, exec}
use adlts_core_engine.Booking.Repository.{
  BookingField, joined, booking_row, slot_row, candidate_row, latest_by_ref, touched, write_booking,
  write_slot, write_payment, booking_by_id, slot_by_id, update_booking_fields,
  increment_slot_booked_count, decrement_slot_booked_count, update_payment_status,
  payment_by_provider_ref, candidate_status_by_id,
}

-- The world after `n` ticks that wrote `t`.
abbrev pub after : World → ℕ → Tables → World
after w n t = record w { tables = t; tick = n }

-- Reading a booking takes one tick, whether or not it is found.
pub booking_by_id-ticked : (env : Env) (id : ℕ) (w : World) → (booking_by_id env id w).1 ≡ ticked w
unfolding booking_by_id fetch
booking_by_id-ticked env id w = ground arith

module _ (env : Env) (reliable : (n : ℕ) → env.query_fails n ≡ false) (w : World) where
  pub booking_by_id-found :
      (id : ℕ) {b : BookingRow}
      → booking_row id w.tables ≡ some b
      → booking_by_id env id w ≡ (ok (joined w.tables b), ticked w)
  unfolding booking_by_id fetch
  booking_by_id-found id e = simp (reliable, e)

  pub slot_by_id-found :
      (id : ℕ) {s : Slot} → slot_row id w.tables ≡ some s → slot_by_id env id w ≡ (ok s, ticked w)
  unfolding slot_by_id fetch
  slot_by_id-found id e = simp (reliable, e)

  pub update_booking_fields-done :
      (id : ℕ) (f : BookingField) (fs : List BookingField) (by : ℕ)
      → update_booking_fields env id (f ∷ fs) by w ≡ (
        ok tt,
        after w (suc w.tick) (write_booking id (touched (f ∷ fs) by (env.now w.tick)) w.tables),
      )
  unfolding update_booking_fields exec
  update_booking_fields-done id f fs by = simp reliable

  pub increment-done :
      (id : ℕ)
      → increment_slot_booked_count env id w ≡ (
        ok tt,
        after w (suc w.tick) (
            write_slot id
              (λ s. record s { booked_count = s.booked_count + 1; updated_at = env.now w.tick })
              w.tables),
      )
  unfolding increment_slot_booked_count exec
  increment-done id = simp reliable

  pub decrement-done :
      (id : ℕ)
      → decrement_slot_booked_count env id w ≡ (
        ok tt,
        after w (suc w.tick) (
            write_slot id
              (λ s. record s { booked_count = s.booked_count - 1; updated_at = env.now w.tick })
              w.tables),
      )
  unfolding decrement_slot_booked_count exec
  decrement-done id = simp reliable

  pub update_payment_status-done :
      (id : ℕ) (status : AttemptStatus)
      → update_payment_status env id status w ≡ (
        ok tt,
        after w (suc (suc w.tick)) (
            write_payment id
              (λ p. record p { status = status; updated_at = env.now w.tick })
              w.tables),
      )
  unfolding update_payment_status exec time_now
  update_payment_status-done id status = simp reliable

  pub payment_by_provider_ref-found :
      (ref : Text) {p : Payment}
      → latest_by_ref ref w.payments ≡ some p
      → payment_by_provider_ref env ref w ≡ (ok p, ticked w)
  unfolding payment_by_provider_ref fetch
  payment_by_provider_ref-found ref e = simp (reliable, e)

  pub candidate_status_by_id-found :
      (id : ℕ) {c : Candidate}
      → candidate_row id w.tables ≡ some c
      → candidate_status_by_id env id w ≡ (ok c.status, ticked w)
  unfolding candidate_status_by_id fetch
  candidate_status_by_id-found id e = simp (reliable, e)
