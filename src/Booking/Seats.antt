-- ===== src/Booking/Seats.antt =====
-- What `ScheduleBooking` and `RescheduleBooking` do to bookings and to the counts of the slots.
use adlts_core_engine.Prelude.{
  ℕ, suc, ◌+◌, ◌-◌, ◌<◌, ◌≡◌, ◌≢◌, refl, sym, true, false, ◌||◌, ◌&&◌, not, [], ◌∷◌, some, codes,
  text_eq, arith, ltb, is_empty, ◌==◌, eq_refl, find_by-update_by_ne, find_by-update_by_self,
}
use adlts_core_engine.Booking.Types.{
  BookingRow, Slot, Candidate, verified, scheduled, confirmed, PaymentStatus, AuthContext,
  already_processed, database,
}
use adlts_core_engine.Booking.Requests.{
  SlotRequest, InitiatePaymentRequest, validate_slot, validate_payment,
}
use adlts_core_engine.Booking.World.{World, Env, ok, err, ticked, fetch, exec, exec_unless}
use adlts_core_engine.Booking.Repository.{
  set_status, set_slot_id, set_scheduled_at, booking_row, slot_row, candidate_row, joined, touched,
  write_booking, write_slot, booking_by_id, slot_by_id, decrement_slot_booked_count,
  increment_slot_booked_count,
}
use adlts_core_engine.Booking.Service.{
  is_admin, is_candidate, may_reschedule, release_slot, take_slot, schedule_booking,
  reschedule_booking, initiate_payment,
}
use adlts_core_engine.Booking.Reliable.{
  after, booking_by_id-ticked, booking_by_id-found, slot_by_id-found, candidate_status_by_id-found,
  update_booking_fields-done, increment-done, decrement-done,
}

-- The row of a booking that was given a slot at the given time.
abbrev pub placed : ℕ → ℕ → Slot → ℕ → BookingRow → BookingRow
placed now slot_id slot by b = record b {
  slot_id = some slot_id;
  scheduled_at = some slot.starts_at;
  status = scheduled;
  updated_at = now;
  updated_by = by;
}

abbrev pub seated : ℕ → Slot → Slot
seated now s = record s { booked_count = s.booked_count + 1; updated_at = now }

abbrev pub vacated : ℕ → Slot → Slot
vacated now s = record s { booked_count = s.booked_count - 1; updated_at = now }

module _ (env : Env) (reliable : (n : ℕ) → env.query_fails n ≡ false) where
  -- The tables that `take_slot` leaves.
  take_slot-done :
      (w : World) (id slot_id : ℕ) (slot : Slot) (by : ℕ)
      → (take_slot env id slot_id slot by w).1.tables
        ≡ write_booking id
            (touched
              (set_slot_id slot_id ∷ set_scheduled_at slot.starts_at ∷ set_status scheduled ∷ [])
              by
              (env.now (suc w.tick)))
            (write_slot slot_id (seated (env.now w.tick)) w.tables)
  unfolding take_slot
  take_slot-done w id slot_id slot by =
      simp
        (increment-done env reliable, update_booking_fields-done env reliable, booking_by_id-ticked)

-- The guards of `ScheduleBooking` pass, with the rows that it reads.
pub record Schedulable (env : Env) (w : World) (auth : AuthContext) (id slot_id : ℕ)
    (req : SlotRequest) (b : BookingRow) (c : Candidate) (slot : Slot) : Type 0 where
  pub role : is_admin auth.entity_type ≡ true
  pub given : is_empty req.slot_id ≡ false
  pub found : booking_row id w.tables ≡ some b
  pub status : b.status ≡ verified
  pub who : candidate_row b.candidate_id w.tables ≡ some c
  pub active : text_eq c.status (codes "active") ≡ true
  pub parsed : env.parse_uuid req.slot_id ≡ some slot_id
  pub seat : slot_row slot_id w.tables ≡ some slot
  pub free : ltb slot.booked_count slot.capacity ≡ true

module _ (env : Env) (reliable : (n : ℕ) → env.query_fails n ≡ false) (w : World) where
  schedule_booking-reaches :
      (auth : AuthContext) (id slot_id : ℕ) (req : SlotRequest) (b : BookingRow) (c : Candidate)
      (slot : Slot)
      → Schedulable env w auth id slot_id req b c slot
      → (schedule_booking env auth id req w).1
        ≡ (take_slot env id slot_id slot auth.subject_id (ticked (ticked (ticked w)))).1
  unfolding schedule_booking validate_slot joined
  schedule_booking-reaches auth id slot_id req b c slot h = simp (
    h.given,
    h.role,
    booking_by_id-found env reliable w id h.found,
    h.status,
    candidate_status_by_id-found env reliable (ticked w) b.candidate_id h.who,
    h.active,
    h.parsed,
    slot_by_id-found env reliable (ticked (ticked w)) slot_id h.seat,
    h.free,
  )

  -- Where no query fails and the guards pass, scheduling leaves the booking in the slot, one more
  -- seat taken there, and every payment as it was.
  pub schedule_booking-books :
      (auth : AuthContext) (id slot_id : ℕ) (req : SlotRequest) (b : BookingRow) (c : Candidate)
      (slot : Slot)
      → Schedulable env w auth id slot_id req b c slot
      → let t = (schedule_booking env auth id req w).1.tables in
        (booking_row id t
          ≡ some (placed (env.now (suc (suc (suc (suc w.tick))))) slot_id slot auth.subject_id b))
        × (slot_row slot_id t ≡ some (seated (env.now (suc (suc (suc w.tick)))) slot))
        × (t.payments ≡ w.payments)
  schedule_booking-books auth id slot_id req b c slot h =
      rw
        (
          schedule_booking-reaches auth id slot_id req b c slot h,
          take_slot-done env reliable (ticked (ticked (ticked w))) id slot_id slot auth.subject_id,
        )
        (
          find_by-update_by_self (λ (r : BookingRow). r.id) id _ w.bookings (λ _. refl) h.found,
          find_by-update_by_self (λ (r : Slot). r.id) slot_id _ w.slots (λ _. refl) h.seat,
          refl,
        )

-- The guards of `RescheduleBooking` pass for an administrator or the candidate of the booking.
pub record Reschedulable (env : Env) (w : World) (auth : AuthContext) (id slot_id : ℕ)
    (req : SlotRequest) (b : BookingRow) (slot : Slot) : Type 0 where
  pub given : is_empty req.slot_id ≡ false
  pub found : booking_row id w.tables ≡ some b
  pub owner : not (is_candidate auth.entity_type && not (b.candidate_id == auth.subject_id)) ≡ true
  pub role : (is_admin auth.entity_type || is_candidate auth.entity_type) ≡ true
  pub status : may_reschedule b.status ≡ true
  pub parsed : env.parse_uuid req.slot_id ≡ some slot_id
  pub seat : slot_row slot_id w.tables ≡ some slot
  pub free : ltb slot.booked_count slot.capacity ≡ true

module _ (env : Env) (reliable : (n : ℕ) → env.query_fails n ≡ false) (w : World) where
  reschedule_booking-reaches :
      (auth : AuthContext) (id slot_id old : ℕ) (req : SlotRequest) (b : BookingRow) (slot : Slot)
      → Reschedulable env w auth id slot_id req b slot
      → b.slot_id ≡ some old
      → (reschedule_booking env auth id req w).1
        ≡ (take_slot env id slot_id slot auth.subject_id (
            after w
              (suc (suc (suc w.tick)))
              (write_slot old (vacated (env.now (suc (suc w.tick)))) w.tables))).1
  unfolding reschedule_booking validate_slot joined release_slot
  reschedule_booking-reaches auth id slot_id old req b slot h sits = simp (
    h.given,
    booking_by_id-found env reliable w id h.found,
    h.owner,
    h.role,
    h.status,
    h.parsed,
    slot_by_id-found env reliable (ticked w) slot_id h.seat,
    h.free,
    sits,
    decrement-done env reliable,
  )

  -- Where no query fails and the guards pass, moving a booking to another slot takes one seat
  -- there and gives one seat back in the slot that it had.
  reschedule_booking-moves :
      (auth : AuthContext) (id slot_id old : ℕ) (req : SlotRequest) (b : BookingRow)
      (slot left : Slot)
      → Reschedulable env w auth id slot_id req b slot
      → b.slot_id ≡ some old
      → slot_row old w.tables ≡ some left
      → slot_id ≢ old
      → let t = (reschedule_booking env auth id req w).1.tables in
        (booking_row id t
          ≡ some (placed (env.now (suc (suc (suc (suc w.tick))))) slot_id slot auth.subject_id b))
        × (slot_row slot_id t ≡ some (seated (env.now (suc (suc (suc w.tick)))) slot))
        × (slot_row old t ≡ some (vacated (env.now (suc (suc w.tick))) left))
  reschedule_booking-moves auth id slot_id old req b slot left h sits was other =
      rw
        (
          reschedule_booking-reaches auth id slot_id old req b slot h sits,
          take_slot-done env reliable
              (after w (suc (suc (suc w.tick)))
                (write_slot old (vacated (env.now (suc (suc w.tick)))) w.tables))
              id slot_id slot auth.subject_id,
        )
        (
          find_by-update_by_self (λ (r : BookingRow). r.id) id _ w.bookings (λ _. refl) h.found,
          find_by-update_by_self (λ (r : Slot). r.id) slot_id _ _ (λ _. refl)
              (find_by-update_by_ne (λ (r : Slot). r.id) slot_id old _ w.slots (λ _. refl) other
                h.seat),
          find_by-update_by_ne (λ (r : Slot). r.id) old slot_id _ _ (λ _. refl) (λ e. other (sym e))
              (find_by-update_by_self (λ (r : Slot). r.id) old _ w.slots (λ _. refl) was),
        )

  -- Where no query fails, rescheduling a confirmed booking that is paid takes its confirmation
  -- away, and paying again is refused to its candidate: the booking is scheduled and paid.
  reschedule_booking-unconfirms :
      (auth : AuthContext) (id slot_id old : ℕ) (req : SlotRequest) (b : BookingRow) (slot : Slot)
      (payer : AuthContext) (pay v : InitiatePaymentRequest)
      → Reschedulable env w auth id slot_id req b slot
      → b.slot_id ≡ some old
      → b.status ≡ confirmed
      → b.payment_status ≡ PaymentStatus.paid
      → payer.subject_id ≡ b.candidate_id
      → validate_payment pay ≡ ok v
      → let w' = (reschedule_booking env auth id req w).1 in
        (booking_row id w'.tables
          ≡ some (placed (env.now (suc (suc (suc (suc w.tick))))) slot_id slot auth.subject_id b))
        × ((initiate_payment env payer id pay w').0 ≡ err already_processed)
  unfolding initiate_payment joined
  reschedule_booking-unconfirms auth id slot_id old req b slot payer pay v h sits was paid own
        valid =
      let w' = (reschedule_booking env auth id req w).1 in
      let moved : booking_row id w'.tables
          ≡ some (placed (env.now (suc (suc (suc (suc w.tick))))) slot_id slot auth.subject_id b) =
        rw
          (
            reschedule_booking-reaches auth id slot_id old req b slot h sits,
            take_slot-done env reliable
                (after w (suc (suc (suc w.tick)))
                  (write_slot old (vacated (env.now (suc (suc w.tick)))) w.tables))
                id slot_id slot auth.subject_id,
          )
          (find_by-update_by_self (λ (r : BookingRow). r.id) id _ w.bookings (λ _. refl) h.found) in
      (
        moved,
        simp (
          valid,
          booking_by_id-found env reliable w' id moved,
          own,
          paid,
          eq_refl b.candidate_id,
        ),
      )

-- If the new slot cannot be counted after the old seat was given back (the query at that tick
-- fails), rescheduling fails and leaves the booking in its old slot, where its seat is counted no
-- more.
reschedule_booking-leaks :
    (env : Env) (w : World) (auth : AuthContext) (id slot_id old : ℕ) (req : SlotRequest)
    (b : BookingRow) (slot left : Slot)
    → env.query_fails w.tick ≡ false
    → env.query_fails (suc w.tick) ≡ false
    → env.query_fails (suc (suc w.tick)) ≡ false
    → env.query_fails (suc (suc (suc w.tick))) ≡ true
    → Reschedulable env w auth id slot_id req b slot
    → b.slot_id ≡ some old
    → slot_row old w.tables ≡ some left
    → let r = reschedule_booking env auth id req w in
      (r.0 ≡ err database)
      × (booking_row id r.1.tables ≡ some b)
      × (slot_row old r.1.tables ≡ some (vacated (env.now (suc (suc w.tick))) left))
unfolding reschedule_booking validate_slot joined release_slot take_slot booking_by_id slot_by_id
    fetch exec exec_unless increment_slot_booked_count decrement_slot_booked_count
reschedule_booking-leaks env w auth id slot_id old req b slot left q0 q1 q2 q3 h sits was =
    let kept =
      find_by-update_by_self (λ (r : Slot). r.id) old (vacated (env.now (suc (suc w.tick)))) w.slots
        (λ _. refl) was in
    simp
      (h.given, q0, h.found, h.owner, h.role, h.status, h.parsed, q1, h.seat, h.free, sits, q2, q3)
      (refl, refl, kept)

-- The last seat of a slot can be taken twice: where no query fails, a request whose guards passed
-- before another request took the seat goes on to take it, and the slot then counts more bookings
-- than it has seats.
pub take_slot-oversells :
    (env : Env) (reliable : (n : ℕ) → env.query_fails n ≡ false) (w : World)
    (auth late : AuthContext) (id id' slot_id : ℕ) (req : SlotRequest) (b : BookingRow)
    (c : Candidate) (slot : Slot)
    → Schedulable env w auth id slot_id req b c slot
    → slot.booked_count + 1 ≡ slot.capacity
    → let first = (schedule_booking env auth id req w).1 in
      let second = (take_slot env id' slot_id slot late.subject_id first).1 in
      (s : Slot) × (slot_row slot_id second.tables ≡ some s) × (s.capacity < s.booked_count)
take_slot-oversells env reliable w auth late id id' slot_id req b c slot h last =
    let first = (schedule_booking env auth id req w).1 in
    let (_, taken, _) = schedule_booking-books env reliable w auth id slot_id req b c slot h in
    (
      seated (env.now first.tick) (seated (env.now (suc (suc (suc w.tick)))) slot),
      rw (take_slot-done env reliable first id' slot_id slot late.subject_id)
          (find_by-update_by_self (λ (r : Slot). r.id) slot_id _ first.slots (λ _. refl) taken),
      omega arith,
    )
