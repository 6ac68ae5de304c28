-- ===== src/Booking/Invariant/WellFormed.antt =====
-- The well-formedness of the booking tables.
use adlts_core_engine.Prelude.{◌≤◌, ◌<◌, ◌≡◌, List, [], ◌∷◌, All, Distinct}
use adlts_core_engine.Booking.Types.{BookingRow, Slot, Payment}
use adlts_core_engine.Booking.World.{Tables}
use adlts_core_engine.Booking.Service.{max_attempts}

abbrev pub WithinCapacity : Slot → Type 0
WithinCapacity s = s.booked_count ≤ s.capacity

abbrev pub AttemptInRange : Payment → Type 0
AttemptInRange p = (1 ≤ p.attempt_number) × (p.attempt_number ≤ max_attempts)

abbrev pub FewAttempts : BookingRow → Type 0
FewAttempts b = b.payment_attempts ≤ max_attempts

-- The later row is no earlier attempt at paying the same booking.
abbrev pub After : Payment → Payment → Type 0
After p q = q.booking_id ≡ p.booking_id → p.attempt_number < q.attempt_number

-- The attempts at paying one booking grow along the table.
abbrev pub AttemptsGrow : List Payment → Type 0
AttemptsGrow [] = Unit
AttemptsGrow (p ∷ ps) = All (After p) ps × AttemptsGrow ps

pub record Sound (t : Tables) : Type 0 where
  pub booking_keys : Distinct (λ (b : BookingRow). b.id) t.bookings
  pub slot_keys : Distinct (λ (s : Slot). s.id) t.slots
  pub payment_keys : Distinct (λ (p : Payment). p.id) t.payments
  pub capacity : All WithinCapacity t.slots
  pub attempt_range : All AttemptInRange t.payments
  pub attempts_grow : AttemptsGrow t.payments
  pub few_attempts : All FewAttempts t.bookings
