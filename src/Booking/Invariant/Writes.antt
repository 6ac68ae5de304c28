-- ===== src/Booking/Invariant/Writes.antt =====
-- Each statement that writes keeps the tables sound.
use adlts_core_engine.Prelude.{
  ℕ, ◌+◌, ◌-◌, ◌≤◌, ◌<◌, ◌≡◌, refl, not, List, [], ◌∷◌, ◌++◌, none, some, arith, ◌==◌, All,
  All-append, All-keep_if, All-update_by, All-update_by_found, keep_if, find_by, find_by-Absent,
  Distinct, Distinct-append, Distinct-update_by, Distinct-keep_if,
}
use adlts_core_engine.Booking.Types.{AttemptStatus, BookingRow, Slot, Payment}
use adlts_core_engine.Booking.World.{Tables}
use adlts_core_engine.Booking.Repository.{
  BookingField, set_status, set_payment_attempts, assign, assign_all, touched, write_booking,
  write_slot, write_payment, slot_row, is_payment_of, latest_attempt,
}
use adlts_core_engine.Booking.Service.{max_attempts}
use adlts_core_engine.Booking.Invariant.WellFormed.{
  WithinCapacity, AttemptInRange, FewAttempts, AttemptsGrow, Sound,
}
use adlts_core_engine.Booking.Invariant.Attempts.{
  AttemptsGrow-append, AttemptsGrow-update_by, AttemptsGrow-keep_if,
}

-- The assignments leave the key alone, and write no more attempts than are allowed.
abbrev pub IsMild : BookingField → Type 0
IsMild (set_payment_attempts n) = n ≤ max_attempts
IsMild _ = Unit

assign-id : (f : BookingField) (b : BookingRow) → (assign f b).id ≡ b.id
assign-id (set_status v) b = refl
assign-id _ b = refl

pub assign_all-id : (fs : List BookingField) (b : BookingRow) → (assign_all fs b).id ≡ b.id
assign_all-id [] b = refl
assign_all-id (f ∷ fs) b = rw (assign_all-id fs (assign f b)) (assign-id f b)

assign-FewAttempts :
    (f : BookingField) (b : BookingRow) → IsMild f → FewAttempts b → FewAttempts (assign f b)
assign-FewAttempts (set_payment_attempts n) b m h = m
assign-FewAttempts _ b m h = h

assign_all-FewAttempts :
    (fs : List BookingField) (b : BookingRow)
    → All IsMild fs
    → FewAttempts b
    → FewAttempts (assign_all fs b)
assign_all-FewAttempts [] b m h = h
assign_all-FewAttempts (f ∷ fs) b m h =
    assign_all-FewAttempts fs (assign f b) m.1 (assign-FewAttempts f b m.0 h)

module _ (t : Tables) (s : Sound t) where
  pub write_booking-Sound :
      (id : ℕ) (fs : List BookingField) (by now : ℕ)
      → All IsMild fs
      → Sound (write_booking id (touched fs by now) t)
  write_booking-Sound id fs by now mild = record {
    booking_keys =
        Distinct-update_by (λ (b : BookingRow). b.id) id (touched fs by now) t.bookings
          (assign_all-id fs) s.booking_keys;
    slot_keys = s.slot_keys;
    payment_keys = s.payment_keys;
    capacity = s.capacity;
    attempt_range = s.attempt_range;
    attempts_grow = s.attempts_grow;
    few_attempts =
        All-update_by (λ (b : BookingRow). b.id) FewAttempts id (touched fs by now) t.bookings
          (λ b h. assign_all-FewAttempts fs b mild h) s.few_attempts;
  }

  pub insert_booking-Sound :
      (b : BookingRow)
      → find_by (λ (r : BookingRow). r.id) b.id t.bookings ≡ none
      → FewAttempts b
      → Sound (record t { bookings = t.bookings ++ b ∷ [] })
  insert_booking-Sound b fresh few = record {
    booking_keys =
        Distinct-append (λ (r : BookingRow). r.id) t.bookings b
          (find_by-Absent (λ (r : BookingRow). r.id) b.id t.bookings fresh) s.booking_keys;
    slot_keys = s.slot_keys;
    payment_keys = s.payment_keys;
    capacity = s.capacity;
    attempt_range = s.attempt_range;
    attempts_grow = s.attempts_grow;
    few_attempts = All-append FewAttempts t.bookings (b ∷ []) s.few_attempts (few, tt);
  }

  with_slots-Sound :
      (slots : List Slot)
      → Distinct (λ (r : Slot). r.id) slots
      → All WithinCapacity slots
      → Sound (record t { slots = slots })
  with_slots-Sound slots keys within = record {
    booking_keys = s.booking_keys;
    slot_keys = keys;
    payment_keys = s.payment_keys;
    capacity = within;
    attempt_range = s.attempt_range;
    attempts_grow = s.attempts_grow;
    few_attempts = s.few_attempts;
  }

  pub insert_slot-Sound :
      (r : Slot)
      → find_by (λ (r : Slot). r.id) r.id t.slots ≡ none
      → WithinCapacity r
      → Sound (record t { slots = t.slots ++ r ∷ [] })
  insert_slot-Sound r fresh within =
      with_slots-Sound _
        (Distinct-append (λ (r : Slot). r.id) t.slots r
          (find_by-Absent (λ (r : Slot). r.id) r.id t.slots fresh) s.slot_keys)
        (All-append WithinCapacity t.slots (r ∷ []) s.capacity (within, tt))

  -- A seat is taken only where one was read to be free.
  pub increment-Sound :
      (id now : ℕ) (r : Slot)
      → slot_row id t ≡ some r
      → r.booked_count < r.capacity
      → Sound
          (write_slot id (λ r. record r { booked_count = r.booked_count + 1; updated_at = now }) t)
  increment-Sound id now r found free =
      with_slots-Sound _
        (Distinct-update_by (λ (r : Slot). r.id) id _ t.slots (λ _. refl) s.slot_keys)
        (All-update_by_found (λ (r : Slot). r.id) WithinCapacity id _ t.slots s.slot_keys found
          (omega arith) s.capacity)

  pub decrement-Sound :
      (id now : ℕ)
      → Sound
          (write_slot id (λ r. record r { booked_count = r.booked_count - 1; updated_at = now }) t)
  decrement-Sound id now =
      with_slots-Sound _
        (Distinct-update_by (λ (r : Slot). r.id) id _ t.slots (λ _. refl) s.slot_keys)
        (All-update_by (λ (r : Slot). r.id) WithinCapacity id _ t.slots (λ r h. omega arith)
          s.capacity)

  with_payments-Sound :
      (ps : List Payment)
      → Distinct (λ (p : Payment). p.id) ps
      → All AttemptInRange ps
      → AttemptsGrow ps
      → Sound (record t { payments = ps })
  with_payments-Sound ps keys range grow = record {
    booking_keys = s.booking_keys;
    slot_keys = s.slot_keys;
    payment_keys = keys;
    capacity = s.capacity;
    attempt_range = range;
    attempts_grow = grow;
    few_attempts = s.few_attempts;
  }

  -- A payment is made under the number behind the latest, if that is still allowed.
  pub insert_payment-Sound :
      (p : Payment)
      → find_by (λ (r : Payment). r.id) p.id t.payments ≡ none
      → p.attempt_number ≡ latest_attempt p.booking_id t.payments + 1
      → p.attempt_number ≤ max_attempts
      → Sound (record t { payments = t.payments ++ p ∷ [] })
  insert_payment-Sound p fresh next few =
      with_payments-Sound _
        (Distinct-append (λ (r : Payment). r.id) t.payments p
          (find_by-Absent (λ (r : Payment). r.id) p.id t.payments fresh) s.payment_keys)
        (All-append AttemptInRange t.payments (p ∷ []) s.attempt_range ((omega arith, few), tt))
        (AttemptsGrow-append t.payments p next s.attempts_grow)

  pub write_payment-Sound :
      (id now : ℕ) (status : AttemptStatus)
      → Sound (write_payment id (λ p. record p { status = status; updated_at = now }) t)
  write_payment-Sound id now status =
      with_payments-Sound _
        (Distinct-update_by (λ (p : Payment). p.id) id _ t.payments (λ _. refl) s.payment_keys)
        (All-update_by (λ (p : Payment). p.id) AttemptInRange id _ t.payments (λ p h. h)
          s.attempt_range)
        (AttemptsGrow-update_by id _ (λ p. (refl, refl)) t.payments s.attempts_grow)

  pub delete-Sound :
      (id : ℕ)
      → Sound (record t {
        bookings = keep_if (λ (b : BookingRow). not (b.id == id)) t.bookings;
        payments = keep_if (λ p. not (is_payment_of id p)) t.payments;
      })
  delete-Sound id = record {
    booking_keys = Distinct-keep_if (λ (b : BookingRow). b.id) _ t.bookings s.booking_keys;
    slot_keys = s.slot_keys;
    payment_keys = Distinct-keep_if (λ (p : Payment). p.id) _ t.payments s.payment_keys;
    capacity = s.capacity;
    attempt_range = All-keep_if AttemptInRange _ t.payments s.attempt_range;
    attempts_grow = AttemptsGrow-keep_if _ t.payments s.attempts_grow;
    few_attempts = All-keep_if FewAttempts _ t.bookings s.few_attempts;
  }
