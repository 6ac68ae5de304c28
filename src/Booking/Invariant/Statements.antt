-- ===== src/Booking/Invariant/Statements.antt =====
-- Triples for the statements that write: each keeps the tables sound, and says what it needs.
use adlts_core_engine.Prelude.{
  ℕ, ◌+◌, ◌≤◌, ◌<◌, ◌≡◌, refl, false, List, [], ◌∷◌, Option, none, some, find_by-update_by, All,
  arith, ◌-◌, ◌==◌, if◌then◌else◌,
}
use adlts_core_engine.Booking.Types.{AttemptStatus, BookingRow, Slot, Payment}
use adlts_core_engine.Booking.World.{Tables, World, Result, Env}
use adlts_core_engine.Booking.Repository.{
  BookingField, slot_row, latest_attempt, is_some, write_slot, create_booking,
  update_booking_fields, delete_booking_row, create_slot_row, increment_slot_booked_count,
  decrement_slot_booked_count, create_payment, update_payment_status, insert_row,
}
use adlts_core_engine.Booking.Service.{max_attempts}
use adlts_core_engine.Booking.Triple.{
  Triple, bind_t, pure_t, weaken_t, exec_t, exec_unless_t, time_now_t, uuid_new_t,
}
use adlts_core_engine.Booking.Reads.{booking_by_id_t}
use adlts_core_engine.Booking.Invariant.WellFormed.{WithinCapacity, FewAttempts, Sound}
use adlts_core_engine.Booking.Invariant.Writes.{
  IsMild, write_booking-Sound, insert_booking-Sound, insert_slot-Sound, increment-Sound,
  decrement-Sound, insert_payment-Sound, write_payment-Sound, delete-Sound,
}

-- An operation that starts with sound tables and leaves them sound, whether it succeeds or fails.
abbrev pub Keeps : {A : Type 0} → (World → Result A × World) → Type 0
Keeps m = Triple Sound Sound m (λ _. Sound)

none_of_is_some : {A : Type 0} (o : Option A) → is_some o ≡ false → o ≡ none
none_of_is_some none e = refl
none_of_is_some (some a) e = cc

-- A slot of which a seat may be taken.
abbrev pub HasRoom : ℕ → Tables → Type 0
HasRoom id t = (r : Slot) × (slot_row id t ≡ some r) × (r.booked_count < r.capacity)

decrement-HasRoom :
    (t : Tables) (id other now : ℕ)
    → HasRoom id t
    → HasRoom id
        (write_slot other (λ r. record r { booked_count = r.booked_count - 1; updated_at = now }) t)
decrement-HasRoom t id other now (r, found, free) = (
  if id == other then record r { booked_count = r.booked_count - 1; updated_at = now } else r,
  find_by-update_by (λ (r : Slot). r.id) id other _ t.slots (λ _. refl) found,
  ground arith,
)

module _ (env : Env) where
  pub update_booking_fields_t :
      {P : Tables → Type 0} (weak : (t : Tables) → P t → Sound t) (id : ℕ) (fs : List BookingField)
      (by : ℕ)
      → ((t : Tables) → P t → All IsMild fs)
      → Triple Sound P (update_booking_fields env id fs by) (λ _. Sound)
  unfolding update_booking_fields
  update_booking_fields_t weak id [] by mild = pure_t tt weak
  update_booking_fields_t weak id (f ∷ fs) by mild =
      exec_t weak env _ λ now t p. write_booking-Sound t (weak t p) id (f ∷ fs) by now (mild t p)

  pub create_booking_t : (b : BookingRow) (by : ℕ) → FewAttempts b → Keeps (create_booking env b by)
  unfolding create_booking insert_row
  create_booking_t b by few = bind_t (uuid_new_t env) λ id. bind_t (time_now_t env) λ now.
      bind_t
        (exec_unless_t (λ t s. s) env _ _
          λ _ t s clear. insert_booking-Sound t s _ (none_of_is_some _ clear) few)
        λ _. weaken_t (booking_by_id_t (λ t s. s) env id) (λ _ t h. h.0)

  pub delete_booking_row_t :
      {P : Tables → Type 0} (weak : (t : Tables) → P t → Sound t) (id : ℕ)
      → Triple Sound P (delete_booking_row env id) (λ _. Sound)
  unfolding delete_booking_row
  delete_booking_row_t weak id = exec_t weak env _ λ now t p. delete-Sound t (weak t p) id

  pub create_slot_row_t : (s : Slot) → WithinCapacity s → Keeps (create_slot_row env s)
  unfolding create_slot_row insert_row
  create_slot_row_t s within = bind_t (uuid_new_t env) λ id. bind_t (time_now_t env) λ now.
      bind_t
        (exec_unless_t (λ t s. s) env _ _
          λ _ t s clear. insert_slot-Sound t s _ (none_of_is_some _ clear) within)
        λ _. pure_t _ (λ t s. s)

  pub increment_slot_booked_count_t :
      {P : Tables → Type 0} (weak : (t : Tables) → P t → Sound t) (id : ℕ)
      → ((t : Tables) → P t → HasRoom id t)
      → Triple Sound P (increment_slot_booked_count env id) (λ _. Sound)
  unfolding increment_slot_booked_count
  increment_slot_booked_count_t weak id room =
      exec_t weak env _ λ now t p.
        let (r, found, free) = room t p in increment-Sound t (weak t p) id now r found free

  -- Giving a seat back leaves room where there was room.
  pub decrement-HasRoom_t :
      (id other : ℕ)
      → Triple
          (λ t. Sound t × HasRoom id t)
          (λ t. Sound t × HasRoom id t)
          (decrement_slot_booked_count env other)
          (λ _ t. Sound t × HasRoom id t)
  unfolding decrement_slot_booked_count
  decrement-HasRoom_t id other =
      exec_t (λ t h. h) env _
        λ now t h. (decrement-Sound t h.0 other now, decrement-HasRoom t id other now h.1)

  pub decrement_slot_booked_count_t : (id : ℕ) → Keeps (decrement_slot_booked_count env id)
  unfolding decrement_slot_booked_count
  decrement_slot_booked_count_t id = exec_t (λ t s. s) env _ λ now t s. decrement-Sound t s id now

  pub create_payment_t :
      {P : Tables → Type 0} (weak : (t : Tables) → P t → Sound t) (p : Payment)
      → ((t : Tables) → P t → p.attempt_number ≡ latest_attempt p.booking_id t.payments + 1)
      → ((t : Tables) → P t → p.attempt_number ≤ max_attempts)
      → Triple Sound P (create_payment env p) (λ _. Sound)
  unfolding create_payment insert_row
  create_payment_t weak p next few = bind_t (uuid_new_t env) λ id. bind_t (time_now_t env) λ now.
      bind_t
        (exec_unless_t weak env _ _ λ _ t h clear.
          insert_payment-Sound t (weak t h) _ (none_of_is_some _ clear) (next t h) (few t h))
        λ _. pure_t _ (λ t s. s)

  pub update_payment_status_t :
      (id : ℕ) (status : AttemptStatus) → Keeps (update_payment_status env id status)
  unfolding update_payment_status
  update_payment_status_t id status =
      bind_t (time_now_t env)
        λ now. exec_t (λ t s. s) env _ λ _ t s. write_payment-Sound t s id now status
