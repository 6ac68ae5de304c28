-- ===== src/Booking/Repository/Queries.antt =====
-- The methods of `Repository`. A missing row is its own error; any other failure of the database
-- is `database`.
use adlts_core_engine.Prelude.{
  ℕ, ◌+◌, ◌-◌, ◌*◌, Bool, true, false, not, List, [], ◌∷◌, ◌++◌, map, Option, none, some, Text, ℤ,
  ◌==◌, ltb, leb, if◌then◌else◌, find_by, update_by, keep_if, length, take, drop, to_ℕ,
}
use adlts_core_engine.Booking.Types.{
  AttemptStatus, BookingRow, Booking, Slot, Payment, Candidate, Institute, booking_not_found,
  slot_not_found, payment_not_found, candidate_not_found, test_center_not_set,
}
use adlts_core_engine.Booking.World.{
  Tables, World, Env, Result, ok, err, TestCreationDetails, M, pure, ◌>>=◌, ◌>>◌, from_option,
  fetch, exec, exec_unless, time_now, uuid_new,
}
use adlts_core_engine.Booking.Repository.Rows.{
  BookingField, assign_all, joined, booking_row, slot_row, candidate_row, BookingFilter,
  matches_filter, sort, is_payment_of, latest_attempt, latest_by_ref, creation_details,
}

-- `updateFields` on a row: the assignments of the map, then the audit columns.
abbrev pub touched : List BookingField → ℕ → ℕ → BookingRow → BookingRow
touched fields updated_by now b = record (assign_all fields b) {
  updated_at = now;
  updated_by = updated_by;
}

abbrev pub write_booking : ℕ → (BookingRow → BookingRow) → Tables → Tables
write_booking id f w = record w { bookings = update_by (λ (r : BookingRow). r.id) id f w.bookings }

abbrev pub write_slot : ℕ → (Slot → Slot) → Tables → Tables
write_slot id f w = record w { slots = update_by (λ (r : Slot). r.id) id f w.slots }

abbrev pub write_payment : ℕ → (Payment → Payment) → Tables → Tables
write_payment id f w = record w { payments = update_by (λ (r : Payment). r.id) id f w.payments }

-- The rows of one page of 20; a page below the first is the first.
unfoldable pub page_of {ℓ} : {A : Type ℓ} → ℤ → List A → List A
page_of page xs =
    let p = if ltb (to_ℕ page) 1 then 1 else to_ℕ page in take 20 (drop ((p - 1) * 20) xs)

abbrev pub map_some {ℓ κ} : {A : Type ℓ} {B : Type κ} → (A → B) → Option A → Option B
map_some f none = none
map_some f (some a) = some (f a)

-- A count whose failure is ignored.
abbrev pub or_zero : Result ℕ × World → Result ℕ × World
or_zero (ok n, w) = (ok n, w)
or_zero (err e, w) = (ok 0, w)

abbrev pub is_some {ℓ} : {A : Type ℓ} → Option A → Bool
is_some none = false
is_some (some a) = true

-- `INSERT INTO`: the primary key refuses an id that is taken.
unfoldable pub insert_row :
    Env → {A : Type 0} → (A → ℕ) → (Tables → List A) → (List A → Tables → Tables) → A → M (Unit {0})
insert_row env key get put row =
    exec_unless env (λ w. is_some (find_by key (key row) (get w)))
      (λ _ w. put (get w ++ row ∷ []) w)

module _ (env : Env) where
  unfoldable pub booking_by_id : ℕ → M Booking
  booking_by_id id = do
    found ← fetch env (λ w. map_some (joined w) (booking_row id w))
    from_option found booking_not_found

  unfoldable pub create_booking : BookingRow → ℕ → M Booking
  create_booking b created_by = do
    id ← uuid_new env
    now ← time_now env
    let row = record b {
      id = id;
      created_at = now;
      updated_at = now;
      created_by = created_by;
      updated_by = created_by;
    }
    insert_row env (λ (r : BookingRow). r.id) (λ w. w.bookings)
        (λ rows w. record w { bookings = rows }) row
    booking_by_id id

  unfoldable pub list_bookings : BookingFilter → ℤ → M (List Booking × ℕ)
  list_bookings f page = do
    found ← fetch env (λ w. map (joined w) (
        page_of page (
          sort (λ (a b : BookingRow). leb b.created_at a.created_at)
            (keep_if (matches_filter f) w.bookings))))
    total ← λ w. or_zero (fetch env (λ v. length (keep_if (matches_filter f) v.bookings)) w)
    pure (found, total)

  unfoldable pub update_booking_fields : ℕ → List BookingField → ℕ → M (Unit {0})
  update_booking_fields id [] updated_by = pure tt
  update_booking_fields id (f ∷ fs) updated_by =
      exec env (λ now. write_booking id (touched (f ∷ fs) updated_by now))

  -- The foreign key of `payments` cascades.
  unfoldable pub delete_booking_row : ℕ → M (Unit {0})
  delete_booking_row id = exec env (λ _ w. record w {
    bookings = keep_if (λ (b : BookingRow). not (b.id == id)) w.bookings;
    payments = keep_if (λ p. not (is_payment_of id p)) w.payments;
  })

  unfoldable pub create_slot_row : Slot → M Slot
  create_slot_row s = do
    id ← uuid_new env
    now ← time_now env
    let row = record s { id = id; created_at = now; updated_at = now }
    insert_row env (λ (r : Slot). r.id) (λ w. w.slots) (λ rows w. record w { slots = rows }) row
    pure row

  unfoldable pub slot_by_id : ℕ → M Slot
  slot_by_id id = do found ← fetch env (slot_row id); from_option found slot_not_found

  unfoldable pub list_slot_rows : ℕ → ℤ → M (List Slot × ℕ)
  list_slot_rows institute page = do
    found ← fetch env (λ w. page_of page (
        sort (λ (a b : Slot). leb a.starts_at b.starts_at)
          (keep_if (λ (s : Slot). s.institute_id == institute) w.slots)))
    total ← λ w.
        or_zero
          (fetch env (λ v. length (keep_if (λ (s : Slot). s.institute_id == institute) v.slots)) w)
    pure (found, total)

  unfoldable pub increment_slot_booked_count : ℕ → M (Unit {0})
  increment_slot_booked_count id =
      exec env (λ now.
        write_slot id (λ s. record s { booked_count = s.booked_count + 1; updated_at = now }))

  -- `GREATEST(booked_count - 1, 0)` is the subtraction of ℕ.
  unfoldable pub decrement_slot_booked_count : ℕ → M (Unit {0})
  decrement_slot_booked_count id =
      exec env (λ now.
        write_slot id (λ s. record s { booked_count = s.booked_count - 1; updated_at = now }))

  unfoldable pub create_payment : Payment → M Payment
  create_payment p = do
    id ← uuid_new env
    now ← time_now env
    let row = record p { id = id; created_at = now; updated_at = now }
    insert_row env (λ (r : Payment). r.id) (λ w. w.payments)
        (λ rows w. record w { payments = rows }) row
    pure row

  unfoldable pub payment_by_provider_ref : Text → M Payment
  payment_by_provider_ref ref = do
    found ← fetch env (λ w. latest_by_ref ref w.payments)
    from_option found payment_not_found

  unfoldable pub list_payments_by_booking : ℕ → M (List Payment)
  list_payments_by_booking id = fetch env (λ w.
      sort (λ (a b : Payment). leb a.attempt_number b.attempt_number)
        (keep_if (is_payment_of id) w.payments))

  -- The only column that the callers pass in the map is `status`.
  unfoldable pub update_payment_status : ℕ → AttemptStatus → M (Unit {0})
  update_payment_status id status = do
    now ← time_now env
    exec env (λ _. write_payment id (λ p. record p { status = status; updated_at = now }))

  unfoldable pub latest_payment_attempt_number : ℕ → M ℕ
  latest_payment_attempt_number id = fetch env (λ w. latest_attempt id w.payments)

  unfoldable pub test_creation_details : ℕ → M TestCreationDetails
  test_creation_details id = do
    found ← fetch env (λ w. map_some (creation_details w) (booking_row id w))
    details ← from_option found booking_not_found
    from_option details test_center_not_set

  unfoldable pub candidate_contact_by_id : ℕ → M Candidate
  candidate_contact_by_id id = do
    found ← fetch env (candidate_row id)
    from_option found candidate_not_found

  unfoldable pub institute_exists : ℕ → M Bool
  institute_exists id = fetch env (λ w. elim (find_by (λ (i : Institute). i.id) id w.institutes) [
    | none ↦ false
    | some _ ↦ true
  ])

  unfoldable pub candidate_status_by_id : ℕ → M Text
  candidate_status_by_id id = do
    found ← fetch env (candidate_row id)
    c ← from_option found candidate_not_found
    pure c.status
