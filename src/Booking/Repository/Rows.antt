-- ===== src/Booking/Repository/Rows.antt =====
-- What the statements compute from rows: assignments of columns, joins, orders and filters.
use adlts_core_engine.Prelude.{
  ℕ, Bool, true, false, ◌&&◌, List, [], ◌∷◌, ◌++◌, Option, none, some, Text, codes, text_eq,
  is_empty, ℤ, ◌==◌, ltb, if◌then◌else◌, find_by,
}
use adlts_core_engine.Booking.Types.{
  BookingStatus, PaymentStatus, BookingRow, Booking, Slot, Payment, Candidate, Institute, is_status,
}
use adlts_core_engine.Booking.World.{Tables, TestCreationDetails}

-- An entry of the map that `UpdateBookingFields` takes: a column and its new value.
pub data BookingField : Type 0 where
  set_status : BookingStatus → BookingField
  set_verified_by set_verified_at set_slot_id set_scheduled_at : ℕ → BookingField
  set_archived_at set_test_id set_payment_attempts : ℕ → BookingField
  set_rejection_reason set_payment_ref : Text → BookingField
  set_payment_status : PaymentStatus → BookingField
  set_payment_amount_cents : ℤ → BookingField

abbrev pub assign : BookingField → BookingRow → BookingRow
assign (set_status v) b = record b { status = v }
assign (set_verified_by v) b = record b { verified_by = some v }
assign (set_verified_at v) b = record b { verified_at = some v }
assign (set_slot_id v) b = record b { slot_id = some v }
assign (set_scheduled_at v) b = record b { scheduled_at = some v }
assign (set_archived_at v) b = record b { archived_at = some v }
assign (set_test_id v) b = record b { test_id = some v }
assign (set_payment_attempts v) b = record b { payment_attempts = v }
assign (set_rejection_reason v) b = record b { rejection_reason = some v }
assign (set_payment_ref v) b = record b { payment_ref = some v }
assign (set_payment_status v) b = record b { payment_status = v }
assign (set_payment_amount_cents v) b = record b { payment_amount_cents = some v }

abbrev pub assign_all : List BookingField → BookingRow → BookingRow
assign_all [] b = b
assign_all (f ∷ fs) b = assign_all fs (assign f b)

-- `concat_ws(' ', first, NULLIF(middle, ''), last)`.
unfoldable pub full_name : Candidate → Text
full_name c =
    c.first_name
    ++ (if is_empty c.middle_name then [] else codes " " ++ c.middle_name)
    ++ codes " "
    ++ c.last_name

-- `concat_ws` of nothing but nulls is the empty text.
name_of : Option Candidate → Option Text
name_of none = some []
name_of (some c) = some (full_name c)

email_of : Option Candidate → Option Text
email_of none = none
email_of (some c) = some c.email

phone_of : Option Candidate → Option Text
phone_of none = none
phone_of (some c) = some c.phone

fayida_id_of : Option Candidate → Option Text
fayida_id_of none = none
fayida_id_of (some c) = c.fayida_id

institute_name_of : Option Institute → Option Text
institute_name_of none = none
institute_name_of (some i) = some i.name

-- The row with what the two left joins add. The query selects neither the
-- test level nor the test centre of the booking: the model carries these two
-- columns along with the row, and no operation reads them off a `Booking`.
unfoldable pub joined : Tables → BookingRow → Booking
unfolding name_of email_of phone_of fayida_id_of institute_name_of
joined w b =
    let c = find_by (λ (r : Candidate). r.id) b.candidate_id w.candidates in
    let i = find_by (λ (r : Institute). r.id) b.institute_id w.institutes in
    record {
      row = b;
      candidate_name = name_of c;
      candidate_email = email_of c;
      candidate_phone = phone_of c;
      candidate_fayida_id = fayida_id_of c;
      institute_name = institute_name_of i;
    }

-- `SELECT … FROM bookings WHERE id = …`.
abbrev pub booking_row : ℕ → Tables → Option BookingRow
booking_row id w = find_by (λ (r : BookingRow). r.id) id w.bookings

abbrev pub slot_row : ℕ → Tables → Option Slot
slot_row id w = find_by (λ (r : Slot). r.id) id w.slots

abbrev pub candidate_row : ℕ → Tables → Option Candidate
candidate_row id w = find_by (λ (r : Candidate). r.id) id w.candidates

pub record BookingFilter : Type 0 where
  pub candidate_id : Option ℕ
  pub institute_id : Option ℕ
  pub status : Option BookingStatus

abbrev pub id_allowed : Option ℕ → ℕ → Bool
id_allowed none id = true
id_allowed (some wanted) id = id == wanted

abbrev pub status_allowed : Option BookingStatus → BookingStatus → Bool
status_allowed none s = true
status_allowed (some wanted) s = is_status s wanted

-- The WHERE clause that `buildBookingFilter` writes.
unfoldable pub matches_filter : BookingFilter → BookingRow → Bool
matches_filter f b =
    id_allowed f.candidate_id b.candidate_id
    && id_allowed f.institute_id b.institute_id
    && status_allowed f.status b.status

-- `ORDER BY` a number: `before` says which of two rows stands first; equal rows keep their order.
module _ {ℓ} {A : Type ℓ} (before : A → A → Bool) where
  unfoldable pub insert_sorted : A → List A → List A
  insert_sorted x [] = x ∷ []
  insert_sorted x (y ∷ ys) = if before y x then y ∷ insert_sorted x ys else x ∷ y ∷ ys

  unfoldable pub sort : List A → List A
  sort [] = []
  sort (x ∷ xs) = insert_sorted x (sort xs)

unfoldable pub is_payment_of : ℕ → Payment → Bool
is_payment_of booking p = p.booking_id == booking

-- `COALESCE(MAX(attempt_number), 0)` over the payments of a booking.
unfoldable pub latest_attempt : ℕ → List Payment → ℕ
latest_attempt booking [] = 0
latest_attempt booking (p ∷ ps) =
    let rest = latest_attempt booking ps in
    if (p.booking_id == booking) && ltb rest p.attempt_number then p.attempt_number else rest

abbrev pub has_ref : Text → Option Text → Bool
has_ref ref none = false
has_ref ref (some r) = text_eq r ref

abbrev pub newer : Payment → Option Payment → Option Payment
newer p none = some p
newer p (some q) = some (if ltb p.created_at q.created_at then q else p)

-- `WHERE provider_ref = … ORDER BY created_at DESC LIMIT 1`.
unfoldable pub latest_by_ref : Text → List Payment → Option Payment
latest_by_ref ref [] = none
latest_by_ref ref (p ∷ ps) =
    let rest = latest_by_ref ref ps in if has_ref ref p.provider_ref then newer p rest else rest

abbrev pub or_else {ℓ} : {A : Type ℓ} → Option A → Option A → Option A
or_else (some a) o = some a
or_else none o = o

abbrev pub center_of_slot : Option ℕ → Tables → Option ℕ
center_of_slot none w = none
center_of_slot (some s) w = elim (slot_row s w) [ none ↦ none | some r ↦ r.test_center_id ]

abbrev pub details_for : BookingRow → Option ℕ → Option TestCreationDetails
details_for b none = none
details_for b (some center) = some (record {
  booking_id = b.id;
  candidate_id = b.candidate_id;
  test_center_id = center;
  test_level_code = if is_empty b.test_level_code then codes "class_b" else b.test_level_code;
})

-- The columns of the query of `TestCreationDetails`; `none` if both test centers are null.
unfoldable pub creation_details : Tables → BookingRow → Option TestCreationDetails
creation_details w b = details_for b (or_else b.test_center_id (center_of_slot b.slot_id w))
