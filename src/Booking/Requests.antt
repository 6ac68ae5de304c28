-- ===== src/Booking/Requests.antt =====
-- The request bodies of internal/booking/dto.go and their `Validate` methods. A method that also
-- fills in a field of its receiver returns the request as it leaves it.
use adlts_core_engine.Prelude.{
  ℕ, ◌||◌, not, Text, codes, text_eq, is_empty, ℤ, pos, ltb, ◌==◌, is_positive, if◌then◌else◌,
}
use adlts_core_engine.Booking.Types.{
  missing_institute_id, missing_slot_id, missing_slot_times, invalid_slot_times,
  invalid_verify_action, invalid_amount, invalid_currency,
}
use adlts_core_engine.Booking.World.{Result, ok, err}

pub record CreateBookingRequest : Type 0 where
  pub institute_id : Text

pub record VerifyBookingRequest : Type 0 where
  pub action : Text
  pub status : Text
  pub rejection_reason : Text

-- ScheduleBookingRequest and RescheduleBookingRequest.
pub record SlotRequest : Type 0 where
  pub slot_id : Text

pub record InitiatePaymentRequest : Type 0 where
  pub amount_cents : ℤ
  pub currency : Text

-- The zero time is 0.
pub record CreateSlotRequest : Type 0 where
  pub institute_id : Text
  pub starts_at : ℕ
  pub ends_at : ℕ
  pub capacity : ℤ

abbrev pub approve : Text
approve = codes "approve"

abbrev pub reject : Text
reject = codes "reject"

abbrev pub etb : Text
etb = codes "ETB"

unfoldable pub validate_create : CreateBookingRequest → Result CreateBookingRequest
validate_create r = if is_empty r.institute_id then err missing_institute_id else ok r

-- An absent action is read off the status that some clients send in its place.
unfoldable pub action_of : Text → Text → Text
action_of action status =
    if is_empty action
    then (if text_eq status (codes "Approved")
          || text_eq status (codes "approved")
          || text_eq status (codes "verified")
        then approve
        else if text_eq status (codes "Rejected") || text_eq status (codes "rejected")
        then reject
        else action)
    else action

unfoldable pub validate_verify : VerifyBookingRequest → Result VerifyBookingRequest
validate_verify r =
    let action = action_of r.action r.status in
    if text_eq action approve || text_eq action reject
    then ok (record r { action = action })
    else err invalid_verify_action

unfoldable pub validate_slot : SlotRequest → Result SlotRequest
validate_slot r = if is_empty r.slot_id then err missing_slot_id else ok r

unfoldable pub validate_payment : InitiatePaymentRequest → Result InitiatePaymentRequest
validate_payment r =
    let currency = if is_empty r.currency then etb else r.currency in
    if not (is_positive r.amount_cents)
    then err invalid_amount
    else if text_eq currency etb
    then ok (record r { currency = currency })
    else err invalid_currency

unfoldable pub validate_create_slot : CreateSlotRequest → Result CreateSlotRequest
validate_create_slot r =
    if is_empty r.institute_id
    then err missing_institute_id
    else if (r.starts_at == 0) || (r.ends_at == 0)
    then err missing_slot_times
    else if not (ltb r.starts_at r.ends_at)
    then err invalid_slot_times
    else ok (record r { capacity = if is_positive r.capacity then r.capacity else pos 1 })
