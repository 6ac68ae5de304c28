-- ===== src/Booking/History.antt =====
-- The calls that change the tables, as the handlers make them one after another, and the tables
-- that a history of calls leaves. A call that fails counts with what it wrote before it failed.
use adlts_core_engine.Prelude.{ℕ, List, [], ◌∷◌, Text}
use adlts_core_engine.Booking.Types.{AuthContext}
use adlts_core_engine.Booking.Requests.{
  CreateBookingRequest, VerifyBookingRequest, SlotRequest, InitiatePaymentRequest,
  CreateSlotRequest,
}
use adlts_core_engine.Booking.World.{World, Env}
use adlts_core_engine.Booking.Service.{
  create_booking_for, verify_booking, schedule_booking, reschedule_booking, delete_booking,
  archive_booking, initiate_payment, handle_chapa_transaction, retry_payment, create_slot,
}

pub data Call : Type 0 where
  creates : ℕ → CreateBookingRequest → Call
  verifies : AuthContext → ℕ → VerifyBookingRequest → Call
  schedules reschedules : AuthContext → ℕ → SlotRequest → Call
  deletes : AuthContext → ℕ → Call
  archives : ℕ → Call
  pays retries : AuthContext → ℕ → InitiatePaymentRequest → Call
  settles : ℕ → Text → Call
  opens_slot : AuthContext → CreateSlotRequest → Call

unfoldable pub step : Env → World → Call → World
step env w (creates candidate req) = (create_booking_for env candidate req w).1
step env w (verifies auth id req) = (verify_booking env auth id req w).1
step env w (schedules auth id req) = (schedule_booking env auth id req w).1
step env w (reschedules auth id req) = (reschedule_booking env auth id req w).1
step env w (deletes auth id) = (delete_booking env auth id w).1
step env w (archives id) = (archive_booking env id w).1
step env w (pays auth id req) = (initiate_payment env auth id req w).1
step env w (retries auth id req) = (retry_payment env auth id req w).1
step env w (settles id ref) = (handle_chapa_transaction env id ref w).1
step env w (opens_slot auth req) = (create_slot env auth req w).1

unfoldable pub run : Env → World → List Call → World
run env w [] = w
run env w (c ∷ cs) = run env (step env w c) cs
