-- ===== src/Booking/Examples/Worlds.antt =====
-- Databases with one booking, and a history of calls.
use adlts_core_engine.Prelude.{◌≤◌, List, [], ◌∷◌, none, some, codes, arith}
use adlts_core_engine.Booking.Types.{
  pending_verification, verified, scheduled, PaymentStatus, BookingRow,
}
use adlts_core_engine.Booking.World.{World}
use adlts_core_engine.Booking.History.{Call, schedules, settles, archives}
use adlts_core_engine.Booking.Invariant.{Sound}
use adlts_core_engine.Booking.Examples.Samples.{booking_in, world_of, boss, ask_slot}

abbrev pub pending_world : World
pending_world = world_of (booking_in pending_verification PaymentStatus.unpaid none)

abbrev pub verified_world : World
verified_world = world_of (booking_in verified PaymentStatus.unpaid none)

pub Sound-world_of : (b : BookingRow) → b.payment_attempts ≤ 3 → Sound (world_of b).tables
Sound-world_of b few = record {
  booking_keys = (tt, tt);
  slot_keys = omega arith;
  payment_keys = omega arith;
  capacity = omega arith;
  attempt_range = omega arith;
  attempts_grow = ((λ _. omega arith, tt), (tt, tt));
  few_attempts = (few, tt);
}

abbrev pub calls : List Call
calls = schedules boss 1 (ask_slot (codes "7")) ∷ settles 1 (codes "tx30") ∷ archives 1 ∷ []

abbrev pub scheduled_world : World
scheduled_world = world_of (booking_in scheduled PaymentStatus.unpaid (some 7))
