-- ===== src/Booking/Callbacks.antt =====
-- What the public routes of the payment gateway can do to a booking.
use adlts_core_engine.Prelude.{[], none, some, Text}
use adlts_core_engine.Booking.World.{World}
use adlts_core_engine.Booking.Handlers.{ChapaRequest, webhook, callback, first_of}

-- The reference that a request names.
abbrev pub reference_of : ChapaRequest → Text
reference_of (webhook valid none) = []
reference_of (webhook valid (some refs)) = first_of refs.0 refs.1
reference_of (callback tx_ref trx_ref) = first_of tx_ref trx_ref
