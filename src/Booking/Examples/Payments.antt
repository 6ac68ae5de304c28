-- ===== src/Booking/Examples/Payments.antt =====
-- The theorems on payments and on the gateway's formats at the samples.
use adlts_core_engine.Prelude.{Text, ◌≤◌, codes, arith, length}
use adlts_core_engine.Booking.Chapa.{generate_tx_ref}
use adlts_core_engine.Booking.Chapa.Reference.{Stamped, generate_tx_ref-fits}

abbrev reference : Text
reference = generate_tx_ref (codes "00000000-0000-0000-0000-000000000001") 1700000000000000000

generate_tx_ref-fits_example : (length reference ≤ 50) × Stamped 1700000000000000000 reference
generate_tx_ref-fits_example =
    generate_tx_ref-fits (codes "00000000-0000-0000-0000-000000000001") 1700000000000000000
      (omega arith)
