-- ===== src/Booking/Examples.antt =====
-- A small database and environment, tests of the operations on them, and the theorems of the
-- booking module applied to them.
mod Samples
mod Worlds
mod Witnesses
mod Payments
