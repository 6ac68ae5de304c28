-- ===== src/Booking/Service/Slots.antt =====
-- Slot management: `CreateSlot`, `ListSlots`, `GetSlot`.
use adlts_core_engine.Prelude.{ℕ, List, ℤ, to_ℕ}
use adlts_core_engine.Booking.Types.{
  Slot, AuthContext, missing_institute_id, institute_not_found, forbidden,
}
use adlts_core_engine.Booking.Requests.{CreateSlotRequest, validate_create_slot}
use adlts_core_engine.Booking.World.{Env, M, ◌>>=◌, ◌>>◌, guard, from_option}
use adlts_core_engine.Booking.Repository.{
  institute_exists, create_slot_row, slot_by_id, list_slot_rows,
}
use adlts_core_engine.Booking.Service.Lifecycle.{checked, is_admin}
use adlts_core_engine.Prelude.{none}

-- The row that `CreateSlot` hands to the repository. The validated capacity is positive.
abbrev pub new_slot : ℕ → AuthContext → CreateSlotRequest → Slot
new_slot institute_id auth req = record {
  id = 0;
  institute_id = institute_id;
  test_center_id = auth.test_center_id;
  test_id = none;
  starts_at = req.starts_at;
  ends_at = req.ends_at;
  capacity = to_ℕ req.capacity;
  booked_count = 0;
  created_at = 0;
  updated_at = 0;
}

module _ (env : Env) where
  unfoldable pub create_slot : AuthContext → CreateSlotRequest → M Slot
  create_slot auth request = do
    req ← checked (validate_create_slot request)
    guard (is_admin auth.entity_type) forbidden
    institute_id ← from_option (env.parse_uuid req.institute_id) missing_institute_id
    exists ← institute_exists env institute_id
    guard exists institute_not_found
    create_slot_row env (new_slot institute_id auth req)

  unfoldable pub list_slots : ℕ → ℤ → M (List Slot × ℕ)
  list_slots institute_id page = list_slot_rows env institute_id page

  unfoldable pub get_slot : ℕ → M Slot
  get_slot id = slot_by_id env id
