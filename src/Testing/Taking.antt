-- ===== src/Testing/Taking.antt =====
-- A check-in whose guards pass.
use adlts_core_engine.Prelude.{first_where, text_eq, ℕ, zero, suc, ◌≡◌, true, some, leb}
use adlts_core_engine.Testing.Store.{
  pending, guidelines, active, in_use, Test, Device, Store, World, Env,
}
use adlts_core_engine.Testing.Statements.{is_pending_for, test_row, device_row}
use adlts_core_engine.Testing.Handlers.{has_level, apart, DeviceCheckinRequest}

-- So many ticks later.
abbrev later : ℕ → ℕ → ℕ
later zero n = n
later (suc k) n = suc (later k n)

-- The guards of a check-in pass, with the rows that it reads.
pub record Admitted (env : Env) (w : World) (by : ℕ) (req : DeviceCheckinRequest) (d : Device)
    (t : Test) (at : ℕ) : Type 0 where
  pub by_code :
      first_where (λ (r : Device). text_eq r.device_code req.device_code) w.devices ≡ some d
  pub device : device_row d.id w.store ≡ some d
  pub password : env.check_password d.password_hash req.password ≡ true
  pub free : d.status ≡ active
  pub waiting : first_where (is_pending_for by req.test_center_id) w.tests ≡ some t
  pub test : test_row t.id w.store ≡ some t
  pub unstarted : t.status ≡ pending
  pub level : has_level t.test_level_code (env.parse_levels d.allowed_levels) ≡ true
  pub scheduled : env.booking_scheduled_at (suc (suc w.tick)) t.booking_id ≡ some at
  pub window : leb (apart (env.now (suc (suc (suc w.tick)))) at) env.booking_window ≡ true

-- The row of a device that is in use for a test, and that of a test which is at a device and at its
-- guidelines.
abbrev pub taken : ℕ → ℕ → ℕ → Device → Device
taken test now by d = record d {
  status = in_use;
  current_test_id = some test;
  last_seen_at = some now;
  updated_at = now;
  updated_by = by;
}

abbrev pub walked : ℕ → ℕ → ℕ → ℕ → Test → Test
walked device now later by t = record t {
  device_id = some device;
  device_scanned_at = some now;
  status = guidelines;
  guidelines_start_at = some later;
  updated_at = later;
  updated_by = by;
}
