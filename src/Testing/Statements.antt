-- ===== src/Testing/Statements.antt =====
-- The statements of internal/testing/repository.go that move tests and devices, and the two that
-- deviceCheckin of internal/testing/handler.go runs itself (checkin_test, device_checkin_row).
use adlts_core_engine.Prelude.{
  ℕ, suc, ◌+◌, Bool, true, false, ◌&&◌, Option, none, some, Text, text_eq, ◌==◌, if◌then◌else◌,
  first_where, find_by, update_by,
}
use adlts_core_engine.Testing.Store.{
  TestStatus, pending, ready, guidelines, acknowledged, iot_health, running, finishing, completed,
  aborted, expired, DeviceStatus, active, in_use, AbortReason, Test, Device, Store, Env, M, ok, err,
  ◌>>=◌, from_option, fetch, exec, db_error, device_not_found, device_in_use, no_pending_test,
}

abbrev pub status_code : TestStatus → ℕ
status_code pending = 0
status_code ready = 1
status_code guidelines = 2
status_code acknowledged = 3
status_code iot_health = 4
status_code running = 5
status_code finishing = 6
status_code completed = 7
status_code aborted = 8
status_code expired = 9

abbrev pub is_status : TestStatus → TestStatus → Bool
is_status a b = status_code a == status_code b

abbrev pub is_active : DeviceStatus → Bool
is_active active = true
is_active _ = false

abbrev pub test_row : ℕ → Store → Option Test
test_row id s = find_by (λ (t : Test). t.id) id s.tests

abbrev pub device_row : ℕ → Store → Option Device
device_row id s = find_by (λ (d : Device). d.id) id s.devices

abbrev pub write_test : ℕ → (Test → Test) → Store → Store
write_test id f s = record s { tests = update_by (λ (t : Test). t.id) id f s.tests }

abbrev pub write_device : ℕ → (Device → Device) → Store → Store
write_device id f s = record s { devices = update_by (λ (d : Device). d.id) id f s.devices }

-- What each statement does to its row, at a time and for an actor.
abbrev pub checked_in : ℕ → ℕ → ℕ → Test → Test
checked_in device now by t =
    if is_status t.status pending
    then record t {
      device_id = some device;
      device_scanned_at = some now;
      status = ready;
      updated_at = now;
      updated_by = by;
    }
    else t

abbrev pub occupied : ℕ → ℕ → ℕ → Device → Device
occupied test now by d = record d {
  status = in_use;
  current_test_id = some test;
  last_seen_at = some now;
  updated_at = now;
  updated_by = by;
}

abbrev pub released : ℕ → ℕ → Device → Device
released now by d = record d {
  status = active;
  current_test_id = none;
  updated_at = now;
  updated_by = by;
}

abbrev pub guided : ℕ → ℕ → Test → Test
guided now by t = record t {
  status = guidelines;
  guidelines_start_at = some now;
  updated_at = now;
  updated_by = by;
}

abbrev pub agreed : ℕ → ℕ → Test → Test
agreed now by t = record t {
  status = acknowledged;
  acknowledged_at = some now;
  updated_at = now;
  updated_by = by;
}

abbrev pub started : ℕ → ℕ → Test → Test
started now by t = record t {
  status = running;
  started_at = some now;
  iot_health_passed_at = some now;
  updated_at = now;
  updated_by = by;
}

-- The appeal window stays open for 72 hours, in seconds.
abbrev pub appeal_window : ℕ
appeal_window = 259200

abbrev pub finished : ℕ → Bool → ℕ → ℕ → Test → Test
finished score passed now by t = record t {
  status = completed;
  completed_at = some now;
  weighted_total_score = some score;
  passed = some passed;
  appeal_window_closes_at = some (now + appeal_window);
  result_visible_to_candidate_at = some now;
  updated_at = now;
  updated_by = by;
}

abbrev pub stopped : AbortReason → ℕ → ℕ → Test → Test
stopped reason now by t = record t {
  status = aborted;
  abort_reason = some reason;
  aborted_at = some now;
  updated_at = now;
  updated_by = by;
}

abbrev pub is_pending_for : ℕ → ℕ → Test → Bool
is_pending_for candidate center t =
    t.candidate_id == candidate && (t.test_center_id == center && is_status t.status pending)

abbrev pub is_active_row : Option Device → Bool
is_active_row none = false
is_active_row (some d) = is_active d.status

-- Whether the statement that takes a device affects a row: it asks for an active device.
unfoldable pub is_free : ℕ → Store → Bool
is_free id s = is_active_row (device_row id s)

module _ (env : Env) where
  unfoldable pub device_by_code : Text → M Device
  device_by_code code =
      fetch env (λ s. first_where (λ (d : Device). text_eq d.device_code code) s.devices)
      >>= λ found. from_option found device_not_found

  unfoldable pub device_by_id : ℕ → M Device
  device_by_id id = fetch env (device_row id) >>= λ found. from_option found device_not_found

  unfoldable pub test_by_id : ℕ → M Test
  test_by_id id = fetch env (test_row id) >>= λ found. from_option found no_pending_test

  unfoldable pub pending_test_for_candidate : ℕ → ℕ → M Test
  pending_test_for_candidate candidate center =
      fetch env (λ s. first_where (is_pending_for candidate center) s.tests) >>= λ found.
      from_option found no_pending_test

  unfoldable pub test_by_booking_id : ℕ → M (Option Test)
  test_by_booking_id booking =
      fetch env (λ s. first_where (λ (t : Test). t.booking_id == booking) s.tests)

  unfoldable pub checkin_test : ℕ → ℕ → ℕ → M (Unit {0})
  checkin_test id device by = exec env (λ now. write_test id (checked_in device now by))

  unfoldable pub device_checkin_row : ℕ → ℕ → ℕ → M (Unit {0})
  device_checkin_row id test by w =
      if env.query_fails w.tick
      then (err db_error, record w { tick = suc w.tick })
      else if is_free id w.store
      then (
        ok tt,
        record w {
          store = write_device id (occupied test (env.now w.tick) by) w.store;
          tick = suc w.tick;
        },
      )
      else (err device_in_use, record w { tick = suc w.tick })

  unfoldable pub release_device : ℕ → ℕ → M (Unit {0})
  release_device id by = exec env (λ now. write_device id (released now by))

  unfoldable pub advance_to_guidelines : ℕ → ℕ → M (Unit {0})
  advance_to_guidelines id by = exec env (λ now. write_test id (guided now by))

  unfoldable pub acknowledge_test : ℕ → ℕ → M (Unit {0})
  acknowledge_test id by = exec env (λ now. write_test id (agreed now by))

  unfoldable pub start_test_row : ℕ → ℕ → M (Unit {0})
  start_test_row id by = exec env (λ now. write_test id (started now by))

  unfoldable pub complete_test : ℕ → ℕ → Bool → ℕ → M (Unit {0})
  complete_test id score passed by = exec env (λ now. write_test id (finished score passed now by))

  unfoldable pub abort_test : ℕ → AbortReason → ℕ → M (Unit {0})
  abort_test id reason by = exec env (λ now. write_test id (stopped reason now by))
