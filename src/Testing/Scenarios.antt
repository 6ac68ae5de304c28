-- ===== src/Testing/Scenarios.antt =====
-- A test center with a device and tests, and the theorems on the handlers applied to it.
use adlts_core_engine.Prelude.{
  first_where, ℕ, ◌+◌, ◌≡◌, refl, true, false, List, [], ◌∷◌, Option, none, some, codes, text_eq,
  find_by,
}
use adlts_core_engine.Testing.Store.{
  fetch, TestStatus, pending, active, in_use, Test, Device, World, Env, device_in_use,
}
use adlts_core_engine.Testing.Statements.{device_by_code}
use adlts_core_engine.Testing.Handlers.{
  DeviceCheckinRequest, ResultWebhookRequest, device_checkin, start_test, has_level,
}
use adlts_core_engine.Testing.History.{Call, checks_in, acknowledges, starts, reports, run}
use adlts_core_engine.Testing.Keeps.{Recorded}
use adlts_core_engine.Testing.Records.{run-Recorded}
use adlts_core_engine.Testing.Checkin.{device_checkin-atomic}
use adlts_core_engine.Testing.Taking.{Admitted}
use adlts_core_engine.Testing.Starting.{start_test-needs_acknowledged}
use adlts_core_engine.Testing.QrEvents.{card, parse_qr_event, parse_qr_event-card}

-- Test 1 of candidate 5 in the given status, with or without a device.
abbrev test_in : TestStatus → Option ℕ → Test
test_in status device = record {
  id = 1;
  booking_id = 11;
  candidate_id = 5;
  test_center_id = 9;
  test_plan_id = 4;
  device_id = device;
  test_level_code = codes "class_b";
  status = status;
  abort_reason = none;
  device_scanned_at = none;
  guidelines_start_at = none;
  acknowledged_at = none;
  iot_health_passed_at = some 1;
  started_at = some 1;
  completed_at = some 2;
  aborted_at = none;
  weighted_total_score = some 80;
  passed = some true;
  appeal_window_closes_at = some 3;
  result_visible_to_candidate_at = some 2;
  updated_at = 0;
  updated_by = 5;
}

abbrev device_3 : Device
device_3 = record {
  id = 3;
  device_code = codes "D3";
  password_hash = codes "secret";
  allowed_levels = codes "class_b";
  stream_url = codes "http://d3/stream";
  status = active;
  current_test_id = none;
  last_seen_at = none;
  updated_at = 0;
  updated_by = 0;
}

abbrev center : Test → Device → World
center t d = record { store = record { tests = t ∷ []; devices = d ∷ [] }; tick = 0 }

abbrev calm : Env
calm = record {
  query_fails = λ n. false;
  now = λ n. 1000 + n;
  check_password = λ hash given. text_eq hash given;
  parse_levels = λ s. s ∷ [];
  booking_scheduled_at = λ n booking. some 1000;
  plan_maneuvers = λ n plan. 3;
  device_answers = λ n url. false;
  calibrates = λ n url. true;
  starts_test = λ n test. true;
  booking_window = 7200;
  system_actor = 0;
}

abbrev calm_reliable : (n : ℕ) → calm.query_fails n ≡ false
calm_reliable n = refl

abbrev scan : DeviceCheckinRequest
scan = record { device_code = codes "D3"; password = codes "secret"; test_center_id = 9 }

abbrev report : ResultWebhookRequest
report = record { total_score = 75; passed = true; maneuvers = 3 }

abbrev waiting : World
waiting = center (test_in pending none) device_3

abbrev busy : Device
busy = record device_3 { status = in_use; current_test_id = some 1 }

Recorded-waiting : Recorded waiting.store
Recorded-waiting = record { tests = (refl, tt); devices = (refl, tt) }

abbrev calls : List Call
calls = checks_in 5 scan ∷ acknowledges 5 1 ∷ starts true 5 1 ∷ reports 1 report ∷ []

run-Recorded_example : Recorded (run calm waiting calls).store
run-Recorded_example = run-Recorded calm waiting calls Recorded-waiting

device_checkin-atomic_example :
    (device_checkin calm 5 scan (center (test_in pending none) busy)).1.store
    ≡ (center (test_in pending none) busy).store
unfolding device_checkin device_by_code first_where fetch
device_checkin-atomic_example =
    device_checkin-atomic calm 5 scan (center (test_in pending none) busy) {e = device_in_use} refl

abbrev admitted : Admitted calm waiting 5 scan device_3 (test_in pending none) 1000
unfolding first_where find_by has_level
admitted = record {
  by_code = refl;
  device = refl;
  password = refl;
  free = refl;
  waiting = refl;
  test = refl;
  unstarted = refl;
  level = refl;
  scheduled = refl;
  window = refl;
}

start_test-needs_acknowledged_example : (start_test calm true 5 1 waiting).1.store ≡ waiting.store
unfolding find_by
start_test-needs_acknowledged_example =
    start_test-needs_acknowledged calm waiting true 5 1 (test_in pending none) refl (λ e. cc e)

parse_qr_event-card_example :
    let start = card (codes "S") (codes "parking") (codes "m:1") in
    let end = card (codes "E") (codes "parking") (codes "m:1") in
    (parse_qr_event (some start)
      ≡ some (record {
        action = codes "start";
        maneuver_type = codes "parking";
        config_id = codes "m:1";
        raw = start;
      }))
    × (parse_qr_event (some end)
        ≡ some (record {
          action = codes "end";
          maneuver_type = codes "parking";
          config_id = codes "m:1";
          raw = end;
        }))
parse_qr_event-card_example =
    parse_qr_event-card (codes "parking") (codes "m:1")
      (refl, (refl, (refl, (refl, (refl, (refl, (refl, tt)))))))
