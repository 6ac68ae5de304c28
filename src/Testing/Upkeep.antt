-- ===== src/Testing/Upkeep.antt =====
-- The statements and the handlers before a test runs keep every row recorded.
use adlts_core_engine.Prelude.{
  first_where, text_eq, ltb, leb, ◌==◌, ℕ, ◌≡◌, refl, Bool, true, not, ◌&&◌, Option, none, some,
  All-update_by, Bool-cases, inl, inr, arith, Text,
}
use adlts_core_engine.Testing.Store.{
  db_error, device_error, device_not_found, invalid_credentials, device_in_use, no_pending_test,
  level_not_allowed, booking_window_closed, test_not_found, not_yours, invalid_status, no_device,
  calibration_failed, no_maneuvers, start_failed, health_check_failed, acknowledged, AbortReason,
  Test, Device, Store, Env, ◌>>=◌, from_option, fetch, Failure,
}
use adlts_core_engine.Testing.Statements.{
  is_pending_for, test_row, device_row, is_free, is_active, checked_in, occupied, released, guided,
  started, stopped, is_status, device_by_code, device_by_id, test_by_id, pending_test_for_candidate,
  checkin_test, device_checkin_row, release_device, advance_to_guidelines, start_test_row,
  abort_test,
}
use adlts_core_engine.Testing.Handlers.{
  has_level, apart, begin_test, DeviceCheckinRequest, query, checkin_both, device_checkin,
  check_health, start_test, release_of,
}
use adlts_core_engine.Testing.Keeps.{
  is_recorded, Keeps, pure_k, or_error_k, ignore_k, or_undo_k, transaction_k, from_option_k, bind_k,
  guard_k, fetch_k, ask_k, exec_k, test_k,
}

module _ (env : Env) where
  pub first_k {ℓ} :
      {A : Type ℓ} (read : Store → Option A) (e : Failure)
      → Keeps (fetch env read >>= λ found. from_option found e)
  first_k read e = bind_k _ _ (fetch_k env read) λ found. from_option_k found e

  pub checkin_row_k : (id test by : ℕ) → Keeps (device_checkin_row env id test by)
  unfolding device_checkin_row
  checkin_row_k id test by = record {
    keep = λ w h. elim (Bool-cases (env.query_fails w.tick)) [
      | inl bad ↦ rw bad h
      | inr good ↦ rw good (elim (Bool-cases (is_free id w.store)) [
        | inl free ↦ rw free (record {
          tests = h.tests;
          devices =
              All-update_by (λ (d : Device). d.id) _ id (occupied test (env.now w.tick) by)
                w.devices (λ d k. refl) h.devices;
        })
        | inr taken ↦ rw taken h
      ])
    ];
  }

  pub release_k : (id by : ℕ) → Keeps (release_device env id by)
  unfolding release_device
  release_k id by = exec_k env _ λ now s h. record {
    tests = h.tests;
    devices =
        All-update_by (λ (d : Device). d.id) _ id (released now by) s.devices (λ d k. refl)
          h.devices;
  }

  pub abort_k : (id : ℕ) (reason : AbortReason) (by : ℕ) → Keeps (abort_test env id reason by)
  unfolding abort_test
  abort_k id reason by = test_k env id (λ now. stopped reason now by) λ now t k. refl

  pub release_of_k : (o : Option ℕ) (by : ℕ) → Keeps (release_of env o by)
  unfolding release_of
  release_of_k none by = pure_k tt
  release_of_k (some id) by = ignore_k _ (release_k id by)

  pub query_k : Keeps (query env)
  query_k = fetch_k env (λ s. tt)

  checked_in-recorded :
      (device now by : ℕ) (t : Test)
      → is_recorded t ≡ true
      → is_recorded (checked_in device now by t) ≡ true
  checked_in-recorded device now by t k = ground (arith, k)

  pub checkin_both_k : (test device by : ℕ) → Keeps (checkin_both env test device by)
  unfolding checkin_both checkin_test
  checkin_both_k test device by = transaction_k _ (
      bind_k _ _ query_k λ _.
        bind_k _ _
          (or_error_k _ _ (
            test_k env test (λ now. checked_in device now by)
              λ now t k. checked_in-recorded device now by t k))
          λ _. bind_k _ _ (or_error_k _ _ (checkin_row_k device test by)) λ _. query_k)

  pub device_checkin_k : (by : ℕ) (req : DeviceCheckinRequest) → Keeps (device_checkin env by req)
  unfolding device_checkin device_by_code pending_test_for_candidate advance_to_guidelines
  device_checkin_k by req =
      bind_k _ _
        (first_k
          (λ s. first_where (λ (d : Device). text_eq d.device_code req.device_code) s.devices)
          device_not_found)
        λ (device : Device).
          bind_k _ _
            (guard_k (env.check_password device.password_hash req.password) invalid_credentials)
            λ _. bind_k _ _ (guard_k (is_active device.status) device_in_use) λ _.
              bind_k _ _
                (first_k (λ s. first_where (is_pending_for by req.test_center_id) s.tests)
                  no_pending_test)
                λ (test : Test).
                  bind_k _ _
                    (guard_k
                      (has_level test.test_level_code (env.parse_levels device.allowed_levels))
                      level_not_allowed)
                    λ _.
                      bind_k _ _ (ask_k env (λ n. env.booking_scheduled_at n test.booking_id))
                        λ (scheduled : Option ℕ).
                          bind_k _ _ (from_option_k scheduled db_error) λ (at : ℕ).
                            bind_k _ _ (ask_k env env.now) λ (now : ℕ).
                              bind_k _ _
                                (guard_k (leb (apart now at) env.booking_window)
                                  booking_window_closed)
                                λ _. bind_k _ _ (checkin_both_k test.id device.id by) λ _.
                                  ignore_k _ (test_k env test.id (λ n. guided n by) λ n t k. refl)

  pub check_health_k : (url : Text) → Keeps (check_health env url)
  unfolding check_health
  check_health_k url =
      bind_k _ _ (guard_k _ _) λ _.
        bind_k _ _ (ask_k env _) λ passed. bind_k _ _ (or_error_k _ _ query_k) λ _. pure_k passed

  -- What is left of `start_test` once the device has been asked.
  pub begin_k :
      (test : Test) (device : Device) (by id : ℕ) → Keeps (begin_test env test device by id)
  unfolding begin_test start_test_row
  begin_k test device by id =
      bind_k _ _ (ask_k env (λ n. env.calibrates n device.stream_url)) λ (calibrated : Bool).
        bind_k _ _ (guard_k calibrated calibration_failed) λ _.
          bind_k _ _
            (or_error_k no_maneuvers _
              (bind_k _ _ query_k λ _. ask_k env (λ n. env.plan_maneuvers n test.test_plan_id)))
            λ (maneuvers : ℕ). bind_k _ _ (guard_k (ltb 0 maneuvers) no_maneuvers) λ _.
              bind_k _ _ (ask_k env (λ n. env.starts_test n test.id)) λ (begun : Bool).
                bind_k _ _ (guard_k begun start_failed) λ _.
                  bind_k _ _ (ignore_k _ query_k)
                    λ _. ignore_k _ (test_k env id (λ now. started now by) λ now t k. refl)

  pub start_test_k : (candidate : Bool) (by id : ℕ) → Keeps (start_test env candidate by id)
  unfolding start_test test_by_id device_by_id
  start_test_k candidate by id =
      bind_k _ _ (or_error_k test_not_found _ (first_k (test_row id) no_pending_test))
        λ (test : Test).
          bind_k _ _ (guard_k (not (candidate && not (test.candidate_id == by))) not_yours) λ _.
            bind_k _ _ (guard_k (is_status test.status acknowledged) invalid_status) λ _.
              bind_k _ _ (from_option_k test.device_id no_device) λ (device_id : ℕ).
                bind_k _ _
                  (or_error_k device_error _ (first_k (device_row device_id) device_not_found))
                  λ (device : Device).
                    bind_k _ _
                      (or_undo_k _ _ (check_health_k device.stream_url) (
                        bind_k _ _ (ignore_k _ (abort_k id health_check_failed by))
                          λ _. ignore_k _ (release_k device_id by)))
                      λ _. begin_k test device by id
