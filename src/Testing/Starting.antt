-- ===== src/Testing/Starting.antt =====
-- When a test starts.
use adlts_core_engine.Prelude.{
  ℕ, suc, ◌≡◌, ◌≢◌, refl, Bool, true, false, some, arith, Text, find_by-update_by_self, is_empty,
  ltb,
}
use adlts_core_engine.Testing.Store.{
  acknowledged, completed, Test, Device, World, Env, fetch, exec, ask,
}
use adlts_core_engine.Testing.Statements.{
  write_test, test_row, device_row, agreed, started, device_by_id, test_by_id, acknowledge_test,
  start_test_row,
}
use adlts_core_engine.Testing.Handlers.{
  acknowledge_guidelines, check_health, begin_test, start_test,
}

-- A test that has not been acknowledged, one that is ready included, is not started, and nothing else
-- changes, whoever asks and whichever queries fail.
pub start_test-needs_acknowledged :
    (env : Env) (w : World) (candidate : Bool) (by id : ℕ) (t : Test)
    → test_row id w.store ≡ some t
    → t.status ≢ acknowledged
    → (start_test env candidate by id w).1.store ≡ w.store
unfolding start_test test_by_id fetch
start_test-needs_acknowledged env w candidate by id t found other = ground arith

module _ (env : Env) (reliable : (n : ℕ) → env.query_fails n ≡ false) (w : World) where
  -- Where no query fails, acknowledging a completed test of another candidate puts it back to
  -- acknowledged.
  acknowledge_guidelines-reopens :
      (by id : ℕ) (t : Test)
      → test_row id w.store ≡ some t
      → t.candidate_id ≢ by
      → t.status ≡ completed
      → test_row id (acknowledge_guidelines env by id w).1.store
        ≡ some (agreed (env.now w.tick) by t)
  unfolding acknowledge_guidelines acknowledge_test exec
  acknowledge_guidelines-reopens by id t found other done = rw (reliable w.tick) (
      find_by-update_by_self (λ (r : Test). r.id) id (agreed (env.now w.tick) by) w.tests
        (λ _. refl) found)

  start_test-reaches :
      (by id device_id : ℕ) (t : Test) (d : Device)
      → ((n : ℕ) (url : Text) → env.device_answers n url ≡ false)
      → ((n : ℕ) (url : Text) → env.calibrates n url ≡ true)
      → ((n plan : ℕ) → ltb 0 (env.plan_maneuvers n plan) ≡ true)
      → ((n test : ℕ) → env.starts_test n test ≡ true)
      → test_row id w.store ≡ some t
      → t.status ≡ acknowledged
      → t.device_id ≡ some device_id
      → device_row device_id w.store ≡ some d
      → is_empty d.stream_url ≡ false
      → (now : ℕ) × ((start_test env false by id w).1.store
          ≡ write_test id (started now by) w.store)
  unfolding start_test test_by_id device_by_id check_health begin_test start_test_row fetch exec ask
  start_test-reaches by id device_id t d silent calibrates plan starts found agreed_ given device
        stream =
      (
        env.now (suc (suc (suc (suc (suc (suc (suc (suc (suc w.tick))))))))),
        simp (reliable, found, agreed_, given, device, stream, calibrates, plan, starts) refl,
      )

  -- Where no query fails, an administrator starts an acknowledged test although its device never
  -- answers the health check, if the device has a stream, the plan has maneuvers, and the lane
  -- service calibrates and starts.
  start_test-unhealthy :
      (by id device_id : ℕ) (t : Test) (d : Device)
      → ((n : ℕ) (url : Text) → env.device_answers n url ≡ false)
      → ((n : ℕ) (url : Text) → env.calibrates n url ≡ true)
      → ((n plan : ℕ) → ltb 0 (env.plan_maneuvers n plan) ≡ true)
      → ((n test : ℕ) → env.starts_test n test ≡ true)
      → test_row id w.store ≡ some t
      → t.status ≡ acknowledged
      → t.device_id ≡ some device_id
      → device_row device_id w.store ≡ some d
      → is_empty d.stream_url ≡ false
      → (now : ℕ) × (test_row id (start_test env false by id w).1.store ≡ some (started now by t))
  start_test-unhealthy by id device_id t d silent calibrates plan starts found agreed_ given device
        stream =
      let (now, e) =
        start_test-reaches by id device_id t d silent calibrates plan starts found agreed_ given
          device stream in
      (
        now,
        rw e (
            find_by-update_by_self (λ (r : Test). r.id) id (started now by) w.tests (λ _. refl)
              found),
      )
