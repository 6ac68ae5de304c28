-- ===== src/Testing/Ending.antt =====
-- How a test ends.
use adlts_core_engine.Prelude.{ℕ, zero, suc, ◌≡◌, refl, false, some, arith, find_by-update_by_self}
use adlts_core_engine.Testing.Store.{Test, World, Env, ok, fetch, exec, ask, ticked}
use adlts_core_engine.Testing.Statements.{test_row, finished, test_by_id, complete_test}
use adlts_core_engine.Testing.Handlers.{
  ResultWebhookRequest, store_maneuvers, result_webhook, stale_tests, statuses_of_labels,
  expire_stale_tests,
}

module _ (env : Env) (reliable : (n : ℕ) → env.query_fails n ≡ false) where
  store_maneuvers-done :
      (n : ℕ) (w : World)
      → (tick : ℕ) × (store_maneuvers env n w ≡ (ok tt, record w { tick = tick }))
  unfolding store_maneuvers fetch
  store_maneuvers-done zero w = (w.tick, refl)
  store_maneuvers-done (suc n) w =
      let (tick, e) = store_maneuvers-done n (ticked (ticked w)) in (tick, e)

  -- Where no query fails, the result that the lane service reports completes the test with its
  -- score and verdict, whatever the status of the test, and leaves every device as it was.
  result_webhook-completes :
      (w : World) (id : ℕ) (req : ResultWebhookRequest) (t : Test)
      → test_row id w.store ≡ some t
      → let r = result_webhook env id req w in
        (r.0 ≡ ok tt)
        × ((now : ℕ) × (test_row id r.1.store
              ≡ some (finished req.total_score req.passed now env.system_actor t)))
        × (r.1.devices ≡ w.devices)
  unfolding result_webhook test_by_id complete_test fetch exec
  result_webhook-completes w id req t found =
      let (tick, done) = store_maneuvers-done req.maneuvers (ticked (ticked (ticked w))) in
      simp (reliable, found, done)
        (
          refl,
          (
            env.now (suc tick),
            find_by-update_by_self (λ (r : Test). r.id) id _ w.tests (λ _. refl) found,
          ),
          refl,
        )

-- A round of the expiry worker changes nothing, whatever the timeout, the age of the tests and the
-- queries that fail.
expire_stale_tests-idle :
    (env : Env) (timeout : ℕ) (w : World) → (expire_stale_tests env timeout w).1.store ≡ w.store
unfolding expire_stale_tests stale_tests statuses_of_labels fetch ask
expire_stale_tests-idle env timeout w = ground arith
