-- ===== src/Testing/Records.antt =====
-- What every row keeps through every history of calls.
use adlts_core_engine.Prelude.{
  ℕ, zero, suc, refl, List, [], ◌∷◌, Option, none, some, Bool-cases, inl, inr,
}
use adlts_core_engine.Testing.Store.{
  admin_intervention, system_error, TestStatus, pending, Test, World, Env,
}
use adlts_core_engine.Testing.Statements.{
  agreed, finished, is_status, test_by_id, test_by_booking_id, acknowledge_test, complete_test,
}
use adlts_core_engine.Testing.Handlers.{
  release_after_read, ResultWebhookRequest, acknowledge_guidelines, store_maneuvers, result_webhook,
  admin_abort_test, delete_test_admin, cancel_found, cancel_test_by_booking, stale_tests, abort_all,
  expire_stale_tests,
}
use adlts_core_engine.Testing.History.{
  Call, checks_in, acknowledges, starts, reports, aborts, deletes, cancels, expires, step, run,
}
use adlts_core_engine.Testing.Keeps.{
  Recorded, Keeps, pure_k, or_error_k, ignore_k, bind_k, guard_k, fetch_k, ask_k, test_k,
}
use adlts_core_engine.Testing.Upkeep.{
  release_k, first_k, abort_k, release_of_k, query_k, device_checkin_k, start_test_k,
}

module _ (env : Env) where
  store_maneuvers_k : (n : ℕ) → Keeps (store_maneuvers env n)
  unfolding store_maneuvers
  store_maneuvers_k zero = pure_k tt
  store_maneuvers_k (suc n) =
      bind_k _ _ (ignore_k _ (query_k env))
        λ _. bind_k _ _ (ignore_k _ (query_k env)) λ _. store_maneuvers_k n

  result_webhook_k : (id : ℕ) (req : ResultWebhookRequest) → Keeps (result_webhook env id req)
  unfolding result_webhook test_by_id complete_test
  result_webhook_k id req = bind_k _ _ (or_error_k _ _ (first_k env _ _)) λ (test : Test).
      bind_k _ _ (ignore_k _ (query_k env)) λ _. bind_k _ _ (ignore_k _ (query_k env)) λ _.
        bind_k _ _ (store_maneuvers_k req.maneuvers) λ _. bind_k _ _ (query_k env) λ _.
          bind_k _ _
            (ignore_k _ (
              test_k env id (λ now. finished req.total_score req.passed now env.system_actor)
                λ now t k. refl))
            λ _. bind_k _ _ (ignore_k _ (query_k env)) λ _. ignore_k _ (query_k env)

  release_after_read_k : (o : Option ℕ) → Keeps (release_after_read env o)
  unfolding release_after_read
  release_after_read_k none = pure_k tt
  release_after_read_k (some id) =
      bind_k _ _ (ignore_k _ (query_k env)) λ _. ignore_k _ (release_k env id env.system_actor)

  admin_abort_test_k : (id : ℕ) → Keeps (admin_abort_test env id)
  unfolding admin_abort_test test_by_id
  admin_abort_test_k id = bind_k _ _ (or_error_k _ _ (first_k env _ _)) λ (test : Test).
      bind_k _ _ (ignore_k _ (abort_k env id admin_intervention env.system_actor))
        λ _. release_after_read_k test.device_id

  delete_test_admin_k : (by id : ℕ) → Keeps (delete_test_admin env by id)
  unfolding delete_test_admin test_by_id
  delete_test_admin_k by id = bind_k _ _ (or_error_k _ _ (first_k env _ _)) λ (test : Test).
      bind_k _ _ (guard_k _ _)
        λ _. bind_k _ _ (abort_k env id _ by) λ _. release_of_k env test.device_id by

  cancel_found_k : (found : Option Test) → Keeps (cancel_found env found)
  unfolding cancel_found
  cancel_found_k none = pure_k tt
  cancel_found_k (some test) = elim (Bool-cases (is_status test.status pending)) [
    | inl e ↦ rw e (
        bind_k _ _ (abort_k env test.id admin_intervention env.system_actor)
          λ _. release_of_k env test.device_id env.system_actor)
    | inr e ↦ rw e (pure_k tt)
  ]

  cancel_test_by_booking_k : (booking : ℕ) → Keeps (cancel_test_by_booking env booking)
  unfolding cancel_test_by_booking test_by_booking_id
  cancel_test_by_booking_k booking = bind_k _ _ (fetch_k env _) λ found. cancel_found_k found

  abort_all_k : (ts : List Test) → Keeps (abort_all env ts)
  unfolding abort_all
  abort_all_k [] = pure_k tt
  abort_all_k (t ∷ ts) =
      bind_k _ _ (ignore_k _ (abort_k env t.id system_error env.system_actor))
        λ _. bind_k _ _ (release_of_k env t.device_id env.system_actor) λ _. abort_all_k ts

  stale_tests_k :
      (cutoff : ℕ) (finals : Option (List TestStatus)) → Keeps (stale_tests env cutoff finals)
  unfolding stale_tests
  stale_tests_k cutoff none = bind_k _ _ (query_k env) λ _. record { keep = λ w h. h }
  stale_tests_k cutoff (some finals) = fetch_k env _

  expire_stale_tests_k : (timeout : ℕ) → Keeps (expire_stale_tests env timeout)
  unfolding expire_stale_tests
  expire_stale_tests_k timeout =
      bind_k _ _ (ask_k env _)
        λ now. bind_k _ _ (stale_tests_k _ _) λ (stale : List Test). abort_all_k stale

  step-Recorded : (w : World) (c : Call) → Recorded w.store → Recorded (step env w c).store
  unfolding step acknowledge_guidelines acknowledge_test
  step-Recorded w (checks_in by req) h = (device_checkin_k env by req).keep w h
  step-Recorded w (acknowledges by id) h =
      (test_k env id (λ now. agreed now by) λ now t k. refl).keep w h
  step-Recorded w (starts candidate by id) h = (start_test_k env candidate by id).keep w h
  step-Recorded w (reports id req) h = (result_webhook_k id req).keep w h
  step-Recorded w (aborts id) h = (admin_abort_test_k id).keep w h
  step-Recorded w (deletes by id) h = (delete_test_admin_k by id).keep w h
  step-Recorded w (cancels booking) h = (cancel_test_by_booking_k booking).keep w h
  step-Recorded w (expires timeout) h = (expire_stale_tests_k timeout).keep w h

  -- From rows of which it holds, through any history of calls and whichever queries fail: a test
  -- that has come to running, completed or aborted has the times and the score or reason that
  -- belong to it, and a device in use names a test.
  pub run-Recorded : (w : World) (cs : List Call) → Recorded w.store → Recorded (run env w cs).store
  unfolding run
  run-Recorded w [] h = h
  run-Recorded w (c ∷ cs) h = run-Recorded (step env w c) cs (step-Recorded w c h)
