-- ===== src/Testing/History.antt =====
-- Calls of the handlers, made one after another.
use adlts_core_engine.Prelude.{ℕ, Bool, List, [], ◌∷◌}
use adlts_core_engine.Testing.Store.{World, Env}
use adlts_core_engine.Testing.Handlers.{
  DeviceCheckinRequest, ResultWebhookRequest, device_checkin, acknowledge_guidelines, start_test,
  result_webhook, admin_abort_test, delete_test_admin, cancel_test_by_booking, expire_stale_tests,
}

-- The calls: the first argument is who calls, where it matters.
pub data Call : Type 0 where
  checks_in : ℕ → DeviceCheckinRequest → Call
  acknowledges : ℕ → ℕ → Call
  starts : Bool → ℕ → ℕ → Call
  reports : ℕ → ResultWebhookRequest → Call
  aborts : ℕ → Call
  deletes : ℕ → ℕ → Call
  cancels : ℕ → Call
  expires : ℕ → Call

unfoldable pub step : Env → World → Call → World
step env w (checks_in by req) = (device_checkin env by req w).1
step env w (acknowledges by id) = (acknowledge_guidelines env by id w).1
step env w (starts candidate by id) = (start_test env candidate by id w).1
step env w (reports id req) = (result_webhook env id req w).1
step env w (aborts id) = (admin_abort_test env id w).1
step env w (deletes by id) = (delete_test_admin env by id w).1
step env w (cancels booking) = (cancel_test_by_booking env booking w).1
step env w (expires timeout) = (expire_stale_tests env timeout w).1

unfoldable pub run : Env → World → List Call → World
run env w [] = w
run env w (c ∷ cs) = run env (step env w c) cs
