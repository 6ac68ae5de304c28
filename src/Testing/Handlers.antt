-- ===== src/Testing/Handlers.antt =====
-- The handlers of internal/testing/handler.go that move tests and devices, and ExpiryWorker of
-- internal/testing/expiry.go.
use adlts_core_engine.Prelude.{
  ℕ, zero, suc, ◌-◌, Bool, false, not, ◌&&◌, ◌||◌, List, [], ◌∷◌, Option, none, some, Text, codes,
  text_eq, is_empty, ◌==◌, ltb, leb, if◌then◌else◌, keep_if,
}
use adlts_core_engine.Testing.Store.{
  TestStatus, pending, ready, guidelines, acknowledged, iot_health, running, finishing, completed,
  aborted, expired, health_check_failed, admin_intervention, system_error, Test, Device, Env, M,
  err, pure, ◌>>=◌, ◌>>◌, guard, from_option, or_error, ignore, or_undo, transaction, fetch, ask,
  db_error, device_error, invalid_credentials, device_in_use, level_not_allowed,
  booking_window_closed, test_not_found, test_not_pending, not_yours, invalid_status, no_device,
  health_check, calibration_failed, no_maneuvers, start_failed,
}
use adlts_core_engine.Testing.Statements.{
  is_status, is_active, device_by_code, device_by_id, test_by_id, pending_test_for_candidate,
  test_by_booking_id, checkin_test, device_checkin_row, release_device, advance_to_guidelines,
  acknowledge_test, start_test_row, complete_test, abort_test,
}

pub record DeviceCheckinRequest : Type 0 where
  pub device_code : Text
  pub password : Text
  pub test_center_id : ℕ

-- What the lane service reports of a test: its score, its verdict, how many maneuvers it saw.
pub record ResultWebhookRequest : Type 0 where
  pub total_score : ℕ
  pub passed : Bool
  pub maneuvers : ℕ

unfoldable pub has_level : Text → List Text → Bool
has_level code [] = false
has_level code (l ∷ ls) = text_eq l code || has_level code ls

-- The distance of two times.
abbrev pub apart : ℕ → ℕ → ℕ
apart a b = if ltb a b then b - a else a - b

module _ (env : Env) where
  -- A query whose answer does not matter here.
  abbrev pub query : M (Unit {0})
  query = fetch env (λ s. tt)

  -- The transaction that takes the device for the test.
  unfoldable pub checkin_both : ℕ → ℕ → ℕ → M (Unit {0})
  checkin_both test device by = transaction (do
    query
    or_error db_error (checkin_test env test device by)
    or_error device_in_use (device_checkin_row env device test by)
    query)

  unfoldable pub device_checkin : ℕ → DeviceCheckinRequest → M (Unit {0})
  device_checkin subject req = do
    device ← device_by_code env req.device_code
    guard (env.check_password device.password_hash req.password) invalid_credentials
    guard (is_active device.status) device_in_use
    test ← pending_test_for_candidate env subject req.test_center_id
    guard (has_level test.test_level_code (env.parse_levels device.allowed_levels))
        level_not_allowed
    scheduled ← ask env (λ n. env.booking_scheduled_at n test.booking_id)
    at ← from_option scheduled db_error
    now ← ask env env.now
    guard (leb (apart now at) env.booking_window) booking_window_closed
    checkin_both test.id device.id subject
    ignore (advance_to_guidelines env test.id subject)

  unfoldable pub acknowledge_guidelines : ℕ → ℕ → M (Unit {0})
  acknowledge_guidelines subject id = acknowledge_test env id subject

  -- `HealthChecker.Check`: whether the device answered. It is an error if there is no stream, or
  -- if the outcome cannot be stored.
  unfoldable pub check_health : Text → M Bool
  check_health stream_url = do
    guard (not (is_empty stream_url)) health_check
    passed ← ask env (λ n. env.device_answers n stream_url)
    or_error health_check query
    pure passed

  -- `startTest` from the calibration on.
  unfoldable pub begin_test : Test → Device → (subject id : ℕ) → M (Unit {0})
  begin_test test device subject id = do
    calibrated ← ask env (λ n. env.calibrates n device.stream_url)
    guard calibrated calibration_failed
    maneuvers ←
        or_error no_maneuvers (query >> ask env (λ n. env.plan_maneuvers n test.test_plan_id))
    guard (ltb 0 maneuvers) no_maneuvers
    begun ← ask env (λ n. env.starts_test n test.id)
    guard begun start_failed
    ignore query
    ignore (start_test_row env id subject)

  unfoldable pub start_test : (is_candidate : Bool) (subject id : ℕ) → M (Unit {0})
  start_test is_candidate subject id = do
    test ← or_error test_not_found (test_by_id env id)
    guard (not (is_candidate && not (test.candidate_id == subject))) not_yours
    guard (is_status test.status acknowledged) invalid_status
    device_id ← from_option test.device_id no_device
    device ← or_error device_error (device_by_id env device_id)
    _ ← or_undo (check_health device.stream_url) (do
      ignore (abort_test env id health_check_failed subject)
      ignore (release_device env device_id subject))
    begin_test test device subject id

  -- The rows of sessions and their results, whose errors are only logged.
  unfoldable pub store_maneuvers : ℕ → M (Unit {0})
  store_maneuvers zero = pure tt
  store_maneuvers (suc n) = ignore query >> (ignore query >> store_maneuvers n)

  unfoldable pub result_webhook : ℕ → ResultWebhookRequest → M (Unit {0})
  result_webhook id req = do
    test ← or_error test_not_found (test_by_id env id)
    ignore query
    ignore query
    store_maneuvers req.maneuvers
    query
    ignore (complete_test env id req.total_score req.passed env.system_actor)
    ignore query
    ignore query

  -- `if test.DeviceID != nil { _ = ReleaseDevice }`.
  unfoldable pub release_of : Option ℕ → ℕ → M (Unit {0})
  release_of none by = pure tt
  release_of (some device) by = ignore (release_device env device by)

  -- The device is read first, to tell it of the abortion.
  unfoldable pub release_after_read : Option ℕ → M (Unit {0})
  release_after_read none = pure tt
  release_after_read (some device) =
      ignore query >> ignore (release_device env device env.system_actor)

  unfoldable pub admin_abort_test : ℕ → M (Unit {0})
  admin_abort_test id = do
    test ← or_error test_not_found (test_by_id env id)
    ignore (abort_test env id admin_intervention env.system_actor)
    release_after_read test.device_id

  unfoldable pub delete_test_admin : ℕ → ℕ → M (Unit {0})
  delete_test_admin subject id = do
    test ← or_error test_not_found (test_by_id env id)
    guard (is_status test.status pending) test_not_pending
    abort_test env id admin_intervention subject
    release_of test.device_id subject

  -- What is done for the test of a cancelled booking: only a pending test is cancelled.
  unfoldable pub cancel_found : Option Test → M (Unit {0})
  cancel_found none = pure tt
  cancel_found (some test) =
      if is_status test.status pending
      then (abort_test env test.id admin_intervention env.system_actor
          >> release_of test.device_id env.system_actor)
      else pure tt

  unfoldable pub cancel_test_by_booking : ℕ → M (Unit {0})
  cancel_test_by_booking booking = test_by_booking_id env booking >>= cancel_found

  -- The query of `expireStaleTests` names three labels of the type `test_status`; PostgreSQL
  -- refuses a query with a label that the type does not have.
  abbrev pub status_of_label : Text → Option TestStatus
  status_of_label s =
      if text_eq s (codes "completed")
      then some completed
      else if text_eq s (codes "aborted")
      then some aborted
      else if text_eq s (codes "pending")
      then some pending
      else if text_eq s (codes "ready")
      then some ready
      else if text_eq s (codes "guidelines")
      then some guidelines
      else if text_eq s (codes "acknowledged")
      then some acknowledged
      else if text_eq s (codes "iot_health")
      then some iot_health
      else if text_eq s (codes "running")
      then some running
      else if text_eq s (codes "finishing")
      then some finishing
      else if text_eq s (codes "expired")
      then some expired
      else none

  abbrev pub add_label : Option TestStatus → Option (List TestStatus) → Option (List TestStatus)
  add_label (some s) (some l) = some (s ∷ l)
  add_label _ _ = none

  unfoldable pub statuses_of_labels : List Text → Option (List TestStatus)
  statuses_of_labels [] = some []
  statuses_of_labels (l ∷ ls) = add_label (status_of_label l) (statuses_of_labels ls)

  abbrev pub final_labels : List Text
  final_labels = codes "completed" ∷ codes "aborted" ∷ codes "failed" ∷ []

  unfoldable pub is_one_of : List TestStatus → TestStatus → Bool
  is_one_of [] s = false
  is_one_of (x ∷ xs) s = is_status x s || is_one_of xs s

  unfoldable pub stale_tests : ℕ → Option (List TestStatus) → M (List Test)
  stale_tests cutoff none = query >> λ w. (err db_error, w)
  stale_tests cutoff (some finals) = fetch env (λ s.
      keep_if (λ (t : Test). not (is_one_of finals t.status) && ltb t.updated_at cutoff) s.tests)

  unfoldable pub abort_all : List Test → M (Unit {0})
  abort_all [] = pure tt
  abort_all (t ∷ ts) =
      ignore (abort_test env t.id system_error env.system_actor)
      >> (release_of t.device_id env.system_actor >> abort_all ts)

  unfoldable pub expire_stale_tests : (timeout : ℕ) → M (Unit {0})
  expire_stale_tests timeout = do
    now ← ask env env.now
    stale ← stale_tests (now - timeout) (statuses_of_labels final_labels)
    abort_all stale
