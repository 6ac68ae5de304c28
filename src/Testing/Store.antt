-- ===== src/Testing/Store.antt =====
-- The rows of tests and devices (internal/domain/testing.go), what the testing core takes from
-- outside, and the monad of its handlers. As in the booking module each query, clock reading and
-- outside call is a tick, and the environment says which queries fail, be it for the connection
-- or for a constraint; a failed query changes nothing.
use adlts_core_engine.Prelude.{ℕ, suc, Bool, List, Option, Text, if◌then◌else◌}

pub data TestStatus : Type 0 where
  pending ready guidelines acknowledged iot_health running finishing completed aborted expired :
      TestStatus

pub data DeviceStatus : Type 0 where
  active inactive in_use maintenance : DeviceStatus

pub data AbortReason : Type 0 where
  health_check_failed stream_lost admin_intervention candidate_no_show device_failure system_error :
      AbortReason

-- The columns of `tests` that the code here reads or writes. A score is only stored: it stands as
-- its 64 bits.
pub record Test : Type 0 where
  pub id : ℕ
  pub booking_id : ℕ
  pub candidate_id : ℕ
  pub test_center_id : ℕ
  pub test_plan_id : ℕ
  pub device_id : Option ℕ
  pub test_level_code : Text
  pub status : TestStatus
  pub abort_reason : Option AbortReason
  pub device_scanned_at : Option ℕ
  pub guidelines_start_at : Option ℕ
  pub acknowledged_at : Option ℕ
  pub iot_health_passed_at : Option ℕ
  pub started_at : Option ℕ
  pub completed_at : Option ℕ
  pub aborted_at : Option ℕ
  pub weighted_total_score : Option ℕ
  pub passed : Option Bool
  pub appeal_window_closes_at : Option ℕ
  pub result_visible_to_candidate_at : Option ℕ
  pub updated_at : ℕ
  pub updated_by : ℕ

pub record Device : Type 0 where
  pub id : ℕ
  pub device_code : Text
  pub password_hash : Text
  pub allowed_levels : Text
  pub stream_url : Text
  pub status : DeviceStatus
  pub current_test_id : Option ℕ
  pub last_seen_at : Option ℕ
  pub updated_at : ℕ
  pub updated_by : ℕ

pub record Store : Type 0 where
  pub tests : List Test
  pub devices : List Device

pub record World : Type 0 where
  pub store : Store
  pub open store use *
  pub tick : ℕ

-- The codes of the failures that handlers answer with.
pub data Failure : Type 0 where
  db_error device_error device_not_found invalid_credentials device_in_use no_pending_test : Failure
  level_not_allowed booking_window_closed test_not_found test_not_pending not_yours : Failure
  invalid_status no_device health_check calibration_failed no_maneuvers start_failed : Failure

pub data Reply {ℓ} (A : Type ℓ) : Type ℓ where
  ok : A → Reply A
  err : Failure → Reply A

pub record Env : Type 0 where
  pub query_fails : ℕ → Bool
  pub now : ℕ → ℕ
  -- Whether a password matches a hash, and the list in a JSON text, empty if it is none.
  pub check_password : Text → Text → Bool
  pub parse_levels : Text → List Text
  -- The other tables: when a booking is scheduled, and how many maneuvers a plan has.
  pub booking_scheduled_at : ℕ → ℕ → Option ℕ
  pub plan_maneuvers : ℕ → ℕ → ℕ
  -- Whether a device answers the health check, and what the lane service says.
  pub device_answers : ℕ → Text → Bool
  pub calibrates : ℕ → Text → Bool
  pub starts_test : ℕ → ℕ → Bool
  pub booking_window : ℕ
  pub system_actor : ℕ

abbrev pub M {ℓ} : Type ℓ → Type ℓ
M A = World → Reply A × World

abbrev pub pure {ℓ} : {A : Type ℓ} → A → M A
pure a w = (ok a, w)

abbrev pub and_then {ℓ κ} :
    {A : Type ℓ} {B : Type κ} → Reply A × World → (A → M B) → Reply B × World
and_then (ok a, w) f = f a w
and_then (err e, w) f = (err e, w)

infixl 5 ◌>>=◌ ◌>>◌
abbrev pub ◌>>=◌ {ℓ κ} : {A : Type ℓ} {B : Type κ} → M A → (A → M B) → M B
◌>>=◌ m f w = and_then (m w) f

abbrev pub ◌>>◌ {ℓ} : {B : Type ℓ} → M (Unit {0}) → M B → M B
m >> k = m >>= λ _. k

abbrev pub guard : Bool → Failure → M (Unit {0})
guard b e w = (if b then ok tt else err e, w)

abbrev pub from_option {ℓ} : {A : Type ℓ} → Option A → Failure → M A
from_option (Option.some a) e w = (ok a, w)
from_option Option.none e w = (err e, w)

-- `if err != nil { fail; return }`, whatever the error was.
abbrev pub replace_error {ℓ} : {A : Type ℓ} → Failure → Reply A × World → Reply A × World
replace_error e (ok a, w) = (ok a, w)
replace_error e (err _, w) = (err e, w)

abbrev pub or_error {ℓ} : {A : Type ℓ} → Failure → M A → M A
or_error e m w = replace_error e (m w)

-- `_ = m`.
abbrev pub ignore {ℓ} : {A : Type ℓ} → M A → M (Unit {0})
ignore m w = (ok tt, (m w).1)

-- `if err != nil { undo; return }`.
abbrev pub on_error {ℓ} : {A : Type ℓ} → Reply A × World → M (Unit {0}) → Reply A × World
on_error (ok a, w) undo = (ok a, w)
on_error (err e, w) undo = (err e, (undo w).1)

abbrev pub or_undo {ℓ} : {A : Type ℓ} → M A → M (Unit {0}) → M A
or_undo m undo w = on_error (m w) undo

-- A transaction: what it wrote is taken back where it ends in an error.
abbrev pub rolled_back {ℓ} : {A : Type ℓ} → Store → Reply A × World → Reply A × World
rolled_back s (ok a, w) = (ok a, w)
rolled_back s (err e, w) = (err e, record w { store = s })

abbrev pub transaction {ℓ} : {A : Type ℓ} → M A → M A
transaction m w = rolled_back w.store (m w)

abbrev pub ticked : World → World
ticked w = record w { tick = suc w.tick }

module _ (env : Env) where
  -- A query that reads, and one that only has to succeed.
  unfoldable pub fetch {ℓ} : {A : Type ℓ} → (Store → A) → M A
  fetch read w = (if env.query_fails w.tick then err db_error else ok (read w.store), ticked w)

  -- A statement that writes, given its time.
  unfoldable pub exec : (ℕ → Store → Store) → M (Unit {0})
  exec write w =
      if env.query_fails w.tick
      then (err db_error, ticked w)
      else (ok tt, record w { store = write (env.now w.tick) w.store; tick = suc w.tick })

  -- An answer from outside, by tick.
  unfoldable pub ask {ℓ} : {A : Type ℓ} → (ℕ → A) → M A
  ask answer w = (ok (answer w.tick), ticked w)
