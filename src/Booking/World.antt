-- ===== src/Booking/World.antt =====
-- The state that the booking operations share, what they take from outside, and the monad in which
-- they run. Each query, clock reading and generated id is one tick; the environment says by tick
-- which queries fail and what the others answer. A failed query changes nothing.
use adlts_core_engine.Prelude.{ℕ, suc, Bool, false, ◌||◌, List, Option, Text, ℤ, if◌then◌else◌}
use adlts_core_engine.Booking.Types.{
  BookingRow, Slot, Payment, Candidate, Institute, Error, database,
}

-- The tables that this module reads and writes.
pub record Tables : Type 0 where
  pub bookings : List BookingRow
  pub slots : List Slot
  pub payments : List Payment
  pub candidates : List Candidate
  pub institutes : List Institute

pub record World : Type 0 where
  pub tables : Tables
  pub open tables use *
  pub tick : ℕ

pub data Result {ℓ} (A : Type ℓ) : Type ℓ where
  ok : A → Result A
  err : Error → Result A

pub record PaymentInitRequest : Type 0 where
  pub tx_ref : Text
  pub amount_cents : ℤ
  pub currency : Text
  pub email : Text
  pub first_name : Text
  pub last_name : Text
  pub phone : Text
  pub callback_url : Text
  pub return_url : Text

pub record PaymentInitResult : Type 0 where
  pub checkout_url : Text
  pub tx_ref : Text

pub record PaymentVerifyResult : Type 0 where
  pub tx_ref : Text
  pub status : Text
  pub amount_cents : ℤ
  pub currency : Text

-- The interface `PaymentProvider`; each call is told its tick, as it may answer otherwise later.
pub record PaymentProvider : Type 0 where
  pub initiate_payment : ℕ → PaymentInitRequest → Result PaymentInitResult
  pub verify_transaction : ℕ → Text → Result PaymentVerifyResult

pub record TestCreationDetails : Type 0 where
  pub booking_id : ℕ
  pub candidate_id : ℕ
  pub test_center_id : ℕ
  pub test_level_code : Text

-- What the POST to /internal/tests comes back with: no response, or a status code and the test id
-- of the body, if the body decodes to one.
pub data HttpOutcome : Type 0 where
  unreachable : HttpOutcome
  response : ℕ → Text → HttpOutcome

pub record Env : Type 0 where
  pub query_fails : ℕ → Bool
  pub now : ℕ → ℕ
  pub new_uuid : ℕ → ℕ
  pub parse_uuid : Text → Option ℕ
  pub uuid_string : ℕ → Text
  pub provider : PaymentProvider
  pub create_test : ℕ → TestCreationDetails → HttpOutcome
  -- The fields of `Service`.
  pub base_url : Text
  pub frontend_base_url : Text
  pub internal_api_key : Text

abbrev pub M {ℓ} : Type ℓ → Type ℓ
M A = World → Result A × World

abbrev pub pure {ℓ} : {A : Type ℓ} → A → M A
pure a w = (ok a, w)

abbrev pub fail {ℓ} : {A : Type ℓ} → Error → M A
fail e w = (err e, w)

abbrev pub and_then {ℓ κ} :
    {A : Type ℓ} {B : Type κ} → Result A × World → (A → M B) → Result B × World
and_then (ok a, w) f = f a w
and_then (err e, w) f = (err e, w)

infixl 5 ◌>>=◌ ◌>>◌
abbrev pub ◌>>=◌ {ℓ κ} : {A : Type ℓ} {B : Type κ} → M A → (A → M B) → M B
◌>>=◌ m f w = and_then (m w) f

abbrev pub ◌>>◌ {ℓ} : {B : Type ℓ} → M (Unit {0}) → M B → M B
m >> k = m >>= λ _. k

abbrev pub guard : Bool → Error → M (Unit {0})
guard b e w = (if b then ok tt else err e, w)

-- `if b { m }`.
abbrev pub when : Bool → M (Unit {0}) → M (Unit {0})
when b m w = if b then m w else (ok tt, w)

-- `if err != nil { return e }`, where the error is replaced.
abbrev pub replace_error {ℓ} : {A : Type ℓ} → Error → Result A × World → Result A × World
replace_error e (ok a, w) = (ok a, w)
replace_error e (err _, w) = (err e, w)

abbrev pub or_error {ℓ} : {A : Type ℓ} → Error → M A → M A
or_error e m w = replace_error e (m w)

-- `_ = m`.
abbrev pub ignore {ℓ} : {A : Type ℓ} → M A → M (Unit {0})
ignore m w = (ok tt, (m w).1)

-- `if err := m; err != nil { _ = undo; return err }`.
abbrev pub on_error {ℓ} : {A : Type ℓ} → Result A × World → M (Unit {0}) → Result A × World
on_error (ok a, w) undo = (ok a, w)
on_error (err e, w) undo = (err e, (undo w).1)

abbrev pub or_undo {ℓ} : {A : Type ℓ} → M A → M (Unit {0}) → M A
or_undo m undo w = on_error (m w) undo

abbrev pub from_option {ℓ} : {A : Type ℓ} → Option A → Error → M A
from_option (Option.some a) e w = (ok a, w)
from_option Option.none e w = (err e, w)

abbrev pub ticked : World → World
ticked w = record w { tick = suc w.tick }

module _ (env : Env) where
  -- A query that reads.
  unfoldable pub fetch {ℓ} : {A : Type ℓ} → (Tables → A) → M A
  fetch read w = (if env.query_fails w.tick then err database else ok (read w.tables), ticked w)

  -- A statement that writes, given the time of the statement. `blocked` says when a constraint of
  -- the schema refuses it.
  unfoldable pub exec_unless : (Tables → Bool) → (ℕ → Tables → Tables) → M (Unit {0})
  exec_unless blocked write w =
      if env.query_fails w.tick || blocked w.tables
      then (err database, ticked w)
      else (ok tt, record w { tables = write (env.now w.tick) w.tables; tick = suc w.tick })

  unfoldable pub exec : (ℕ → Tables → Tables) → M (Unit {0})
  unfolding exec_unless
  exec = exec_unless (λ _. false)

  -- `time.Now()`.
  unfoldable pub time_now : M ℕ
  time_now w = (ok (env.now w.tick), ticked w)

  -- `uuid.New()`.
  unfoldable pub uuid_new : M ℕ
  uuid_new w = (ok (env.new_uuid w.tick), ticked w)
