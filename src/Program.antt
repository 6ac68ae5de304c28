-- ===== src/Program.antt =====
-- Programs over a database: the state is a set of tables and a tick, a program returns a value or an
-- error beside the state, and what was written before an error stays written. Each query, clock
-- reading, generated id and outside call is one tick; the host says by tick which queries fail, what
-- the clock shows and which ids come. A failed query changes nothing.
pub mod Triple
use adlts_core_engine.Prelude.{ℕ, suc, Bool, false, ◌||◌, Option, if◌then◌else◌}

pub record State (S : Type 0) : Type 0 where
  pub tables : S
  pub tick : ℕ

pub data Outcome {ℓ} (E : Type 0) (A : Type ℓ) : Type ℓ where
  ok : A → Outcome E A
  err : E → Outcome E A

abbrev pub Program {ℓ} : Type 0 → Type 0 → Type ℓ → Type ℓ
Program S E A = State S → Outcome E A × State S

-- The database, the clock and `uuid.New`.
pub record Host : Type 0 where
  pub query_fails : ℕ → Bool
  pub now : ℕ → ℕ
  pub new_uuid : ℕ → ℕ

abbrev pub ticked : {S : Type 0} → State S → State S
ticked w = record w { tick = suc w.tick }

module _ {S E : Type 0} where
  abbrev pub pure {ℓ} : {A : Type ℓ} → A → Program S E A
  pure a w = (ok a, w)

  abbrev pub fail {ℓ} : {A : Type ℓ} → E → Program S E A
  fail e w = (err e, w)

  -- A result that is there already.
  abbrev pub lift {ℓ} : {A : Type ℓ} → Outcome E A → Program S E A
  lift r w = (r, w)

  abbrev pub and_then {ℓ κ} :
      {A : Type ℓ} {B : Type κ}
      → Outcome E A × State S
      → (A → Program S E B)
      → Outcome E B × State S
  and_then (ok a, w) f = f a w
  and_then (err e, w) f = (err e, w)

  infixl 5 ◌>>=◌ ◌>>◌
  abbrev pub ◌>>=◌ {ℓ κ} :
      {A : Type ℓ} {B : Type κ} → Program S E A → (A → Program S E B) → Program S E B
  ◌>>=◌ m f w = and_then (m w) f

  abbrev pub ◌>>◌ {ℓ} : {B : Type ℓ} → Program S E (Unit {0}) → Program S E B → Program S E B
  m >> k = m >>= λ _. k

  abbrev pub guard : Bool → E → Program S E (Unit {0})
  guard b e w = (if b then ok tt else err e, w)

  -- `if err != nil { return e }`, where the error is replaced.
  abbrev pub replace_error {ℓ} : {A : Type ℓ} → E → Outcome E A × State S → Outcome E A × State S
  replace_error e (ok a, w) = (ok a, w)
  replace_error e (err _, w) = (err e, w)

  abbrev pub or_error {ℓ} : {A : Type ℓ} → E → Program S E A → Program S E A
  or_error e m w = replace_error e (m w)

  -- `_ = m`.
  abbrev pub ignore {ℓ} : {A : Type ℓ} → Program S E A → Program S E (Unit {0})
  ignore m w = (ok tt, (m w).1)

  -- `if err := m; err != nil { return a }`, where an error stands for a value.
  abbrev pub recovered {ℓ} : {A : Type ℓ} → A → Outcome E A × State S → Outcome E A × State S
  recovered d (ok a, w) = (ok a, w)
  recovered d (err e, w) = (ok d, w)

  abbrev pub recover {ℓ} : {A : Type ℓ} → A → Program S E A → Program S E A
  recover d m w = recovered d (m w)

  abbrev pub from_option {ℓ} : {A : Type ℓ} → Option A → E → Program S E A
  from_option (Option.some a) e w = (ok a, w)
  from_option Option.none e w = (err e, w)

  -- `if err != nil || x == nil { return e }`.
  abbrev pub present {ℓ} : {A : Type ℓ} → E → Program S E (Option A) → Program S E A
  present e m = or_error e m >>= λ found. from_option found e

  module _ (host : Host) (database : E) where
    -- A query that reads.
    unfoldable pub fetch {ℓ} : {A : Type ℓ} → (S → A) → Program S E A
    fetch read w = (if host.query_fails w.tick then err database else ok (read w.tables), ticked w)

    -- A statement that writes, given the time of the statement, and is refused where `blocked` says
    -- that it would break a constraint of the schema.
    unfoldable pub exec_unless : (S → Bool) → (ℕ → S → S) → Program S E (Unit {0})
    exec_unless blocked write w =
        if host.query_fails w.tick || blocked w.tables
        then (err database, ticked w)
        else (ok tt, record { tables = write (host.now w.tick) w.tables; tick = suc w.tick })

    unfoldable pub exec : (ℕ → S → S) → Program S E (Unit {0})
    unfolding exec_unless
    exec = exec_unless (λ _. false)

    -- A statement that writes and returns what its rows held (`RETURNING`).
    unfoldable pub exec_returning {ℓ} : {A : Type ℓ} → (S → A) → (ℕ → S → S) → Program S E A
    exec_returning read write w = if host.query_fails w.tick then (err database, ticked w) else (
      ok (read w.tables),
      record { tables = write (host.now w.tick) w.tables; tick = suc w.tick },
    )

  -- An answer from outside, by tick.
  abbrev pub ask {ℓ} : {A : Type ℓ} → (ℕ → A) → Program S E A
  ask answer w = (ok (answer w.tick), ticked w)
