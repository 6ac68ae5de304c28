-- ===== src/Testing/Keeps.antt =====
-- What every row of a test and of a device keeps, and the operations that keep it.
use adlts_core_engine.Prelude.{
  ℕ, ◌≡◌, Bool, true, false, ◌&&◌, Option, none, some, All, All-update_by, Bool-cases, inl, inr,
}
use adlts_core_engine.Testing.Store.{
  running, completed, aborted, in_use, Test, Device, Store, World, Env, M, Reply, ok, err, pure,
  and_then, ◌>>=◌, guard, from_option, replace_error, or_error, ignore, on_error, or_undo,
  rolled_back, transaction, fetch, exec, ask, Failure,
}
use adlts_core_engine.Testing.Statements.{write_test}

abbrev pub is_given {ℓ} : {A : Type ℓ} → Option A → Bool
is_given none = false
is_given (some a) = true

-- A test that has come to a status has what the status promises.
abbrev pub is_recorded : Test → Bool
is_recorded t = elim t.status [
  | running ↦ is_given t.started_at && is_given t.iot_health_passed_at
  | completed ↦
      is_given t.completed_at
      && (is_given t.weighted_total_score
          && (is_given t.passed && is_given t.appeal_window_closes_at))
  | aborted ↦ is_given t.abort_reason && is_given t.aborted_at
  | _ ↦ true
]

-- A device in use names the test it is used by.
abbrev pub is_linked : Device → Bool
is_linked d = elim d.status [ in_use ↦ is_given d.current_test_id | _ ↦ true ]

pub record Recorded (s : Store) : Type 0 where
  pub tests : All (λ (t : Test). is_recorded t ≡ true) s.tests
  pub devices : All (λ (d : Device). is_linked d ≡ true) s.devices

-- An operation that keeps the rows recorded, however it ends.
pub record Keeps {ℓ} {A : Type ℓ} (m : M A) : Type ℓ where
  pub keep : (w : World) → Recorded w.store → Recorded (m w).1.store

module _ {ℓ} {A : Type ℓ} where
  pub pure_k : (a : A) → Keeps (pure a)
  pure_k a = record { keep = λ w h. h }

  pub or_error_k : (e : Failure) (m : M A) → Keeps m → Keeps (or_error e m)
  or_error_k e m k = record { keep = λ w h. go (m w) (k.keep w h) }
    where
      go : (r : Reply A × World) → Recorded r.1.store → Recorded (replace_error e r).1.store
      go (ok a, w) h = h
      go (err x, w) h = h

  pub ignore_k : (m : M A) → Keeps m → Keeps (ignore m)
  ignore_k m k = record { keep = λ w h. k.keep w h }

  pub or_undo_k : (m : M A) (undo : M (Unit {0})) → Keeps m → Keeps undo → Keeps (or_undo m undo)
  or_undo_k m undo k u = record { keep = λ w h. go (m w) (k.keep w h) }
    where
      go : (r : Reply A × World) → Recorded r.1.store → Recorded (on_error r undo).1.store
      go (ok a, w) h = h
      go (err x, w) h = u.keep w h

  pub transaction_k : (m : M A) → Keeps m → Keeps (transaction m)
  transaction_k m k = record { keep = λ w h. go w.store h (m w) (k.keep w h) }
    where
      go :
          (s : Store)
          → Recorded s
          → (r : Reply A × World) → Recorded r.1.store
          → Recorded (rolled_back s r).1.store
      go s old (ok a, w) h = h
      go s old (err x, w) h = old

  pub from_option_k : (o : Option A) (e : Failure) → Keeps (from_option o e)
  from_option_k none e = record { keep = λ w h. h }
  from_option_k (some a) e = record { keep = λ w h. h }

pub bind_k {ℓ κ} :
    {A : Type ℓ} {B : Type κ} (m : M A) (f : A → M B)
    → Keeps m
    → ((a : A) → Keeps (f a))
    → Keeps (m >>= f)
bind_k {A = A} {B = B} m f k ks = record { keep = λ w h. go (m w) (k.keep w h) }
  where
    go : (r : Reply A × World) → Recorded r.1.store → Recorded (and_then r f).1.store
    go (ok a, w) h = (ks a).keep w h
    go (err x, w) h = h

pub guard_k : (b : Bool) (e : Failure) → Keeps (guard b e)
guard_k b e = record { keep = λ w h. h }

module _ (env : Env) where
  pub fetch_k {ℓ} : {A : Type ℓ} (read : Store → A) → Keeps (fetch env read)
  unfolding fetch
  fetch_k read = record { keep = λ w h. h }

  pub ask_k {ℓ} : {A : Type ℓ} (answer : ℕ → A) → Keeps (ask env answer)
  unfolding ask
  ask_k answer = record { keep = λ w h. h }

  pub exec_k :
      (write : ℕ → Store → Store)
      → ((now : ℕ) (s : Store) → Recorded s → Recorded (write now s))
      → Keeps (exec env write)
  unfolding exec
  exec_k write keeps = record {
    keep = λ w h. elim (Bool-cases (env.query_fails w.tick)) [
      | inl bad ↦ rw bad h
      | inr good ↦ rw good (keeps (env.now w.tick) w.store h)
    ];
  }

  pub test_k :
      (id : ℕ) (f : ℕ → Test → Test)
      → ((now : ℕ) (t : Test) → is_recorded t ≡ true → is_recorded (f now t) ≡ true)
      → Keeps (exec env (λ now. write_test id (f now)))
  test_k id f keeps =
      exec_k (λ now. write_test id (f now))
        λ now s h. record {
          tests =
              All-update_by (λ (t : Test). t.id) _ id (f now) s.tests (λ t k. keeps now t k)
                h.tests;
          devices = h.devices;
        }
