-- ===== src/Testing/Checkin.antt =====
-- Checking in at a device.
use adlts_core_engine.Prelude.{
  first_where, text_eq, ℕ, ◌≡◌, refl, ◌∙◌, Bool, Option, none, some, arith, leb,
}
use adlts_core_engine.Testing.Store.{
  guard, from_option, ignore, db_error, device_not_found, invalid_credentials, device_in_use,
  no_pending_test, level_not_allowed, booking_window_closed, Test, Device, Store, World, Env, M,
  Reply, ok, err, and_then, ◌>>=◌, ◌>>◌, fetch, exec, ask, Failure,
}
use adlts_core_engine.Testing.Statements.{
  is_pending_for, is_active, device_by_code, pending_test_for_candidate, checkin_test,
  device_checkin_row, advance_to_guidelines,
}
use adlts_core_engine.Testing.Handlers.{
  has_level, apart, DeviceCheckinRequest, checkin_both, device_checkin,
}

checkin_both-atomic :
    (env : Env) (test device by : ℕ) (w : World) {e : Failure}
    → (checkin_both env test device by w).0 ≡ err e
    → (checkin_both env test device by w).1.store ≡ w.store
unfolding checkin_both checkin_test device_checkin_row fetch exec
checkin_both-atomic env test device by w failed = ground arith

-- An operation that, if it fails, has changed nothing; and one that never changes anything.
record Atomic {ℓ} {A : Type ℓ} (m : M A) : Type ℓ where
  atomic : (w : World) {e : Failure} → (m w).0 ≡ err e → (m w).1.store ≡ w.store

record Reads {ℓ} {A : Type ℓ} (m : M A) : Type ℓ where
  reads : (w : World) → (m w).1.store ≡ w.store

bind-Reads {ℓ κ} :
    {A : Type ℓ} {B : Type κ} (m : M A) (f : A → M B)
    → Reads m
    → ((a : A) → Atomic (f a))
    → Atomic (m >>= f)
bind-Reads {A = A} {B = B} m f k ks = record {
  atomic = λ w failed. go w.store (m w) (k.reads w) failed;
}
  where
    go :
        (s : Store) (r : Reply A × World) {e : Failure}
        → r.1.store ≡ s
        → (and_then r f).0 ≡ err e
        → (and_then r f).1.store ≡ s
    go s (ok a, w) same failed = (ks a).atomic w failed ∙ same
    go s (err x, w) same failed = same

bind-Atomic {ℓ} : {A : Type ℓ} (m : M (Unit {0})) (f : M A) → Atomic m → Atomic (m >> ignore f)
bind-Atomic m f k = record { atomic = λ w failed. go w.store (m w) (λ x e. k.atomic w e) failed }
  where
    go :
        (s : Store) (r : Reply (Unit {0}) × World) {e : Failure}
        → ((x : Failure) → r.0 ≡ err x → r.1.store ≡ s)
        → (and_then r (λ _. ignore f)).0 ≡ err e
        → (and_then r (λ _. ignore f)).1.store ≡ s
    go s (ok a, w) kept failed = absurd (cc failed)
    go s (err x, w) kept failed = kept x refl

guard_r : (b : Bool) (e : Failure) → Reads (guard b e)
guard_r b e = record { reads = λ w. refl }

from_option_r {ℓ} : {A : Type ℓ} (o : Option A) (e : Failure) → Reads (from_option o e)
from_option_r none e = record { reads = λ w. refl }
from_option_r (some a) e = record { reads = λ w. refl }

module _ (env : Env) where
  ask_r {ℓ} : {A : Type ℓ} (answer : ℕ → A) → Reads (ask env answer)
  unfolding ask
  ask_r answer = record { reads = λ w. refl }

  first_r {ℓ} :
      {A : Type ℓ} (read : Store → Option A) (e : Failure)
      → Reads (fetch env read >>= λ found. from_option found e)
  unfolding fetch
  first_r read e = record { reads = λ w. ground arith }

  device_checkin_a : (by : ℕ) (req : DeviceCheckinRequest) → Atomic (device_checkin env by req)
  unfolding device_checkin device_by_code pending_test_for_candidate
  device_checkin_a by req =
      bind-Reads _ _
        (first_r
          (λ s. first_where (λ (d : Device). text_eq d.device_code req.device_code) s.devices)
          device_not_found)
        λ (device : Device).
          bind-Reads _ _
            (guard_r (env.check_password device.password_hash req.password) invalid_credentials)
            λ _. bind-Reads _ _ (guard_r (is_active device.status) device_in_use) λ _.
              bind-Reads _ _
                (first_r (λ s. first_where (is_pending_for by req.test_center_id) s.tests)
                  no_pending_test)
                λ (test : Test).
                  bind-Reads _ _
                    (guard_r
                      (has_level test.test_level_code (env.parse_levels device.allowed_levels))
                      level_not_allowed)
                    λ _.
                      bind-Reads _ _ (ask_r (λ n. env.booking_scheduled_at n test.booking_id))
                        λ (scheduled : Option ℕ).
                          bind-Reads _ _ (from_option_r scheduled db_error) λ (at : ℕ).
                            bind-Reads _ _ (ask_r env.now) λ (now : ℕ).
                              bind-Reads _ _
                                (guard_r (leb (apart now at) env.booking_window)
                                  booking_window_closed)
                                λ _.
                                  bind-Atomic (checkin_both env test.id device.id by)
                                    (advance_to_guidelines env test.id by)
                                    (record {
                                      atomic = λ w failed.
                                          checkin_both-atomic env test.id device.id by w failed;
                                    })

-- A check-in that fails, at whatever point and for whatever reason, leaves every test and every
-- device as it was.
pub device_checkin-atomic :
    (env : Env) (by : ℕ) (req : DeviceCheckinRequest) (w : World) {e : Failure}
    → (device_checkin env by req w).0 ≡ err e
    → (device_checkin env by req w).1.store ≡ w.store
device_checkin-atomic env by req w failed = (device_checkin_a env by req).atomic w failed
