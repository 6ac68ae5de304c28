-- ===== src/Identity/Changes.antt =====
-- What a password change has asked for and leaves.
use adlts_core_engine.Prelude.{
  arith, ℕ, ◌≡◌, ◌≢◌, refl, sym, subst, ◌∙◌, true, false, not, some, Text, text_eq, text_eq_refl,
}
use adlts_core_engine.Program.{State, ok, err}
use adlts_core_engine.Program.Triple.{
  run_t, Triple, bind_t, weaken_t, weaken_pre_t, guard_t, from_option_t, answered_t, assume_t,
  fetch_t, exec_t,
}
use adlts_core_engine.Security.Guards.{AuthContext, entity_name}
use adlts_core_engine.Booking.Types.{EntityType}
use adlts_core_engine.Identity.Hashes.{
  HasHash, Rehashed, kind_of, entity_table_sound, hash_of-HasHash, with_password-Rehashed,
}
use adlts_core_engine.Identity.World.{
  Tables, Error, Env, M, database, password_too_short, hash_failed, not_found, same_password,
  unknown_entity_type, invalid_credentials,
}
use adlts_core_engine.Identity.Requests.{ChangePasswordRequest, is_short}
use adlts_core_engine.Identity.Repository.Rows.{Table}
use adlts_core_engine.Identity.Repository.Lookups.{hash_of, get_password_hash}
use adlts_core_engine.Identity.Repository.Writes.{update_password}
use adlts_core_engine.Identity.Service.Tokens.{entity_table, hash_password}
use adlts_core_engine.Identity.Service.Passwords.{change_password}

-- What a password change has asked for: the current password matches the hash of the caller's
-- account among those of its kind, and the new one is another, long enough, and hashed.
pub record Asked (env : Env) (auth : AuthContext) (req : ChangePasswordRequest) (t : Tables)
    (kind : EntityType) (hash : Text) : Type 0 where
  pub kind_is : auth.entity_type ≡ entity_name kind
  pub current : Text
  pub current_is : HasHash kind auth.subject_id current t
  pub matched : env.compare_hash_and_password current req.current_password ≡ true
  pub long_enough : is_short req.new_password ≡ false
  pub another : req.current_password ≢ req.new_password
  pub hash_at : ℕ
  pub hashed : env.generate_from_password hash_at req.new_password ≡ some hash

-- And what it has done: that account has the new hash, and nothing else is changed.
pub record Changed (env : Env) (auth : AuthContext) (req : ChangePasswordRequest) (t t' : Tables)
    : Type 0 where
  pub kind : EntityType
  pub hash : Text
  pub asked : Asked env auth req t kind hash
  pub at : ℕ
  pub rehashed : Rehashed kind auth.subject_id hash at t t'

short_false : (p : Text) → not (is_short p) ≡ true → is_short p ≡ false
short_false p e = ground arith

texts_differ : (a b : Text) → not (text_eq a b) ≡ true → a ≢ b
texts_differ a b e same =
    let equal : text_eq a b ≡ true = rw same (text_eq_refl b) in absurd (ground arith)

module _ (env : Env) (auth : AuthContext) (req : ChangePasswordRequest) (t0 : Tables) where
  get_password_hash_t :
      {P : Tables → Type 0} (table : Table)
      → ((t : Tables) → P t → t ≡ t0)
      → Triple
          (λ _ t. t ≡ t0)
          P
          (get_password_hash env table auth.subject_id)
          (λ h t. P t × (hash_of table auth.subject_id t ≡ some h))
  unfolding get_password_hash
  get_password_hash_t table same = bind_t (fetch_t env.host database same _) λ found.
      weaken_t (from_option_t found not_found (λ t k _. same t k.0))
        (λ h t k. (k.0.0, sym k.0.1 ∙ k.1))

  abbrev EndsChanged : M (Unit {0}) → (Tables → Type 0) → Type 0
  EndsChanged m P = Triple (λ _ t. t ≡ t0) P m (λ _ t. Changed env auth req t0 t)

  finish_t :
      (table : Table) (hash : Text)
      → Asked env auth req t0 (kind_of table) hash
      → EndsChanged (update_password env table auth.subject_id hash) (λ t. t ≡ t0)
  unfolding update_password
  finish_t table hash asked =
      exec_t env.host database (λ _ p. p) _
        (λ now t p. record {
          kind = kind_of table;
          hash = hash;
          asked = asked;
          at = now;
          rehashed = rw p (with_password-Rehashed table auth.subject_id hash now t0);
        })

  change_password_t : EndsChanged (change_password env auth req) (λ t. t ≡ t0)
  unfolding change_password hash_password
  change_password_t =
      bind_t (guard_t (not (is_short req.new_password)) password_too_short (λ _ p _. p)) λ _.
        bind_t
          (guard_t (not (text_eq req.current_password req.new_password)) same_password
            (λ _ p _. p.0))
          λ _.
            bind_t
              (from_option_t (entity_table auth.entity_type) unknown_entity_type (λ _ p _. p.0.0))
              λ table. bind_t (get_password_hash_t table (λ _ p. p.0.0.0)) λ current.
                bind_t
                  (guard_t (env.compare_hash_and_password current req.current_password)
                    invalid_credentials (λ _ p _. p.0.0.0.0))
                  λ _.
                    bind_t (answered_t (λ n. env.generate_from_password n req.new_password))
                      λ hashed.
                        bind_t (from_option_t hashed hash_failed (λ _ p _. p.0.0.0.0.0.0)) λ hash.
                          assume_t {F = Asked env auth req t0 (kind_of table) hash}
                            (λ t k. record {
                              current = current;
                              hash_at = k.0.1.0;
                              kind_is = entity_table_sound auth.entity_type table k.0.0.0.0.1;
                              current_is = hash_of-HasHash table auth.subject_id t0 current (
                                  subst (λ x. hash_of table auth.subject_id x ≡ some current)
                                    k.0.0.0.0.0.0.0 k.0.0.0.1);
                              matched = k.0.0.1;
                              long_enough = short_false req.new_password k.0.0.0.0.0.0.1;
                              another =
                                  texts_differ req.current_password req.new_password k.0.0.0.0.0.1;
                              hashed = sym k.0.1.1 ∙ k.1;
                            })
                            λ asked.
                              weaken_pre_t (λ t k. k.0.0.0.0.0.0.0) (finish_t table hash asked)

-- Whatever fails on the way, a password change that succeeds has asked for the current password of the
-- caller's account, in the table of its kind, and for a new one that is another and long enough, and
-- has put a hash of the new one into that account's row, with the time, and changed nothing else.
pub change_password-Changed :
    (env : Env) (auth : AuthContext) (req : ChangePasswordRequest) (w : State Tables)
    {w' : State Tables}
    → change_password env auth req w ≡ (ok tt, w')
    → Changed env auth req w.tables w'.tables
change_password-Changed env auth req w e = run_t w (change_password_t env auth req w.tables) refl e

-- A password change that fails, for whatever reason, changes no table.
change_password-refusal :
    (env : Env) (auth : AuthContext) (req : ChangePasswordRequest) (w : State Tables) {x : Error}
    {w' : State Tables}
    → change_password env auth req w ≡ (err x, w')
    → w'.tables ≡ w.tables
change_password-refusal env auth req w e = run_t w (change_password_t env auth req w.tables) refl e
