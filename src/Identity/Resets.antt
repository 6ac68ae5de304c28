-- ===== src/Identity/Resets.antt =====
-- That a reset token is spent.
use adlts_core_engine.Prelude.{
  ℕ, ◌≡◌, false, not, inl, inr, Option, none, Text, Bool-cases, ltb, first_where, All,
}
use adlts_core_engine.Program.{State, ok, err, ◌>>=◌, present, exec_returning}
use adlts_core_engine.Program.Triple.{
  run_t, Triple, pure_t, bind_t, or_error_t, weaken_pre_t, weaken_error_t, guard_t, from_option_t,
  ask_t, exec_t, exec_returning_t,
}
use adlts_core_engine.Identity.Accounts.{Candidate, Expert, Admin, SuperAdmin, BaseOrg}
use adlts_core_engine.Identity.World.{
  Tables, Error, Env, M, database, invalid_reset_token, password_too_short, hash_failed, not_found,
}
use adlts_core_engine.Identity.Requests.{is_short}
use adlts_core_engine.Identity.Repository.Rows.{
  Table, candidates, experts, admins, super_admins, institutes, transport_authorities,
  with_password, reset_of,
}
use adlts_core_engine.Identity.Repository.Searches.{first_where-delete_where}
use adlts_core_engine.Identity.Repository.Writes.{consume_password_reset_token, update_password}
use adlts_core_engine.Identity.Service.Tokens.{hash_password}
use adlts_core_engine.Identity.Service.Passwords.{finders, update_password_by_email, reset_password}
use adlts_core_engine.Identity.Reads.{
  candidate_by_email_t, expert_by_email_t, admin_by_email_t, super_admin_by_email_t,
  institute_by_email_t, authority_by_email_t, present_t, first_success_t,
}

abbrev Any : Error → Tables → Type 0
Any e t = Unit

-- No row has the token.
abbrev pub IsGone : Text → Tables → Type 0
IsGone token t = first_where (reset_of token) t.password_reset_tokens ≡ none

with_password-IsGone :
    (token : Text) (table : Table) (id : ℕ) (hash : Text) (now : ℕ) (t : Tables)
    → IsGone token t
    → IsGone token (with_password table id hash now t)
unfolding with_password
with_password-IsGone token candidates id hash now t h = h
with_password-IsGone token _ id hash now t h = h

module _ (env : Env) (token : Text) where
  -- What leaves the token gone, whether it succeeds or fails.
  abbrev Leaves : M (Unit {0}) → Type 0
  Leaves m = Triple (λ _. IsGone token) (IsGone token) m (λ _. IsGone token)

  update_password_t :
      (table : Table) (id : ℕ) (hash : Text) → Leaves (update_password env table id hash)
  unfolding update_password
  update_password_t table id hash =
      exec_t env.host database (λ _ p. p) _
        (λ now t p. with_password-IsGone token table id hash now t p)

  finder_t :
      {A : Type 0} {m : M (Option A)} {read : Tables → Option A} (table : Table) (key : A → ℕ)
      (hash : Text)
      → Triple (λ _. IsGone token) (IsGone token) m (λ o t. IsGone token t × (o ≡ read t))
      → Leaves (present not_found m >>= λ a. update_password env table (key a) hash)
  finder_t table key hash h =
      bind_t (present_t env not_found (λ _ p. p) h)
        λ a. weaken_pre_t (λ t k. k.0) (update_password_t table (key a) hash)

  finders_t : (email hash : Text) → All Leaves (finders env email hash)
  finders_t email hash = (
    finder_t candidates (λ (c : Candidate). c.person.id) hash
        (candidate_by_email_t env (λ _ p. p) email),
    (
      finder_t experts (λ (e : Expert). e.person.id) hash
          (expert_by_email_t env (λ _ _ p. p) email),
      (
        finder_t admins (λ (a : Admin). a.person.id) hash (admin_by_email_t env (λ _ p. p) email),
        (
          finder_t super_admins (λ (s : SuperAdmin). s.id) hash
              (super_admin_by_email_t env (λ _ p. p) email),
          (
            finder_t institutes (λ (o : BaseOrg). o.id) hash
                (institute_by_email_t env (λ _ p. p) email),
            (
              finder_t transport_authorities (λ (o : BaseOrg). o.id) hash
                  (authority_by_email_t env (λ _ p. p) email),
              tt,
            ),
          ),
        ),
      ),
    ),
  )

  consume_t : Triple Any (λ _. Unit) (consume_password_reset_token env token) (λ _. IsGone token)
  unfolding consume_password_reset_token
  consume_t =
      bind_t
        (exec_returning_t env.host database (λ _ _. tt) _ _
          (λ now t p. first_where-delete_where (reset_of token) t.password_reset_tokens))
        λ found. bind_t (from_option_t found invalid_reset_token (λ _ _ _. tt)) λ row.
          bind_t (ask_t env.host.now) λ now.
            bind_t (guard_t (not (ltb row.expires_at now)) invalid_reset_token (λ _ _ _. tt))
              λ _. pure_t row.email (λ t k. k.0.0)

  reset_password_t :
      (new_password : Text)
      → Triple Any (λ _. Unit) (reset_password env token new_password) (λ _. IsGone token)
  unfolding reset_password hash_password update_password_by_email
  reset_password_t new_password =
      bind_t (guard_t (not (is_short new_password)) password_too_short (λ _ _ _. tt)) λ _.
        bind_t (or_error_t invalid_reset_token (λ _ _ _. tt) (weaken_pre_t (λ _ _. tt) consume_t))
          λ email. bind_t (ask_t (λ n. env.generate_from_password n new_password)) λ hashed.
            bind_t (from_option_t hashed hash_failed (λ _ _ _. tt)) λ hash.
              weaken_pre_t (λ t k. k.0)
                (weaken_error_t (λ _ _ _. tt)
                  (first_success_t not_found (finders env email hash) (finders_t email hash)))

  gone_refused :
      (new_password : Text) (w : State Tables)
      → is_short new_password ≡ false
      → IsGone token w.tables
      → (reset_password env token new_password w).0 ≡ err invalid_reset_token
  unfolding reset_password consume_password_reset_token exec_returning
  gone_refused new_password w long gone = elim (Bool-cases (env.host.query_fails w.tick)) [
    | inl e ↦ rw (long, e)
    | inr e ↦ rw (long, e, gone)
  ]

-- A reset token works once, whatever fails on the way: after a request that reset a password with
-- it, every other request with it is refused as long as the token is not issued anew, whatever the
-- new password, if that is long enough.
pub reset_password-once :
    (env : Env) (token first second : Text) (w later : State Tables) {w' : State Tables}
    → reset_password env token first w ≡ (ok tt, w')
    → is_short second ≡ false
    → later.tables.password_reset_tokens ≡ w'.tables.password_reset_tokens
    → (reset_password env token second later).0 ≡ err invalid_reset_token
reset_password-once env token first second w later e long kept =
    gone_refused env token second later long
      (rw kept (run_t w (reset_password_t env token first) tt e))
