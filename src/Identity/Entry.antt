-- ===== src/Identity/Entry.antt =====
-- Whom `Login` lets in, and what it tells the others.
use adlts_core_engine.Prelude.{arith, ◌≡◌, ◌≢◌, refl, subst, true, some, All, first_where}
use adlts_core_engine.Program.{State, ok, err}
use adlts_core_engine.Program.Triple.{
  run_t, Triple, bind_t, weaken_t, weaken_pre_t, guard_t, lift_t,
}
use adlts_core_engine.Identity.Accounts.{
  UserStatus, OrgStatus, Candidate, Expert, Admin, SuperAdmin, BaseOrg,
}
use adlts_core_engine.Identity.World.{Tables, Error, Env, M, invalid_credentials}
use adlts_core_engine.Identity.Requests.{LoginRequest, LoginResponse}
use adlts_core_engine.Identity.Repository.Rows.{
  candidate_with, expert_with, admin_with, super_admin_with, org_with,
}
use adlts_core_engine.Identity.Service.Registration.{candidate_holder}
use adlts_core_engine.Identity.Service.Login.{
  admits_candidate, admits_staff, admits_institute, admits_authority, expert_holder, admin_holder,
  super_admin_holder, institute_holder, authority_holder, login_candidate, login_expert,
  login_admin, login_super_admin, login_institute, login_authority, tries, login,
}
use adlts_core_engine.Identity.Reads.{
  Issued, candidate_by_email_t, expert_by_email_t, admin_by_email_t, super_admin_by_email_t,
  institute_by_email_t, authority_by_email_t, present_t, issue_token_t, first_success_t,
}

-- The account that a login is for, of one of the six kinds: the account of the email, whose hash
-- the password matches and whose status is no reason to keep it out; the tokens are signed for it.
pub data Authentic (env : Env) (req : LoginRequest) (t : Tables) (r : LoginResponse) : Type 0 where
  as_candidate :
      (c : Candidate)
      → first_where (candidate_with req.email) t.candidates ≡ some c
      → env.compare_hash_and_password c.person.password_hash req.password ≡ true
      → c.person.status ≡ UserStatus.active
      → Issued env (candidate_holder c) r
      → Authentic env req t r
  as_expert :
      (e : Expert)
      → first_where (expert_with req.email) t.experts ≡ some e
      → env.compare_hash_and_password e.person.password_hash req.password ≡ true
      → e.person.status ≢ UserStatus.suspended
      → e.person.status ≢ UserStatus.inactive
      → Issued env (expert_holder e) r
      → Authentic env req t r
  as_admin :
      (a : Admin)
      → first_where (admin_with req.email) t.admins ≡ some a
      → env.compare_hash_and_password a.person.password_hash req.password ≡ true
      → a.person.status ≢ UserStatus.suspended
      → a.person.status ≢ UserStatus.inactive
      → Issued env (admin_holder a) r
      → Authentic env req t r
  as_super_admin :
      (s : SuperAdmin)
      → first_where (super_admin_with req.email) t.super_admins ≡ some s
      → env.compare_hash_and_password s.password_hash req.password ≡ true
      → Issued env (super_admin_holder s) r
      → Authentic env req t r
  as_institute :
      (o : BaseOrg)
      → first_where (org_with req.email) t.institutes ≡ some o
      → env.compare_hash_and_password o.password_hash req.password ≡ true
      → o.status ≡ OrgStatus.active
      → Issued env (institute_holder o) r
      → Authentic env req t r
  as_authority :
      (o : BaseOrg)
      → first_where (org_with req.email) t.transport_authorities ≡ some o
      → env.compare_hash_and_password o.password_hash req.password ≡ true
      → o.status ≢ OrgStatus.suspended
      → o.status ≢ OrgStatus.inactive
      → Issued env (authority_holder o) r
      → Authentic env req t r

candidate_admitted : (s : UserStatus) → admits_candidate s ≡ ok tt → s ≡ UserStatus.active
unfolding admits_candidate
candidate_admitted s e = ground arith

staff_admitted :
    (s : UserStatus)
    → admits_staff s ≡ ok tt
    → (s ≢ UserStatus.suspended) × (s ≢ UserStatus.inactive)
unfolding admits_staff
staff_admitted s e = ground arith

institute_admitted : (s : OrgStatus) → admits_institute s ≡ ok tt → s ≡ OrgStatus.active
unfolding admits_institute
institute_admitted s e = ground arith

authority_admitted :
    (s : OrgStatus)
    → admits_authority s ≡ ok tt
    → (s ≢ OrgStatus.suspended) × (s ≢ OrgStatus.inactive)
unfolding admits_authority
authority_admitted s e = ground arith

module _ (env : Env) (req : LoginRequest) (P : Tables → Type 0) where
  -- What an attempt to log in keeps, and what it has established when it succeeds.
  abbrev Attempt : M LoginResponse → Type 0
  Attempt m = Triple (λ _. P) P m (λ r t. P t × Authentic env req t r)

  login_candidate_t : Attempt (login_candidate env req)
  unfolding login_candidate
  login_candidate_t =
      bind_t
        (present_t env invalid_credentials (λ _ p. p)
          (candidate_by_email_t env (λ _ p. p) req.email))
        λ c. bind_t (guard_t _ invalid_credentials (λ _ p _. p.0)) λ _.
          bind_t (lift_t (admits_candidate c.person.status) (λ _ _ p _. p.0.0)) λ u.
            weaken_t (issue_token_t env (candidate_holder c) (λ _ p. p.0.0.0)) λ r t k. (
              k.0.0.0.0,
              as_candidate c k.0.0.0.1 k.0.0.1 (candidate_admitted c.person.status k.0.1) k.1,
            )

  login_expert_t : Attempt (login_expert env req)
  unfolding login_expert
  login_expert_t =
      bind_t
        (present_t env invalid_credentials (λ _ p. p)
          (expert_by_email_t env (λ _ _ p. p) req.email))
        λ c. bind_t (guard_t _ invalid_credentials (λ _ p _. p.0)) λ _.
          bind_t (lift_t (admits_staff c.person.status) (λ _ _ p _. p.0.0)) λ u.
            weaken_t (issue_token_t env (expert_holder c) (λ _ p. p.0.0.0)) λ r t k. (
              k.0.0.0.0,
              as_expert c k.0.0.0.1 k.0.0.1 (staff_admitted c.person.status k.0.1).0
                  (staff_admitted c.person.status k.0.1).1 k.1,
            )

  login_admin_t : Attempt (login_admin env req)
  unfolding login_admin
  login_admin_t =
      bind_t
        (present_t env invalid_credentials (λ _ p. p) (admin_by_email_t env (λ _ p. p) req.email))
        λ c. bind_t (guard_t _ invalid_credentials (λ _ p _. p.0)) λ _.
          bind_t (lift_t (admits_staff c.person.status) (λ _ _ p _. p.0.0)) λ u.
            weaken_t (issue_token_t env (admin_holder c) (λ _ p. p.0.0.0)) λ r t k. (
              k.0.0.0.0,
              as_admin c k.0.0.0.1 k.0.0.1 (staff_admitted c.person.status k.0.1).0
                  (staff_admitted c.person.status k.0.1).1 k.1,
            )

  login_institute_t : Attempt (login_institute env req)
  unfolding login_institute
  login_institute_t =
      bind_t
        (present_t env invalid_credentials (λ _ p. p)
          (institute_by_email_t env (λ _ p. p) req.email))
        λ c. bind_t (guard_t _ invalid_credentials (λ _ p _. p.0)) λ _.
          bind_t (lift_t (admits_institute c.status) (λ _ _ p _. p.0.0)) λ u.
            weaken_t (issue_token_t env (institute_holder c) (λ _ p. p.0.0.0)) λ r t k.
              (k.0.0.0.0, as_institute c k.0.0.0.1 k.0.0.1 (institute_admitted c.status k.0.1) k.1)

  login_authority_t : Attempt (login_authority env req)
  unfolding login_authority
  login_authority_t =
      bind_t
        (present_t env invalid_credentials (λ _ p. p)
          (authority_by_email_t env (λ _ p. p) req.email))
        λ c. bind_t (guard_t _ invalid_credentials (λ _ p _. p.0)) λ _.
          bind_t (lift_t (admits_authority c.status) (λ _ _ p _. p.0.0)) λ u.
            weaken_t (issue_token_t env (authority_holder c) (λ _ p. p.0.0.0)) λ r t k. (
              k.0.0.0.0,
              as_authority c k.0.0.0.1 k.0.0.1 (authority_admitted c.status k.0.1).0
                  (authority_admitted c.status k.0.1).1 k.1,
            )

  login_super_admin_t : Attempt (login_super_admin env req)
  unfolding login_super_admin
  login_super_admin_t =
      bind_t
        (present_t env invalid_credentials (λ _ p. p)
          (super_admin_by_email_t env (λ _ p. p) req.email))
        λ s. bind_t (guard_t _ invalid_credentials (λ _ p _. p.0)) λ _.
          weaken_t (issue_token_t env (super_admin_holder s) (λ _ p. p.0.0))
            λ r t k. (k.0.0.0, as_super_admin s k.0.0.1 k.0.1 k.1)

  tries_t : All Attempt (tries env req)
  tries_t = (
    login_candidate_t,
    (
      login_expert_t,
      (login_admin_t, (login_super_admin_t, (login_institute_t, (login_authority_t, tt)))),
    ),
  )

  login_t :
      Triple
        (λ x t. P t × (x ≡ invalid_credentials))
        P
        (login env req)
        (λ r t. P t × Authentic env req t r)
  unfolding login
  login_t =
      bind_t (guard_t _ invalid_credentials (λ _ p _. (p, refl)))
        λ _. weaken_pre_t (λ t p. p.0) (first_success_t invalid_credentials (tries env req) tries_t)

-- Whatever fails on the way, a login that succeeds is that of the account of one of the six tables
-- that has the email, whose hash the password matches and that is not kept out: an active candidate
-- or institute, an expert, administrator or authority neither suspended nor inactive, or a super
-- administrator. Both tokens are signed for that account and its type, and no table is changed.
pub login-Authentic :
    (env : Env) (req : LoginRequest) (w : State Tables) {r : LoginResponse} {w' : State Tables}
    → login env req w ≡ (ok r, w')
    → Authentic env req w.tables r × (w'.tables ≡ w.tables)
login-Authentic env req w {r} e =
    let (same, authentic) = run_t w (login_t env req (λ t. t ≡ w.tables)) refl e in
    (subst (λ t. Authentic env req t r) same authentic, same)

-- A login that fails says the same whatever the reason, a missing account, a wrong password, the
-- status of the account or a failure of the database, and changes no table.
pub login-refusal :
    (env : Env) (req : LoginRequest) (w : State Tables) {x : Error} {w' : State Tables}
    → login env req w ≡ (err x, w')
    → (x ≡ invalid_credentials) × (w'.tables ≡ w.tables)
login-refusal env req w e =
    let (same, refused) = run_t w (login_t env req (λ t. t ≡ w.tables)) refl e in (refused, same)
