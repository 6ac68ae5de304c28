-- ===== src/Identity/Lockout.antt =====
-- An expert whose row cannot be scanned is not let in.
use mathlib.Core.Option.{some-injective}
use adlts_core_engine.Prelude.{
  ◌≡◌, refl, sym, ap, subst, ◌∙◌, Bool, true, false, not, ◌&&◌, ◌||◌, Option, none, some, Text,
  is_empty, All, first_where,
}
use adlts_core_engine.Program.{State, Outcome, ok, err, present}
use adlts_core_engine.Program.Triple.{
  Ends, Triple, bind_t, or_error_t, weaken_t, weaken_pre_t, weaken_error_t, guard_t, fetch_t,
  assume_t,
}
use adlts_core_engine.Identity.Accounts.{Expert}
use adlts_core_engine.Identity.World.{
  Tables, Error, Env, M, scans, database, null_column, invalid_credentials,
}
use adlts_core_engine.Identity.Requests.{LoginRequest, LoginResponse}
use adlts_core_engine.Identity.Repository.Rows.{
  candidate_with, expert_with, admin_with, super_admin_with, org_with,
}
use adlts_core_engine.Identity.Repository.Lookups.{scan_expert, expert_by_email}
use adlts_core_engine.Identity.Service.Login.{
  login_candidate, login_expert, login_admin, login_super_admin, login_institute, login_authority,
  tries, login,
}
use adlts_core_engine.Identity.Reads.{
  candidate_by_email_t, admin_by_email_t, super_admin_by_email_t, institute_by_email_t,
  authority_by_email_t, present_t, first_success_t,
}

-- The email is that of an expert alone, who has no birth date.
pub record OnlyUnborn (email : Text) (t : Tables) : Type 0 where
  pub expert : Expert
  pub found : first_where (expert_with email) t.experts ≡ some expert
  pub unborn : expert.birth_date ≡ none
  pub no_candidate : first_where (candidate_with email) t.candidates ≡ none
  pub no_admin : first_where (admin_with email) t.admins ≡ none
  pub no_super_admin : first_where (super_admin_with email) t.super_admins ≡ none
  pub no_institute : first_where (org_with email) t.institutes ≡ none
  pub no_authority : first_where (org_with email) t.transport_authorities ≡ none

absent : {A : Type 0} (o : Option A) (a : A) → o ≡ none → o ≡ some a → ⊥
absent o a e k = cc (e, k)

not_scanned : (b c : Bool) → b ≡ false → (b && c) ≡ true → ⊥
not_scanned b c e k = cc (rw e at k)

module _ (env : Env) (strict : env.scans_null ≡ false) (req : LoginRequest) where
  abbrev P : Tables → Type 0
  P t = OnlyUnborn req.email t

  -- No table changes and nothing is returned.
  abbrev Never : {A : Type 0} → M A → Type 0
  Never m = Triple (λ _. P) P m (λ _ _. ⊥)

  -- Nothing is behind what never returns.
  nothing_t {ℓ} :
      {A : Type ℓ} {I : Error → Tables → Type 0} {Q : A → Tables → Type 0} {m : M A}
      → Triple I (λ _. ⊥) m Q
  nothing_t = record { apply = λ w no. absurd no }

  missing_t :
      {A : Type 0} {m : M (Option A)} {read : Tables → Option A}
      → ((t : Tables) → P t → read t ≡ none)
      → Triple (λ _. P) P m (λ o t. P t × (o ≡ read t))
      → Never (present invalid_credentials m)
  missing_t {read} nobody h =
      weaken_t (present_t env {read = read} invalid_credentials (λ _ p. p) h)
        (λ a t k. absent (read t) a (nobody t k.0) k.1)

  unborn : (e : Expert) → e.birth_date ≡ none → scans env e.birth_date ≡ false
  unborn e none_there = rw none_there strict

  scan_t :
      (o : Option Expert)
      → Triple
          (λ _. P)
          (λ t. P t × (o ≡ first_where (expert_with req.email) t.experts))
          (scan_expert env o)
          (λ _ _. ⊥)
  unfolding scan_expert
  scan_t none = assume_t (λ t k. absent none _ refl (k.1 ∙ k.0.found)) (λ no. absurd no)
  scan_t (some e) =
      bind_t (guard_t (scans env e.birth_date && scans env e.gender) null_column (λ _ k _. k.0))
        λ _.
          assume_t
            (λ t k.
              let same : e ≡ k.0.0.expert = some-injective e k.0.0.expert (k.0.1 ∙ k.0.0.found) in
              not_scanned (scans env e.birth_date) (scans env e.gender)
                (unborn e (subst (λ (x : Expert). x.birth_date ≡ none) (sym same) k.0.0.unborn))
                k.1)
            (λ no. absurd no)

  expert-Never : Never (present invalid_credentials (expert_by_email env req.email))
  unfolding expert_by_email
  expert-Never =
      bind_t
        (or_error_t invalid_credentials (λ _ _ p. p)
          (bind_t
            (fetch_t env.host database (λ _ p. p)
              (λ t. first_where (expert_with req.email) t.experts))
            scan_t))
        (λ _. nothing_t)

  tries-Never : All Never (tries env req)
  unfolding login_candidate login_expert login_admin login_super_admin login_institute
      login_authority
  tries-Never = (
    bind_t (missing_t (λ t p. p.no_candidate) (candidate_by_email_t env (λ _ p. p) req.email))
        (λ _. nothing_t),
    (
      bind_t expert-Never (λ _. nothing_t),
      (
        bind_t (missing_t (λ t p. p.no_admin) (admin_by_email_t env (λ _ p. p) req.email))
            (λ _. nothing_t),
        (
          bind_t
              (missing_t (λ t p. p.no_super_admin)
                (super_admin_by_email_t env (λ _ p. p) req.email))
              (λ _. nothing_t),
          (
            bind_t
                (missing_t (λ t p. p.no_institute) (institute_by_email_t env (λ _ p. p) req.email))
                (λ _. nothing_t),
            (
              bind_t
                  (missing_t (λ t p. p.no_authority)
                    (authority_by_email_t env (λ _ p. p) req.email))
                  (λ _. nothing_t),
              tt,
            ),
          ),
        ),
      ),
    ),
  )

  login_t : Triple (λ x _. x ≡ invalid_credentials) P (login env req) (λ _ _. ⊥)
  unfolding login
  login_t =
      bind_t
        (guard_t (not (is_empty req.email || is_empty req.password)) invalid_credentials
          (λ _ _ _. refl))
        λ _.
          weaken_pre_t (λ t k. k.0)
            (weaken_error_t (λ x t k. k.1)
              (first_success_t invalid_credentials (tries env req) tries-Never))

refused :
    (r : Outcome Error LoginResponse × State Tables)
    → Ends (λ x (_ : Tables). x ≡ invalid_credentials) (λ _ _. ⊥) r
    → r.0 ≡ err invalid_credentials
refused (ok a, w) h = absurd h
refused (err x, w) h = ap err h

-- Where the driver does not scan NULL into a time, an expert without a birth date is not let in,
-- whatever the password and whichever queries fail, if no account of another kind has the email.
pub login-unborn :
    (env : Env)
    → env.scans_null ≡ false
    → (req : LoginRequest) (w : State Tables) → OnlyUnborn req.email w.tables
    → (login env req w).0 ≡ err invalid_credentials
login-unborn env strict req w only =
    refused (login env req w) ((login_t env strict req).apply w only)
