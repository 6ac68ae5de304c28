-- ===== src/Identity/Reads.antt =====
-- Triples for the programs that only read or sign: what is known of the tables stays known.
use adlts_core_engine.Prelude.{
  ℕ, ◌≡◌, refl, sym, ◌∙◌, List, [], ◌∷◌, Option, none, some, Text, All, first_where,
}
use adlts_core_engine.Program.{State, Outcome, ok, err, present}
use adlts_core_engine.Program.Triple.{
  Ends, Triple, pure_t, fail_t, bind_t, or_error_t, weaken_t, ask_t, guard_t, from_option_t,
  fetch_t,
}
use adlts_core_engine.Security.Guards.{
  Holder, claims_of, token_access, token_refresh, access_ttl, refresh_ttl,
}
use adlts_core_engine.Identity.Accounts.{Expert}
use adlts_core_engine.Identity.World.{Tables, Error, Env, M, database, null_column, sign_failed}
use adlts_core_engine.Identity.Requests.{LoginResponse}
use adlts_core_engine.Identity.Repository.Rows.{
  candidate_with, expert_with, admin_with, super_admin_with, org_with,
}
use adlts_core_engine.Identity.Repository.Lookups.{
  scan_expert, candidate_by_email, expert_by_email, admin_by_email, super_admin_by_email,
  institute_by_email, authority_by_email, invitation_with, invitation_by_token, invitation_row,
  invitation_by_id,
}
use adlts_core_engine.Identity.Service.Tokens.{or_else, first_success, sign_with_ttl, issue_token}

-- A pair of tokens signed for a holder, at two times of one request.
pub record Issued (env : Env) (h : Holder) (r : LoginResponse) : Type 0 where
  pub access_at : ℕ
  pub refresh_at : ℕ
  pub access_signed :
      env.jwt.signed_string (claims_of h token_access access_ttl access_at) ≡ some r.access_token
  pub refresh_signed :
      env.jwt.signed_string (claims_of h token_refresh refresh_ttl refresh_at)
      ≡ some r.refresh_token
  pub type_is : r.entity_type ≡ h.entity_type

module _ {I : Error → Tables → Type 0} {P : Tables → Type 0} (env : Env) where
  module _ (weak : (t : Tables) → P t → I database t) where
    pub candidate_by_email_t :
        (email : Text)
        → Triple I P
            (candidate_by_email env email)
            (λ o t. P t × (o ≡ first_where (candidate_with email) t.candidates))
    unfolding candidate_by_email
    candidate_by_email_t email = fetch_t env.host database weak _

    pub admin_by_email_t :
        (email : Text)
        → Triple I P
            (admin_by_email env email)
            (λ o t. P t × (o ≡ first_where (admin_with email) t.admins))
    unfolding admin_by_email
    admin_by_email_t email = fetch_t env.host database weak _

    pub super_admin_by_email_t :
        (email : Text)
        → Triple I P
            (super_admin_by_email env email)
            (λ o t. P t × (o ≡ first_where (super_admin_with email) t.super_admins))
    unfolding super_admin_by_email
    super_admin_by_email_t email = fetch_t env.host database weak _

    pub institute_by_email_t :
        (email : Text)
        → Triple I P
            (institute_by_email env email)
            (λ o t. P t × (o ≡ first_where (org_with email) t.institutes))
    unfolding institute_by_email
    institute_by_email_t email = fetch_t env.host database weak _

    pub authority_by_email_t :
        (email : Text)
        → Triple I P
            (authority_by_email env email)
            (λ o t. P t × (o ≡ first_where (org_with email) t.transport_authorities))
    unfolding authority_by_email
    authority_by_email_t email = fetch_t env.host database weak _

    pub invitation_by_token_t :
        (token : Text)
        → Triple I P
            (invitation_by_token env token)
            (λ o t. P t × (o ≡ first_where (invitation_with token) t.invitations))
    unfolding invitation_by_token
    invitation_by_token_t token = fetch_t env.host database weak _

    pub invitation_by_id_t :
        (id : ℕ) → Triple I P (invitation_by_id env id) (λ o t. P t × (o ≡ invitation_row id t))
    unfolding invitation_by_id
    invitation_by_id_t id = fetch_t env.host database weak _

  -- The row of an expert, if it can be scanned.
  pub expert_by_email_t :
      ((e : Error) (t : Tables) → P t → I e t)
      → (email : Text)
      → Triple I P
          (expert_by_email env email)
          (λ o t. P t × (o ≡ first_where (expert_with email) t.experts))
  unfolding expert_by_email
  expert_by_email_t weak email = bind_t (fetch_t env.host database (weak database) _) scanned
    where
      scanned :
          (o : Option Expert)
          → Triple I
              (λ t. P t × (o ≡ first_where (expert_with email) t.experts))
              (scan_expert env o)
              (λ o' t. P t × (o' ≡ first_where (expert_with email) t.experts))
      scanned none = pure_t none (λ t h. h)
      scanned (some e) =
          bind_t (guard_t _ null_column (λ t h _. weak null_column t h.0))
            λ _. pure_t (some e) (λ t h. h.0)

  pub present_t :
      {A : Type 0} {m : M (Option A)} {read : Tables → Option A} (e : Error)
      → ((t : Tables) → P t → I e t)
      → Triple (λ _. P) P m (λ o t. P t × (o ≡ read t))
      → Triple I P (present e m) (λ a t. P t × (read t ≡ some a))
  present_t e weak h =
      bind_t (or_error_t e (λ _ t p. weak t p) h)
        λ o. weaken_t (from_option_t o e (λ t k _. weak t k.0)) (λ a t k. (k.0.0, sym k.0.1 ∙ k.1))

  pub issue_token_t :
      (h : Holder)
      → ((t : Tables) → P t → I sign_failed t)
      → Triple I P (issue_token env h) (λ r t. P t × Issued env h r)
  unfolding issue_token
  issue_token_t h weak = bind_t (signed token_access access_ttl weak) λ a.
      bind_t (signed token_refresh refresh_ttl (λ t p. weak t p.0)) λ b. pure_t _ (λ t k. (
        k.0.0,
        record {
          access_at = k.0.1.0;
          refresh_at = k.1.0;
          access_signed = k.0.1.1;
          refresh_signed = k.1.1;
          type_is = refl;
        },
      ))
    where
      signed :
          {P' : Tables → Type 0} (kind : Text) (ttl : ℕ)
          → ((t : Tables) → P' t → I sign_failed t)
          → Triple I P' (sign_with_ttl env h kind ttl) (λ s t.
            P' t × ((at : ℕ) × (env.jwt.signed_string (claims_of h kind ttl at) ≡ some s)))
      signed kind ttl weak' = bind_t (ask_t _) λ at.
          weaken_t (from_option_t _ sign_failed (λ t k _. weak' t k)) (λ s t k. (k.0, (at, k.1)))

Ends-or_else :
    {A : Type 0} {P : Tables → Type 0} {I : Error → Tables → Type 0} {Q : A → Tables → Type 0}
    {n : M A} (r : Outcome Error A × State Tables)
    → Ends (λ _. P) Q r
    → Triple I P n Q
    → Ends I Q (or_else r n)
Ends-or_else (ok a, w) h k = h
Ends-or_else (err e, w) h k = k.apply w h

-- Attempts that each keep what is known: one of them succeeds, or the error is the last one.
pub first_success_t :
    {A : Type 0} {P : Tables → Type 0} {Q : A → Tables → Type 0} (e : Error) (ms : List (M A))
    → All (λ (m : M A). Triple (λ _. P) P m Q) ms
    → Triple (λ x t. P t × (x ≡ e)) P (first_success e ms) Q
unfolding first_success
first_success_t e [] h = fail_t e (λ t p. (p, refl))
first_success_t e (m ∷ ms) h = record {
  apply = λ w p. Ends-or_else (m w) (h.0.apply w p) (first_success_t e ms h.1);
}
