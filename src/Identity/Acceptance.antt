-- ===== src/Identity/Acceptance.antt =====
-- What an accepted invitation has been, and that it is accepted once.
use adlts_core_engine.Prelude.{
  arith, ℕ, suc, ◌≤◌, ◌≡◌, ◌≢◌, refl, ap, inl, inr, Bool-cases, true, false, ◌||◌, none, some, Text,
  is_empty, eq_refl, ltb, first_where,
}
use adlts_core_engine.Booking.Types.{EntityType}
use adlts_core_engine.Program.{State, ok, err, ignore, exec, exec_unless, fetch}
use adlts_core_engine.Program.Triple.{run_t, Triple, ignore_t, exec_t}
use adlts_core_engine.Security.Guards.{Holder, entity_name}
use adlts_core_engine.Identity.Accounts.{Invitation}
use adlts_core_engine.Identity.World.{Tables, Env, database, invite_already_used}
use adlts_core_engine.Identity.Requests.{
  AcceptInvitationRequest, LoginResponse, normalize_invitation, is_short,
}
use adlts_core_engine.Identity.Repository.Rows.{is_unused}
use adlts_core_engine.Identity.Repository.Searches.{first_where-update_where_found}
use adlts_core_engine.Identity.Repository.Lookups.{invitation_with, invitation_by_token}
use adlts_core_engine.Identity.Repository.Writes.{mark_invitation_used, is_of_invitation}
use adlts_core_engine.Identity.Service.Invitations.{accept_invitation}
use adlts_core_engine.Identity.Reliable.{invitation_by_token-done}
use adlts_core_engine.Identity.Reads.{Issued}
use adlts_core_engine.Identity.Accepting.{IsApart, accept_invitation_t}
use adlts_core_engine.Identity.Opening.{Invited, Opens, Any}

-- An invitation that a request was right to accept, the account that it opened, and the tokens that it
-- got. The token is looked up first, and the time asked next.
pub record Accepted (env : Env) (req : AcceptInvitationRequest) (w : State Tables)
    (inv : Invitation) (r : LoginResponse) (t : Tables) : Type 0 where
  pub found : first_where (invitation_with req.token) w.tables.invitations ≡ some inv
  pub unused : inv.used_at ≡ none
  pub in_time : env.host.now (suc w.tick) ≤ inv.expires_at
  pub role : EntityType
  pub role_is : inv.entity_type ≡ entity_name role
  pub hash_at : ℕ
  pub hash : Text
  pub hashed : env.generate_from_password hash_at req.password ≡ some hash
  pub holder : Holder
  pub opened : Invited inv role holder
  pub account : Opens role inv hash holder w.tables t
  pub issued : Issued env holder r

used_none : (inv : Invitation) → is_unused inv ≡ true → inv.used_at ≡ none
used_none inv e = ground arith

-- An invitation whose time is over is refused.
expired_refused :
    (env : Env) (req : AcceptInvitationRequest) (w : State Tables) (inv : Invitation)
    (r : LoginResponse)
    → first_where (invitation_with req.token) w.tables.invitations ≡ some inv
    → is_unused inv ≡ true
    → ltb inv.expires_at (env.host.now (suc w.tick)) ≡ true
    → (accept_invitation env req w).0 ≢ ok r
unfolding accept_invitation normalize_invitation invitation_by_token fetch
expired_refused env req w inv r found unused late =
    elim (Bool-cases (is_empty req.token || is_empty req.password)) [
      | inl a ↦ rw a (λ e. cc e)
      | inr a ↦ elim (Bool-cases (is_short req.password)) [
        | inl b ↦ rw (a, b) (λ e. cc e)
        | inr b ↦ elim (Bool-cases (env.host.query_fails w.tick)) [
          | inl c ↦ rw (a, b, c) (λ e. cc e)
          | inr c ↦ rw (a, b, c, found, unused, late) (λ e. cc e)
        ]
      ]
    ]

module _ (env : Env) (req : AcceptInvitationRequest) (w : State Tables) where
  anything :
      (inv : Invitation)
      → first_where (invitation_with req.token) w.tables.invitations ≡ some inv
      → (J : Tables → Type 0) → IsApart J
      → Triple Any
          (λ t. (t.invitations ≡ w.tables.invitations) × J t)
          (ignore (mark_invitation_used env inv.id))
          (λ _ t. Unit × J t)
  unfolding mark_invitation_used
  anything inv found J apart =
      ignore_t {J = λ _. J} {Q = λ _. J}
        (exec_t env.host database (λ t p. p.1) _ (λ now t p. apart t _ p.1)) (λ _ t j. (tt, j))
        (λ _ t j. (tt, j))

  in_time :
      (inv : Invitation) (r : LoginResponse) {w' : State Tables}
      → accept_invitation env req w ≡ (ok r, w')
      → first_where (invitation_with req.token) w.tables.invitations ≡ some inv
      → is_unused inv ≡ true
      → env.host.now (suc w.tick) ≤ inv.expires_at
  in_time inv r e found unused =
      elim (Bool-cases (ltb inv.expires_at (env.host.now (suc w.tick)))) [
        | inl late ↦ absurd (expired_refused env req w inv r found unused late (ap (λ x. x.0) e))
        | inr early ↦ ground arith
      ]

-- Whatever fails on the way: an invitation that is accepted is the one of its token, was unused and
-- was not past its time when that was asked for; the table of the role that it names has one account
-- more, by the invitation's email, active where accounts have a status, with a hash made of the
-- request's password and, for an administrator, at the invitation's center; no other table but the
-- invitations is changed; and the tokens are signed for that account.
pub accept_invitation-Accepted :
    (env : Env) (req : AcceptInvitationRequest) (w : State Tables) {r : LoginResponse}
    {w' : State Tables}
    → accept_invitation env req w ≡ (ok r, w')
    → (inv : Invitation) × Accepted env req w inv r w'.tables
accept_invitation-Accepted env req w {r} e =
    let (inv, o) =
      run_t w (accept_invitation_t env req w.tables {K = λ _ _. Unit} (anything env req w)) refl
        e in
    (
      inv,
      record {
        found = o.found;
        unused = used_none inv o.unused;
        in_time = in_time env req w inv r e o.found o.unused;
        role = o.role;
        role_is = o.role_is;
        hash_at = o.hash_at;
        hash = o.hash;
        hashed = o.hashed;
        holder = o.holder;
        opened = o.opened;
        account = o.account;
        issued = o.issued;
      },
    )

-- The invitation of a token has been used.
abbrev pub IsSpent : Text → Tables → Type 0
IsSpent token t =
    (i : Invitation) × (first_where (invitation_with token) t.invitations ≡ some i)
    × (is_unused i ≡ false)

module _ (env : Env) (reliable : (n : ℕ) → env.host.query_fails n ≡ false) (token : Text) where
  -- Marking the invitation that was found spends its token.
  mark_t :
      (t0 : Tables) (inv : Invitation)
      → first_where (invitation_with token) t0.invitations ≡ some inv
      → (J : Tables → Type 0) → IsApart J
      → Triple Any
          (λ t. (t.invitations ≡ t0.invitations) × J t)
          (ignore (mark_invitation_used env inv.id))
          (λ _ t. IsSpent token t × J t)
  unfolding mark_invitation_used exec exec_unless
  mark_t t0 inv found J apart = record {
    apply = λ w p. simp reliable (
      (
        record inv { used_at = some (env.host.now w.tick) },
        rw p.0 (
            first_where-update_where_found (invitation_with token) (is_of_invitation inv.id) _
              t0.invitations {x = inv} (λ y. refl) found (eq_refl inv.id)),
        refl,
      ),
      apart w.tables _ p.1,
    );
  }

  spent_refused :
      (req : AcceptInvitationRequest) (w : State Tables)
      → req.token ≡ token
      → is_empty token ≡ false
      → is_empty req.password ≡ false
      → is_short req.password ≡ false
      → IsSpent token w.tables
      → (accept_invitation env req w).0 ≡ err invite_already_used
  unfolding accept_invitation normalize_invitation
  spent_refused req w same full pass long (i, found, used) =
      rw (same, full, pass, long, invitation_by_token-done env reliable w token, found, used)

-- Where no query fails an invitation is accepted once: after a request that was accepted, another
-- request with its token and a password that is long enough is told that the invitation has been
-- used, as long as the invitations are those that the first request left.
pub accept_invitation-once :
    (env : Env)
    → ((n : ℕ) → env.host.query_fails n ≡ false)
    → (req again : AcceptInvitationRequest) (w later : State Tables) {r : LoginResponse}
      {w' : State Tables}
    → accept_invitation env req w ≡ (ok r, w')
    → again.token ≡ req.token
    → is_empty req.token ≡ false
    → is_empty again.password ≡ false
    → is_short again.password ≡ false
    → later.tables.invitations ≡ w'.tables.invitations
    → (accept_invitation env again later).0 ≡ err invite_already_used
accept_invitation-once env reliable req again w later {w'} e same full pass long kept =
    let (_, o) =
      run_t w
        (accept_invitation_t env req w.tables {K = λ _. IsSpent req.token}
          (mark_t env reliable req.token w.tables))
        refl e in
    let (i, found, used) = o.marked in
    spent_refused env reliable req.token again later same full pass long (i, rw kept found, used)
