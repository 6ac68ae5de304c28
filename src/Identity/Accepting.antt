-- ===== src/Identity/Accepting.antt =====
-- `AcceptInvitation` step by step: what it is known to have found and done, but for the time.
use adlts_core_engine.Prelude.{
  ℕ, ◌≡◌, sym, subst, ◌∙◌, List, true, not, ◌||◌, some, Text, is_empty, ltb, first_where,
}
use adlts_core_engine.Booking.Types.{EntityType}
use adlts_core_engine.Program.{ignore, ◌>>=◌, ◌>>◌}
use adlts_core_engine.Program.Triple.{
  Triple, bind_t, weaken_t, weaken_pre_t, guard_t, from_option_t, ask_t, answered_t, assume_t,
}
use adlts_core_engine.Security.Guards.{Holder, entity_name}
use adlts_core_engine.Identity.Accounts.{Invitation}
use adlts_core_engine.Identity.World.{
  Tables, Env, M, invalid_invite_token, token_and_password_required, password_too_short,
  invite_already_used, invite_expired, hash_failed,
}
use adlts_core_engine.Identity.Requests.{
  AcceptInvitationRequest, LoginResponse, normalize_invitation, is_short,
}
use adlts_core_engine.Identity.Repository.Rows.{is_unused}
use adlts_core_engine.Identity.Repository.Lookups.{invitation_with}
use adlts_core_engine.Identity.Repository.Writes.{mark_invitation_used}
use adlts_core_engine.Identity.Service.Tokens.{issue_token, hash_password}
use adlts_core_engine.Identity.Service.Invitations.{invited_role, open_account, accept_invitation}
use adlts_core_engine.Identity.Reads.{Issued, invitation_by_token_t, present_t, issue_token_t}
use adlts_core_engine.Identity.Opening.{
  role_sound, Invited, Opens, with_invitations, Opens-with_invitations, Any, open_role_t,
}

-- Other invitations change nothing of a condition.
abbrev pub IsApart : (Tables → Type 0) → Type 0
IsApart J = (t : Tables) (is : List Invitation) → J t → J (with_invitations is t)

module _ (env : Env) (request : AcceptInvitationRequest) (t0 : Tables)
    {K : Invitation → Tables → Type 0}
    (mark : (inv : Invitation)
      → first_where (invitation_with request.token) t0.invitations ≡ some inv
      → (J : Tables → Type 0) → IsApart J
      → Triple Any
          (λ t. (t.invitations ≡ t0.invitations) × J t)
          (ignore (mark_invitation_used env inv.id))
          (λ _ t. K inv t × J t)) where
  pub record Opened (inv : Invitation) (r : LoginResponse) (t : Tables) : Type 0 where
    pub found : first_where (invitation_with request.token) t0.invitations ≡ some inv
    pub unused : is_unused inv ≡ true
    pub role : EntityType
    pub role_is : inv.entity_type ≡ entity_name role
    pub hash_at : ℕ
    pub hash : Text
    pub hashed : env.generate_from_password hash_at request.password ≡ some hash
    pub holder : Holder
    pub opened : Invited inv role holder
    pub account : Opens role inv hash holder t0 t
    pub issued : Issued env holder r
    pub marked : K inv t

  -- What the request gets out of the account that is opened for it.
  abbrev Gets : M LoginResponse → (Tables → Type 0) → Type 0
  Gets m P = Triple Any P m (λ r t. (inv : Invitation) × Opened inv r t)

  record Facts (inv : Invitation) (hash : Text) : Type 0 where
    is_found : first_where (invitation_with request.token) t0.invitations ≡ some inv
    is_new : is_unused inv ≡ true
    made_at : ℕ
    made : env.generate_from_password made_at request.password ≡ some hash

  finish_t :
      (inv : Invitation) (now : ℕ) (hash : Text)
      → Facts inv hash
      → Gets
          (open_account env
              (invited_role inv.entity_type)
              inv
              (normalize_invitation request)
              hash
              now
            >>= λ holder. ignore (mark_invitation_used env inv.id) >> issue_token env holder)
          (λ t. t ≡ t0)
  finish_t inv now hash facts =
      bind_t
        (open_role_t env t0 (invited_role inv.entity_type) inv (normalize_invitation request) hash
          now)
        λ holder.
          bind_t
            (weaken_pre_t (λ t k. (k.2.0, (k.0, k.1, k.2.1, k.2.2)))
              (mark inv facts.is_found
                (λ t.
                  (role : EntityType) × (invited_role inv.entity_type ≡ some role)
                  × Invited inv role holder
                  × Opens role inv hash holder t0 t)
                (λ t is (role, same, invited, o).
                  (role, same, invited, Opens-with_invitations role inv hash holder t0 t is o))))
            λ _. weaken_t (issue_token_t env holder (λ _ _. tt)) λ r t k. (
              inv,
              record {
                found = facts.is_found;
                unused = facts.is_new;
                role = k.0.1.0;
                role_is = role_sound inv.entity_type k.0.1.0 k.0.1.1;
                hash_at = facts.made_at;
                hash = hash;
                hashed = facts.made;
                holder = holder;
                opened = k.0.1.2;
                account = k.0.1.3;
                issued = k.1;
                marked = k.0.0;
              },
            )

  pub accept_invitation_t : Gets (accept_invitation env request) (λ t. t ≡ t0)
  unfolding accept_invitation normalize_invitation hash_password
  accept_invitation_t =
      bind_t
        (guard_t (not (is_empty request.token || is_empty request.password))
          token_and_password_required (λ _ _ _. tt))
        λ _.
          bind_t (guard_t (not (is_short request.password)) password_too_short (λ _ _ _. tt)) λ _.
            bind_t
              (present_t env invalid_invite_token (λ _ _. tt)
                (invitation_by_token_t env (λ _ p. p) request.token))
              λ inv. bind_t (guard_t (is_unused inv) invite_already_used (λ _ _ _. tt)) λ _.
                bind_t (ask_t env.host.now) λ at.
                  bind_t (guard_t (not (ltb inv.expires_at at)) invite_expired (λ _ _ _. tt)) λ _.
                    bind_t (answered_t (λ n. env.generate_from_password n request.password))
                      λ hashed. bind_t (from_option_t hashed hash_failed (λ _ _ _. tt)) λ hash.
                        bind_t (ask_t env.host.now) λ now.
                          assume_t {F = Facts inv hash}
                            (λ t k. record {
                              is_found =
                                  subst
                                    (λ (x : Tables).
                                      first_where (invitation_with request.token) x.invitations
                                      ≡ some inv)
                                    k.0.0.0.0.0.0.0 k.0.0.0.0.1;
                              is_new = k.0.0.0.1;
                              made_at = k.0.1.0;
                              made = sym k.0.1.1 ∙ k.1;
                            })
                            λ facts.
                              weaken_pre_t (λ t k. k.0.0.0.0.0.0.0) (finish_t inv now hash facts)
