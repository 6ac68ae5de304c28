-- ===== src/Identity/Opening.antt =====
-- What the account that an invitation opens is, and what it leaves of the invitations.
use adlts_core_engine.Prelude.{
  arith, ℕ, ◌≡◌, refl, sym, ap, subst, inl, inr, ◌⊎◌, List, [], ◌∷◌, ◌++◌, Option, none, some, Text,
  text_eq_sound,
}
use adlts_core_engine.Booking.Types.{
  EntityType, candidate, expert, admin, super_admin, institute, transport_authority,
}
use adlts_core_engine.Program.Triple.{
  Triple, pure_t, fail_t, bind_t, weaken_t, weaken_pre_t, from_option_t, ask_t, assume_t,
  exec_unless_t,
}
use adlts_core_engine.Security.Guards.{Holder, entity_name}
use adlts_core_engine.Identity.Accounts.{
  UserStatus, OrgStatus, BasePerson, Expert, Admin, SuperAdmin, BaseOrg, Invitation,
}
use adlts_core_engine.Identity.World.{
  Tables, Error, Env, M, database, unknown_entity_type, missing_test_center,
}
use adlts_core_engine.Identity.Requests.{AcceptInvitationRequest}
use adlts_core_engine.Identity.Repository.Writes.{
  create_expert, create_admin, create_super_admin, create_institute, create_authority,
}
use adlts_core_engine.Identity.Service.Invitations.{
  invited_expert, invited_org, invited_super_admin, invited_admin, invited_role, open_account,
}
use adlts_core_engine.Identity.Service.Login.{
  expert_holder, admin_holder, super_admin_holder, institute_holder, authority_holder,
}

pub role_sound :
    (et : Text) (role : EntityType) → invited_role et ≡ some role → et ≡ entity_name role
unfolding invited_role
role_sound et role e = ground (
  arith,
  text_eq_sound et (entity_name expert),
  text_eq_sound et (entity_name institute),
  text_eq_sound et (entity_name admin),
  text_eq_sound et (entity_name transport_authority),
  text_eq_sound et (entity_name super_admin),
)

-- Whose account an invitation opens.
pub record Invited (inv : Invitation) (role : EntityType) (h : Holder) : Type 0 where
  pub email_is : h.email ≡ inv.email
  pub type_is : h.entity_type ≡ entity_name role
  pub center_is : (h.test_center_id ≡ none) ⊎ (h.test_center_id ≡ inv.test_center_id)

-- The person of an account: the holder, by the invitation's email, with a hash, and active.
abbrev IsPerson : Invitation → Text → Holder → BasePerson → Type 0
IsPerson inv hash h p =
    (p.id ≡ h.id)
    × (p.email ≡ inv.email)
    × (p.password_hash ≡ hash)
    × (p.status ≡ UserStatus.active)

abbrev IsOrg : Invitation → Text → Holder → BaseOrg → Type 0
IsOrg inv hash h o =
    (o.id ≡ h.id) × (o.email ≡ inv.email) × (o.password_hash ≡ hash) × (o.status ≡ OrgStatus.active)

-- The table of the role has one more account, that of the holder, and apart from the invitations
-- nothing else is changed.
abbrev pub Opens : EntityType → Invitation → Text → Holder → Tables → Tables → Type 0
Opens candidate inv hash h t t' = ⊥
Opens expert inv hash h t t' =
    (x : Expert) × IsPerson inv hash h x.person
    × (t' ≡ record t { experts = t.experts ++ x ∷ []; invitations = t'.invitations })
Opens admin inv hash h t t' =
    (x : Admin) × IsPerson inv hash h x.person
    × (some x.test_center_id ≡ inv.test_center_id)
    × (t' ≡ record t { admins = t.admins ++ x ∷ []; invitations = t'.invitations })
Opens super_admin inv hash h t t' =
    (x : SuperAdmin) × (x.id ≡ h.id)
    × (x.email ≡ inv.email)
    × (x.password_hash ≡ hash)
    × (t' ≡ record t { super_admins = t.super_admins ++ x ∷ []; invitations = t'.invitations })
Opens institute inv hash h t t' =
    (x : BaseOrg) × IsOrg inv hash h x
    × (t' ≡ record t { institutes = t.institutes ++ x ∷ []; invitations = t'.invitations })
Opens transport_authority inv hash h t t' =
    (x : BaseOrg) × IsOrg inv hash h x
    × (t' ≡ record t {
      transport_authorities = t.transport_authorities ++ x ∷ [];
      invitations = t'.invitations;
    })

-- The same invitations or others.
abbrev pub with_invitations : List Invitation → Tables → Tables
with_invitations is t = record t { invitations = is }

pub Opens-with_invitations :
    (role : EntityType) (inv : Invitation) (hash : Text) (h : Holder) (t t' : Tables)
    (is : List Invitation)
    → Opens role inv hash h t t'
    → Opens role inv hash h t (with_invitations is t')
Opens-with_invitations candidate inv hash h t t' is o = o
Opens-with_invitations expert inv hash h t t' is (x, p, e) = (x, p, ap (with_invitations is) e)
Opens-with_invitations admin inv hash h t t' is (x, p, c, e) = (x, p, c, ap (with_invitations is) e)
Opens-with_invitations super_admin inv hash h t t' is (x, a, b, c, e) =
    (x, a, b, c, ap (with_invitations is) e)
Opens-with_invitations institute inv hash h t t' is (x, p, e) = (x, p, ap (with_invitations is) e)
Opens-with_invitations transport_authority inv hash h t t' is (x, p, e) =
    (x, p, ap (with_invitations is) e)

-- Nothing is said of the tables behind an error.
abbrev pub Any : Error → Tables → Type 0
Any e t = Unit

module _ (env : Env) (t0 : Tables) where
  -- From these tables an action leads to others.
  abbrev Makes : M (Unit {0}) → Tables → Type 0
  Makes m t' = Triple Any (λ t. t ≡ t0) m (λ _ t. t ≡ t')

  create_expert_t :
      (x : Expert) → Makes (create_expert env x) (record t0 { experts = t0.experts ++ x ∷ [] })
  unfolding create_expert
  create_expert_t x =
      exec_unless_t env.host database (λ _ _. tt) _ _
        (λ _ t p _. ap (λ (t : Tables). record t { experts = t.experts ++ x ∷ [] }) p)

  create_admin_t :
      (x : Admin) → Makes (create_admin env x) (record t0 { admins = t0.admins ++ x ∷ [] })
  unfolding create_admin
  create_admin_t x =
      exec_unless_t env.host database (λ _ _. tt) _ _
        (λ _ t p _. ap (λ (t : Tables). record t { admins = t.admins ++ x ∷ [] }) p)

  create_super_admin_t :
      (x : SuperAdmin)
      → Makes (create_super_admin env x) (record t0 { super_admins = t0.super_admins ++ x ∷ [] })
  unfolding create_super_admin
  create_super_admin_t x =
      exec_unless_t env.host database (λ _ _. tt) _ _
        (λ _ t p _. ap (λ (t : Tables). record t { super_admins = t.super_admins ++ x ∷ [] }) p)

  create_institute_t :
      (x : BaseOrg)
      → Makes (create_institute env x) (record t0 { institutes = t0.institutes ++ x ∷ [] })
  unfolding create_institute
  create_institute_t x =
      exec_unless_t env.host database (λ _ _. tt) _ _
        (λ _ t p _. ap (λ (t : Tables). record t { institutes = t.institutes ++ x ∷ [] }) p)

  create_authority_t :
      (x : BaseOrg)
      → Makes
          (create_authority env x)
          (record t0 { transport_authorities = t0.transport_authorities ++ x ∷ [] })
  unfolding create_authority
  create_authority_t x =
      exec_unless_t env.host database (λ _ _. tt) _ _
        (λ _ t p _.
          ap
            (λ (t : Tables). record t { transport_authorities = t.transport_authorities ++ x ∷ [] })
            p)

  -- An account that has been made, with the invitations as they were.
  abbrev Result : EntityType → Invitation → Text → Holder → Tables → Type 0
  Result role inv hash h t =
      (t.invitations ≡ t0.invitations) × Invited inv role h × Opens role inv hash h t0 t

  result :
      (role : EntityType) (inv : Invitation) (hash : Text) (h : Holder) (t' t : Tables)
      → t ≡ t'
      → Result role inv hash h t'
      → Result role inv hash h t
  result role inv hash h t' t e r = subst (Result role inv hash h) (sym e) r

  open_account_t :
      (role : EntityType) (inv : Invitation) (req : AcceptInvitationRequest) (hash : Text) (now : ℕ)
      → Triple Any
          (λ t. t ≡ t0)
          (open_account env (some role) inv req hash now)
          (Result role inv hash)
  unfolding open_account
  open_account_t candidate inv req hash now = fail_t unknown_entity_type (λ t p. tt)
  open_account_t expert inv req hash now = bind_t (ask_t env.host.new_uuid) λ id.
      let x = invited_expert inv req hash now id in
      bind_t (create_expert_t x) λ _. pure_t (expert_holder x) (λ t k.
        result expert inv hash (expert_holder x) _ t k (
          refl,
          record { email_is = refl; type_is = refl; center_is = inl refl },
          (x, (refl, refl, refl, refl), refl),
        ))
  open_account_t institute inv req hash now = bind_t (ask_t env.host.new_uuid) λ id.
      let x = invited_org inv req hash now id in
      bind_t (create_institute_t x) λ _. pure_t (institute_holder x) (λ t k.
        result institute inv hash (institute_holder x) _ t k (
          refl,
          record { email_is = refl; type_is = refl; center_is = inl refl },
          (x, (refl, refl, refl, refl), refl),
        ))
  open_account_t transport_authority inv req hash now = bind_t (ask_t env.host.new_uuid) λ id.
      let x = invited_org inv req hash now id in
      bind_t (create_authority_t x) λ _. pure_t (authority_holder x) (λ t k.
        result transport_authority inv hash (authority_holder x) _ t k (
          refl,
          record { email_is = refl; type_is = refl; center_is = inl refl },
          (x, (refl, refl, refl, refl), refl),
        ))
  open_account_t super_admin inv req hash now = bind_t (ask_t env.host.new_uuid) λ id.
      let x = invited_super_admin inv req hash now id in
      bind_t (create_super_admin_t x) λ _. pure_t (super_admin_holder x) (λ t k.
        result super_admin inv hash (super_admin_holder x) _ t k (
          refl,
          record { email_is = refl; type_is = refl; center_is = inl refl },
          (x, refl, refl, refl, refl),
        ))
  open_account_t admin inv req hash now =
      bind_t (from_option_t inv.test_center_id missing_test_center (λ _ _ _. tt)) λ center.
        assume_t (λ t k. k.1)
          λ at_center.
            weaken_pre_t (λ t k. k.0)
              (bind_t (ask_t env.host.new_uuid) λ id.
                let x = invited_admin inv req center hash now id in
                bind_t (create_admin_t x) λ _. pure_t (admin_holder x) (λ t k.
                  result admin inv hash (admin_holder x) _ t k (
                    refl,
                    record { email_is = refl; type_is = refl; center_is = inr (sym at_center) },
                    (x, (refl, refl, refl, refl), sym at_center, refl),
                  )))

  pub open_role_t :
      (role : Option EntityType) (inv : Invitation) (req : AcceptInvitationRequest) (hash : Text)
      (now : ℕ)
      → Triple Any
          (λ t. t ≡ t0)
          (open_account env role inv req hash now)
          (λ h t. (r : EntityType) × (role ≡ some r) × Result r inv hash h t)
  unfolding open_account
  open_role_t none inv req hash now = fail_t unknown_entity_type (λ t p. tt)
  open_role_t (some r) inv req hash now =
      weaken_t (open_account_t r inv req hash now) (λ h t k. (r, refl, k))
