-- ===== src/Identity/Scope.antt =====
-- Whom who invites.
use adlts_core_engine.Prelude.{
  arith, ℕ, ◌≡◌, refl, subst, ◌+◌, Bool, true, false, not, ◌||◌, ◌&&◌, inl, inr, ◌⊎◌, [], ◌∷◌, ◌++◌,
  none, Text, text_eq, text_eq_sound, is_empty,
}
use adlts_core_engine.Booking.Types.{expert, admin, institute}
use adlts_core_engine.Program.{State, ok}
use adlts_core_engine.Program.Triple.{
  run_t, Triple, pure_t, bind_t, weaken_pre_t, guard_t, lift_t, ask_t, assume_t, exec_unless_t,
}
use adlts_core_engine.Security.Guards.{AuthContext, entity_name}
use adlts_core_engine.Identity.Accounts.{Invitation}
use adlts_core_engine.Identity.World.{
  Tables, Error, Env, database, email_and_type_required, test_center_required, mail_failed,
  invitation,
}
use adlts_core_engine.Identity.Requests.{CreateInvitationRequest}
use adlts_core_engine.Identity.Repository.Rows.{is_some, clashes_invitation}
use adlts_core_engine.Identity.Repository.Writes.{create_invitation_row}
use adlts_core_engine.Identity.Service.Tokens.{invitation_ttl, send_mail}
use adlts_core_engine.Identity.Service.Invitations.{
  is_center_admin, scoped, new_invitation, invite_link, create_invitation,
}

-- Nothing is said of the tables behind an error.
abbrev Any : Error → Tables → Type 0
Any e t = Unit

-- An invitation that an administrator may make: for an expert or an institute, at the own center.
pub record Within (auth : AuthContext) (inv : Invitation) : Type 0 where
  pub role_is : (inv.entity_type ≡ entity_name expert) ⊎ (inv.entity_type ≡ entity_name institute)
  pub center_is : inv.test_center_id ≡ auth.test_center_id

either : (a b : Bool) → (a || b) ≡ true → (a ≡ true) ⊎ (b ≡ true)
either true b e = inl refl
either false b e = inr e

scoped-ok :
    (auth : AuthContext) (req req' : CreateInvitationRequest)
    → scoped auth req ≡ ok req'
    → is_center_admin auth ≡ true
    → ((text_eq req.entity_type (entity_name expert)
          || text_eq req.entity_type (entity_name institute))
        ≡ true)
      × (record req { test_center_id = auth.test_center_id } ≡ req')
unfolding scoped
scoped-ok auth req req' e a = ground arith

scoped-Within :
    (auth : AuthContext) (req req' : CreateInvitationRequest) (now id : ℕ) (token : Text)
    → scoped auth req ≡ ok req'
    → is_center_admin auth ≡ true
    → Within auth (new_invitation auth req' now id token)
scoped-Within auth req req' now id token e a =
    let (role, made) = scoped-ok auth req req' e a in
    subst (λ r. Within auth (new_invitation auth r now id token)) made
      (record {
        role_is = elim (either _ _ role) [
          | inl x ↦ inl (text_eq_sound req.entity_type (entity_name expert) x)
          | inr y ↦ inr (text_eq_sound req.entity_type (entity_name institute) y)
        ];
        center_is = refl;
      })

-- What an invitation that was made has left.
pub record Made (auth : AuthContext) (t : Tables) (inv : Invitation) (t' : Tables) : Type 0 where
  pub by_whom : inv.created_by ≡ auth.subject_id
  pub lives : inv.expires_at ≡ inv.created_at + invitation_ttl
  pub unused : inv.used_at ≡ none
  pub within : is_center_admin auth ≡ true → Within auth inv
  pub fresh : clashes_invitation inv t ≡ false
  pub stored : t' ≡ record t { invitations = t.invitations ++ inv ∷ [] }

module _ (env : Env) (auth : AuthContext) (t0 : Tables) where
  insert_t :
      (inv : Invitation)
      → Triple Any
          (λ t. t ≡ t0)
          (create_invitation_row env inv)
          (λ _ t.
            (t ≡ record t0 { invitations = t0.invitations ++ inv ∷ [] })
            × (clashes_invitation inv t0 ≡ false))
  unfolding create_invitation_row
  insert_t inv =
      exec_unless_t env.host database (λ _ _. tt) (clashes_invitation inv)
        (λ _ t. record t { invitations = t.invitations ++ inv ∷ [] })
        (λ _ t p free. rw (← p) (refl, free))

  create_invitation_t :
      (request : CreateInvitationRequest)
      → Triple Any (λ t. t ≡ t0) (create_invitation env auth request) (λ inv t. Made auth t0 inv t)
  unfolding create_invitation send_mail
  create_invitation_t request =
      bind_t
        (guard_t (not (is_empty request.email || is_empty request.entity_type))
          email_and_type_required (λ _ _ _. tt))
        λ _. bind_t (lift_t (scoped auth request) (λ _ _ _ _. tt)) λ req.
          bind_t
            (guard_t
              (not
                (text_eq req.entity_type (entity_name admin) && not (is_some req.test_center_id)))
              test_center_required (λ _ _ _. tt))
            λ _. bind_t (ask_t env.host.now) λ now. bind_t (ask_t env.host.new_uuid) λ id.
              bind_t (ask_t (λ n. env.uuid_string (env.host.new_uuid n))) λ token.
                assume_t (λ t k. k.0.1)
                  λ is_scoped.
                    weaken_pre_t (λ t k. k.0.0.0)
                      (bind_t (insert_t (new_invitation auth req now id token)) λ _.
                        bind_t
                          (ask_t (λ n.
                            env.mail_sent n
                              (invitation req.email req.entity_type (invite_link env token))))
                          λ sent. bind_t (guard_t sent mail_failed (λ _ _ _. tt)) λ _.
                            pure_t (new_invitation auth req now id token) (λ t k. record {
                              by_whom = refl;
                              lives = refl;
                              unused = refl;
                              within = scoped-Within auth request req now id token is_scoped;
                              fresh = k.0.1;
                              stored = k.0.0;
                            }))

-- Whatever fails on the way, an invitation that is made is in the name of who made it, unused and
-- good for 72 hours; its id and token were free and it is the only change to the tables. Made by an
-- administrator, it is for an expert or an institute at the administrator's own test center.
pub create_invitation-Made :
    (env : Env) (auth : AuthContext) (req : CreateInvitationRequest) (w : State Tables)
    {inv : Invitation} {w' : State Tables}
    → create_invitation env auth req w ≡ (ok inv, w')
    → Made auth w.tables inv w'.tables
create_invitation-Made env auth req w e = run_t w (create_invitation_t env auth w.tables req) refl e
