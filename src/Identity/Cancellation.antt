-- ===== src/Identity/Cancellation.antt =====
-- Whose invitations are cancelled.
use adlts_core_engine.Prelude.{
  arith, ℕ, ◌≡◌, refl, ap, subst, true, ◌&&◌, inl, inr, Option, none, some, Bool-cases,
  if◌then◌else◌,
}
use adlts_core_engine.Program.{State, Outcome, ok, err, lift, pure, ◌>>◌}
use adlts_core_engine.Program.Triple.{
  Ends, Triple, pure_t, bind_t, weaken_pre_t, guard_t, lift_t, assume_t, exec_t,
}
use adlts_core_engine.Security.Guards.{AuthContext}
use adlts_core_engine.Identity.Accounts.{Invitation}
use adlts_core_engine.Identity.World.{Tables, Error, Env, database, not_found, invite_already_used}
use adlts_core_engine.Identity.Repository.Rows.{is_unused, delete_where}
use adlts_core_engine.Identity.Repository.Lookups.{invitation_row}
use adlts_core_engine.Identity.Repository.Writes.{cancel_invitation_row, is_of_invitation}
use adlts_core_engine.Identity.Service.Invitations.{
  is_center_admin, same_center, get_invitation, cancel_invitation,
}
use adlts_core_engine.Identity.Reads.{invitation_by_id_t, present_t}

-- An invitation of the test center of who asks.
pub record Own (auth : AuthContext) (inv : Invitation) : Type 0 where
  pub center : ℕ
  pub theirs : inv.test_center_id ≡ some center
  pub own : auth.test_center_id ≡ some center

same_center-ok : (a b : Option ℕ) → same_center a b ≡ ok tt → (c : ℕ) × (a ≡ some c) × (b ≡ some c)
same_center-ok none b e = absurd (cc)
same_center-ok (some x) none e = absurd (cc)
same_center-ok (some x) (some y) e = (x, refl, ground arith)

module _ (env : Env) (auth : AuthContext) (t0 : Tables) where
  -- Behind an error nothing has changed.
  abbrev Same : Error → Tables → Type 0
  Same e t = t ≡ t0

  abbrev Seen : ℕ → Invitation → Type 0
  Seen id inv = (invitation_row id t0 ≡ some inv) × (is_center_admin auth ≡ true → Own auth inv)

  admitted_t :
      (inv : Invitation) (id : ℕ)
      → invitation_row id t0 ≡ some inv
      → Triple Same
          (λ t. t ≡ t0)
          (if is_center_admin auth
            then lift (same_center inv.test_center_id auth.test_center_id) >> pure inv
            else pure inv)
          (λ i t. (t ≡ t0) × Seen id i)
  admitted_t inv id found = elim (Bool-cases (is_center_admin auth)) [
    | inl e ↦ rw e (
        bind_t (lift_t (same_center inv.test_center_id auth.test_center_id) (λ _ _ p _. p)) λ _.
          pure_t inv (λ t k.
            let (c, a, b) = same_center-ok inv.test_center_id auth.test_center_id k.1 in
            (k.0, (found, λ _. record { center = c; theirs = a; own = b }))))
    | inr e ↦ rw e (pure_t inv (λ t k. (k, (found, λ h. absurd (cc)))))
  ]

  get_invitation_t :
      (id : ℕ)
      → Triple Same (λ t. t ≡ t0) (get_invitation env auth id) (λ i t. (t ≡ t0) × Seen id i)
  unfolding get_invitation
  get_invitation_t id =
      bind_t (present_t env not_found (λ _ p. p) (invitation_by_id_t env (λ _ p. p) id)) λ inv.
        assume_t (λ t k. subst (λ x. invitation_row id x ≡ some inv) k.0 k.1)
          λ found. weaken_pre_t (λ t k. k.0) (admitted_t inv id found)

  -- What a cancellation has found and left.
  pub record Cancelled (id : ℕ) (t : Tables) : Type 0 where
    pub invited : Invitation
    pub seen : Seen id invited
    pub unused : is_unused invited ≡ true
    pub left : t ≡ record t0 {
      invitations = delete_where (λ i. is_of_invitation id i && is_unused i) t0.invitations;
    }

  cancel_invitation_t :
      (id : ℕ) → Triple Same (λ t. t ≡ t0) (cancel_invitation env auth id) (λ _. Cancelled id)
  unfolding cancel_invitation cancel_invitation_row
  cancel_invitation_t id = bind_t (get_invitation_t id) λ inv.
      bind_t (guard_t (is_unused inv) invite_already_used (λ _ k _. k.0)) λ _.
        exec_t env.host database (λ _ k. k.0.0) _
          (λ _ t k. record {
            invited = inv;
            seen = k.0.1;
            unused = k.1;
            left =
                ap
                  (λ (x : Tables). record x {
                    invitations =
                        delete_where (λ i. is_of_invitation id i && is_unused i) x.invitations;
                  })
                  k.0.0;
          })

-- How a cancellation ends.
abbrev pub Outcomes :
    (env : Env) (auth : AuthContext) (id : ℕ) (t : Tables)
    → Outcome Error (Unit {0}) × State Tables
    → Type 0
Outcomes env auth id t (ok tt, w') = Cancelled env auth t id w'.tables
Outcomes env auth id t (err e, w') = w'.tables ≡ t

outcomes :
    (env : Env) (auth : AuthContext) (id : ℕ) (t : Tables)
    (r : Outcome Error (Unit {0}) × State Tables)
    → Ends (λ _ x. x ≡ t) (λ _. Cancelled env auth t id) r
    → Outcomes env auth id t r
outcomes env auth id t (ok tt, w') h = h
outcomes env auth id t (err e, w') h = h

-- Whatever fails on the way, a cancellation deletes an invitation that was there, unused, and where
-- an administrator asks, of the administrator's own test center; where it ends in an error no table
-- has changed.
pub cancel_invitation-Outcomes :
    (env : Env) (auth : AuthContext) (id : ℕ) (w : State Tables)
    → Outcomes env auth id w.tables (cancel_invitation env auth id w)
cancel_invitation-Outcomes env auth id w =
    outcomes env auth id w.tables (cancel_invitation env auth id w)
      ((cancel_invitation_t env auth w.tables id).apply w refl)
