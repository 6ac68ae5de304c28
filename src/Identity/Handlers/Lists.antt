-- ===== src/Identity/Handlers/Lists.antt =====
-- The handlers that list, and that a listing shows an administrator the own center only.
use adlts_core_engine.Prelude.{
  arith, ℕ, ◌≤◌, ◌<◌, ◌≡◌, ◌≢◌, refl, sym, ap, subst, inl, inr, ==_iff, Bool-cases, text_eq,
  text_eq_refl, text_eq_sound, [], ◌∷◌, Bool, true, false, ◌&&◌, List, Option, none, some, Text,
  codes, All, ℤ, if◌then◌else◌,
}
use adlts_core_engine.Program.{State, Outcome, ok, err, pure, ◌>>=◌, ticked}
use adlts_core_engine.Program.Triple.{
  Ends, Triple, pure_t, bind_t, weaken_t, ask_t, fetch_t, recover_t, weaken_pre_t,
}
use adlts_core_engine.Booking.Listing.{All-sort, All-page_of, All-kept}
use adlts_core_engine.Booking.Handlers.{page_param}
use adlts_core_engine.Security.Guards.{AuthContext}
use adlts_core_engine.Identity.Accounts.{Candidate, Expert, Admin, SuperAdmin, BaseOrg, Invitation}
use adlts_core_engine.Identity.World.{Tables, Error, Env, database}
use adlts_core_engine.Identity.Repository.Rows.{is_some}
use adlts_core_engine.Identity.Repository.Lookups.{query}
use adlts_core_engine.Identity.Repository.Writes.{time_now}
use adlts_core_engine.Identity.Repository.Listings.{
  status_kept, invitation_kept, is_at_center, newest, counted_rows, list_candidates, list_experts,
  list_admins, list_institutes, list_authorities, list_super_admins, list_invitations,
}
use adlts_core_engine.Identity.Service.Invitations.{is_center_admin}
use adlts_core_engine.Identity.Handlers.{Reply, success, failure, Handled, answer}

abbrev pub paged {ℓ} : {A : Type ℓ} → Outcome Error A × State Tables → Reply A × State Tables
paged = answer 200 (λ _. failure 500 (codes "DB_ERROR"))

-- The center that an administrator's listing is bound to.
abbrev pub center_of : AuthContext → Option ℕ
center_of auth = if is_center_admin auth then auth.test_center_id else none

-- The query parameters are the search, the status and the number of the page.
module _ (env : Env) where
  unfoldable pub handle_list_candidates : Text → Text → ℤ → Handled (List Candidate × ℕ)
  unfolding page_param
  handle_list_candidates search status page w =
      paged (list_candidates env search status (page_param page) w)

  unfoldable pub handle_list_experts : Text → Text → ℤ → Handled (List Expert × ℕ)
  unfolding page_param
  handle_list_experts search status page w =
      paged (list_experts env search status (page_param page) w)

  unfoldable pub handle_list_institutes : Text → Text → ℤ → Handled (List BaseOrg × ℕ)
  unfolding page_param
  handle_list_institutes search status page w =
      paged (list_institutes env search status (page_param page) w)

  unfoldable pub handle_list_authorities : Text → Text → ℤ → Handled (List BaseOrg × ℕ)
  unfolding page_param
  handle_list_authorities search status page w =
      paged (list_authorities env search status (page_param page) w)

  -- The center is that of the query, if it is a UUID.
  unfoldable pub handle_list_admins : Text → Text → Option ℕ → ℤ → Handled (List Admin × ℕ)
  unfolding page_param
  handle_list_admins search status center page w =
      paged (list_admins env search status center (page_param page) w)

  unfoldable pub handle_list_super_admins : Text → ℤ → Handled (List SuperAdmin × ℕ)
  unfolding page_param
  handle_list_super_admins search page w = paged (list_super_admins env search (page_param page) w)

  unfoldable pub handle_list_invitations : AuthContext → Text → ℤ → Handled (List Invitation × ℕ)
  unfolding page_param
  handle_list_invitations auth status page w =
      paged (list_invitations env status (center_of auth) (page_param page) w)

-- Nothing is said of an error.
abbrev Any : Error → Tables → Type 0
Any e t = Unit

-- Every row is one that the filter keeps at a time.
abbrev Kept : Text → Option ℕ → ℕ → List Invitation → Type 0
Kept status center now is = All (λ (i : Invitation). invitation_kept status center now i ≡ true) is

module _ (env : Env) (status : Text) (center : Option ℕ) (page : ℤ) where
  counted_t :
      (later : ℕ) {P : Type 0}
      → Triple Any
          (λ _. P)
          (counted_rows env (λ t. t.invitations) (invitation_kept status center later))
          (λ _ _. P)
  counted_t later {P} =
      recover_t {J = λ _ _. P} 0 (λ _ _ p. p)
        (weaken_t (fetch_t env.host database (λ _ p. p) _) (λ _ _ k. k.0))

  known :
      (now : ℕ) (t : Tables)
      → All
          (λ (i : Invitation). invitation_kept status center now i ≡ true)
          (newest env
            (λ (i : Invitation). i.created_at)
            (invitation_kept status center now)
            page
            t.invitations)
  known now t =
      All-page_of (λ (i : Invitation). invitation_kept status center now i ≡ true) page _
        (All-sort (λ (i : Invitation). invitation_kept status center now i ≡ true) _ _
          (All-kept (invitation_kept status center now) t.invitations))

  list_t :
      (now : ℕ)
      → Triple {A = List Invitation × ℕ} Any
          (λ _. Unit)
          (query env (λ t.
              newest env
                (λ (i : Invitation). i.created_at)
                (invitation_kept status center now)
                page
                t.invitations)
            >>= λ found. time_now env >>= λ later.
                counted_rows env (λ t. t.invitations) (invitation_kept status center later)
                >>= λ total. pure (found, total))
          (λ r _. Kept status center now r.0)
  list_t now = bind_t (fetch_t env.host database (λ _ _. tt) _) λ found.
      weaken_pre_t {R = λ _. Kept status center now found} (λ t k. rw k.1 (known now t))
        (bind_t (ask_t env.host.now)
          λ later. bind_t (counted_t later) λ total. pure_t (found, total) (λ _ k. k))

  list_at :
      (w : State Tables)
      → Ends Any
          (λ r _. Kept status center (env.host.now w.tick) r.0)
          (list_invitations env status center page w)
  unfolding list_invitations
  list_at w = (list_t (env.host.now w.tick)).apply (ticked w) tt

-- What the words of the filter say of an invitation at a time; another word says nothing.
pub data HasStatus (now : ℕ) (i : Invitation) : Text → Type 0 where
  pending : i.used_at ≡ none → now < i.expires_at → HasStatus now i (codes "pending")
  used : (at : ℕ) → i.used_at ≡ some at → HasStatus now i (codes "used")
  expired : i.used_at ≡ none → i.expires_at ≤ now → HasStatus now i (codes "expired")
  unasked :
      (s : Text) → s ≢ codes "pending" → s ≢ codes "used" → s ≢ codes "expired" → HasStatus now i s

-- An invitation of a center, and with the status that was asked for at a time.
abbrev pub OfCenter : Text → ℕ → ℕ → Invitation → Type 0
OfCenter status c now i = (i.test_center_id ≡ some c) × HasStatus now i status

differs : (a b : Text) → text_eq a b ≡ false → a ≢ b
differs a b e same =
    let equal : text_eq a b ≡ true = rw same (text_eq_refl b) in absurd (ground arith)

is_used : (o : Option ℕ) → is_some o ≡ true → (at : ℕ) × (o ≡ some at)
is_used none e = absurd (cc)
is_used (some at) e = (at, refl)

status_kept-HasStatus :
    (s : Text) (now : ℕ) (i : Invitation) → status_kept s now i ≡ true → HasStatus now i s
status_kept-HasStatus s now i e = elim (Bool-cases (text_eq s (codes "pending"))) [
  | inl p ↦
      subst (HasStatus now i) (sym (text_eq_sound s _ p))
        (pending (ground (arith, e, p)) (ground (arith, e, p)))
  | inr np ↦ elim (Bool-cases (text_eq s (codes "used"))) [
    | inl u ↦
        let (at, is_at) = is_used i.used_at (ground (arith, e, np, u)) in
        subst (HasStatus now i) (sym (text_eq_sound s _ u)) (used at is_at)
    | inr nu ↦ elim (Bool-cases (text_eq s (codes "expired"))) [
      | inl x ↦
          subst (HasStatus now i) (sym (text_eq_sound s _ x))
            (expired (ground (arith, e, np, nu, x)) (ground (arith, e, np, nu, x)))
      | inr nx ↦ unasked s (differs s _ np) (differs s _ nu) (differs s _ nx)
    ]
  ]
]

at_center : (o : Option ℕ) (c : ℕ) → is_at_center o c ≡ true → o ≡ some c
at_center none c e = absurd (cc)
at_center (some x) c e = ap some ((==_iff x c).0 e)

both : (a b : Bool) → (a && b) ≡ true → (a ≡ true) × (b ≡ true)
both true b e = (refl, e)
both false b e = absurd (cc)

kept-OfCenter :
    (status : Text) (c now : ℕ) (i : Invitation)
    → invitation_kept status (some c) now i ≡ true
    → OfCenter status c now i
unfolding invitation_kept
kept-OfCenter status c now i e =
    let (wanted, here) = both (status_kept status now i) (is_at_center i.test_center_id c) e in
    (at_center i.test_center_id c here, status_kept-HasStatus status now i wanted)

all_kept :
    (status : Text) (c now : ℕ) (is : List Invitation)
    → All (λ (i : Invitation). invitation_kept status (some c) now i ≡ true) is
    → All (OfCenter status c now) is
all_kept status c now [] h = tt
all_kept status c now (i ∷ is) h = (kept-OfCenter status c now i h.0, all_kept status c now is h.1)

-- What a listing shows at a time, if it shows anything.
abbrev pub ShowsCenter : Text → ℕ → ℕ → Reply (List Invitation × ℕ) → Type 0
ShowsCenter status c now (success code r) = All (OfCenter status c now) r.0
ShowsCenter status c now (failure code text) = Unit

paged-ShowsCenter :
    (status : Text) (c now : ℕ) (r : Outcome Error (List Invitation × ℕ) × State Tables)
    → Ends Any (λ x _. Kept status (some c) now x.0) r
    → ShowsCenter status c now (paged r).0
paged-ShowsCenter status c now (ok x, w) h = all_kept status c now x.0 h
paged-ShowsCenter status c now (err e, w) h = tt

-- Whatever fails on the way, every invitation that an administrator of a test center is shown is one
-- to that center, and if the status asked for is pending, used or expired it has that status at the
-- time of the listing: unused and not yet at its end, used, or unused and at its end.
pub handle_list_invitations-ShowsCenter :
    (env : Env) (auth : AuthContext) (c : ℕ) (status : Text) (page : ℤ) (w : State Tables)
    → is_center_admin auth ≡ true
    → auth.test_center_id ≡ some c
    → ShowsCenter status c (env.host.now w.tick) (handle_list_invitations env auth status page w).0
unfolding handle_list_invitations
handle_list_invitations-ShowsCenter env auth c status page w administers at =
    rw (administers, at)
      (paged-ShowsCenter status c (env.host.now w.tick)
        (list_invitations env status (some c) (page_param page) w)
        (list_at env status (some c) (page_param page) w))
