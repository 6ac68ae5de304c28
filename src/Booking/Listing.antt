-- ===== src/Booking/Listing.antt =====
-- What `ListBookings` shows to whom.
use adlts_core_engine.Prelude.{
  ℕ, zero, suc, ◌≡◌, refl, subst, Bool, true, inl, inr, List, [], ◌∷◌, map, Option, none, some, All,
  ℤ, keep_if, take, drop, leb, Bool-cases, arith,
}
use adlts_core_engine.Booking.Types.{forbidden, BookingStatus, BookingRow, Booking, AuthContext}
use adlts_core_engine.Booking.World.{from_option, ◌>>=◌, Tables, World, Env, ok, fetch}
use adlts_core_engine.Booking.Repository.{
  BookingFilter, status_allowed, matches_filter, insert_sorted, sort, page_of, joined,
  list_bookings,
}
use adlts_core_engine.Booking.Service.{may_access, scope_filter, list_bookings_for}

module _ {ℓ κ} {A : Type ℓ} (P : A → Type κ) where
  All-insert_sorted :
      (before : A → A → Bool) (x : A) (ys : List A)
      → P x
      → All P ys
      → All P (insert_sorted before x ys)
  unfolding insert_sorted
  All-insert_sorted before x [] p h = (p, tt)
  All-insert_sorted before x (y ∷ ys) p h = elim (Bool-cases (before y x)) [
    | inl e ↦ rw e (h.0, All-insert_sorted before x ys p h.1)
    | inr e ↦ rw e (p, h)
  ]

  pub All-sort : (before : A → A → Bool) (xs : List A) → All P xs → All P (sort before xs)
  unfolding sort
  All-sort before [] h = tt
  All-sort before (x ∷ xs) h =
      All-insert_sorted before x (sort before xs) h.0 (All-sort before xs h.1)

  All-take : (n : ℕ) (xs : List A) → All P xs → All P (take n xs)
  All-take zero xs h = tt
  All-take (suc n) [] h = tt
  All-take (suc n) (x ∷ xs) h = (h.0, All-take n xs h.1)

  All-drop : (n : ℕ) (xs : List A) → All P xs → All P (drop n xs)
  All-drop zero xs h = h
  All-drop (suc n) [] h = tt
  All-drop (suc n) (x ∷ xs) h = All-drop n xs h.1

  pub All-page_of : (page : ℤ) (xs : List A) → All P xs → All P (page_of page xs)
  unfolding page_of
  All-page_of page xs h = All-take 20 (drop _ xs) (All-drop _ xs h)

pub All-kept {ℓ} : {A : Type ℓ} (p : A → Bool) (xs : List A) → All (λ x. p x ≡ true) (keep_if p xs)
unfolding keep_if
All-kept p [] = tt
All-kept p (x ∷ xs) = elim (Bool-cases (p x)) [
  | inl e ↦ rw e (e, All-kept p xs)
  | inr e ↦ rw e (All-kept p xs)
]

-- What each listed booking satisfies.
abbrev pub Shown : AuthContext → Option BookingStatus → BookingRow → Type 0
Shown auth status b = (may_access auth b ≡ true) × (status_allowed status b.status ≡ true)

scope-Shown :
    (auth : AuthContext) (status : Option BookingStatus) (f : BookingFilter) (b : BookingRow)
    → scope_filter auth status ≡ some f
    → matches_filter f b ≡ true
    → Shown auth status b
unfolding scope_filter matches_filter may_access
scope-Shown auth status f b scope matches = (ground arith, ground arith)

All-joined :
    (auth : AuthContext) (status : Option BookingStatus) (f : BookingFilter) (t : Tables)
    (bs : List BookingRow)
    → scope_filter auth status ≡ some f
    → All (λ b. matches_filter f b ≡ true) bs
    → All (λ (b : Booking). Shown auth status b.row) (map (joined t) bs)
unfolding joined
All-joined auth status f t [] scope h = tt
All-joined auth status f t (b ∷ bs) scope h =
    (scope-Shown auth status f b scope h.0, All-joined auth status f t bs scope h.1)

-- The rows of a page, as the query lists them.
abbrev page_rows : BookingFilter → ℤ → Tables → List BookingRow
page_rows f page t = page_of page (
    sort (λ (a b : BookingRow). leb b.created_at a.created_at)
      (keep_if (matches_filter f) t.bookings))

list_bookings-rows :
    (env : Env) (w : World) (f : BookingFilter) (page : ℤ) {bs : List Booking} {n : ℕ}
    → (list_bookings env f page w).0 ≡ ok (bs, n)
    → map (joined w.tables) (page_rows f page w.tables) ≡ bs
unfolding list_bookings fetch
list_bookings-rows env w f page e = ground arith

listed :
    (env : Env) (w : World) (auth : AuthContext) (status : Option BookingStatus) (page : ℤ)
    {bs : List Booking} {n : ℕ} (o : Option BookingFilter)
    → scope_filter auth status ≡ o
    → ((from_option o forbidden >>= λ f. list_bookings env f page) w).0 ≡ ok (bs, n)
    → All (λ (b : Booking). Shown auth status b.row) bs
listed env w auth status page none scope e = absurd (cc e)
listed env w auth status page (some f) scope e =
    subst (All (λ (b : Booking). Shown auth status b.row)) (list_bookings-rows env w f page e) (
      All-joined auth status f w.tables _ scope
        (All-page_of _ page _ (All-sort _ _ _ (All-kept (matches_filter f) w.bookings))))

-- Every booking that a listing shows is one that its caller may read, and has the status that was
-- asked for.
pub list_bookings_for-Shown :
    (env : Env) (w : World) (auth : AuthContext) (status : Option BookingStatus) (page : ℤ)
    {bs : List Booking} {n : ℕ}
    → (list_bookings_for env auth status page w).0 ≡ ok (bs, n)
    → All (λ (b : Booking). Shown auth status b.row) bs
unfolding list_bookings_for
list_bookings_for-Shown env w auth status page e =
    listed env w auth status page (scope_filter auth status) refl e
