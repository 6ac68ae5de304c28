-- ===== src/Prelude/Tables.antt =====
-- Tables with a primary key: what a write by key does to what holds of every row.
use adlts_core_engine.Prelude.Tests.{◌==◌, ==_iff, if◌then◌else◌, Bool-cases}
use adlts_core_engine.Prelude.Lists.{All, keep_if, find_by, update_by}
use Prim.Native.Nat.{ℕ}
use mathlib.Core.Path.{◌≡◌, refl, sym, subst}
use mathlib.Core.Logic.{◌≢◌, inl, inr}
use mathlib.Core.Bool.{Bool}
use mathlib.Core.List.{List, [], ◌∷◌, ◌++◌}
use mathlib.Core.Option.{none, some}
use native.Mathlib.Omega.{arith}

module _ {ℓ} {A : Type ℓ} where
  pub All-append {κ} : (P : A → Type κ) (xs ys : List A) → All P xs → All P ys → All P (xs ++ ys)
  All-append P [] ys h k = k
  All-append P (x ∷ xs) ys h k = (h.0, All-append P xs ys h.1 k)

  pub All-keep_if {κ} :
      (P : A → Type κ) (p : A → Bool) (xs : List A) → All P xs → All P (keep_if p xs)
  unfolding keep_if
  All-keep_if P p [] h = tt
  All-keep_if P p (x ∷ xs) h = elim (Bool-cases (p x)) [
    | inl e ↦ rw e (h.0, All-keep_if P p xs h.1)
    | inr e ↦ rw e (All-keep_if P p xs h.1)
  ]

module _ {ℓ} {A : Type ℓ} (key : A → ℕ) where
  -- No row has the key.
  abbrev pub Absent : ℕ → List A → Type 0
  Absent k = All (λ x. key x ≢ k)

  -- No two rows have one key.
  abbrev pub Distinct : List A → Type 0
  Distinct [] = Unit
  Distinct (x ∷ xs) = Absent (key x) xs × Distinct xs

  pub find_by-Absent : (k : ℕ) (xs : List A) → find_by key k xs ≡ none → Absent k xs
  unfolding find_by
  find_by-Absent k [] h = tt
  find_by-Absent k (x ∷ xs) h = ground (arith, find_by-Absent k xs)

  pub update_by-Absent : (k : ℕ) (f : A → A) (xs : List A) → Absent k xs → update_by key k f xs ≡ xs
  unfolding update_by
  update_by-Absent k f [] h = refl
  update_by-Absent k f (x ∷ xs) h = ground (arith, update_by-Absent k f xs h.1)

  -- A write that keeps the keys keeps an absent key absent.
  Absent-update_by :
      (j k : ℕ) (f : A → A) (xs : List A)
      → ((x : A) → key (f x) ≡ key x)
      → Absent j xs
      → Absent j (update_by key k f xs)
  unfolding update_by
  Absent-update_by j k f [] same h = tt
  Absent-update_by j k f (x ∷ xs) same h =
      ground (arith, same x, h.0, Absent-update_by j k f xs same h.1)

  Absent-keep_if : (j : ℕ) (p : A → Bool) (xs : List A) → Absent j xs → Absent j (keep_if p xs)
  Absent-keep_if j p xs h = All-keep_if (λ x. key x ≢ j) p xs h

  Absent-append : (j : ℕ) (xs : List A) (r : A) → Absent j xs → key r ≢ j → Absent j (xs ++ r ∷ [])
  Absent-append j xs r h d = All-append (λ x. key x ≢ j) xs (r ∷ []) h (d, tt)

  pub Distinct-update_by :
      (k : ℕ) (f : A → A) (xs : List A)
      → ((x : A) → key (f x) ≡ key x)
      → Distinct xs
      → Distinct (update_by key k f xs)
  unfolding update_by
  Distinct-update_by k f [] same h = tt
  Distinct-update_by k f (x ∷ xs) same h = (
    elim (Bool-cases (key x == k)) [
      | inl e ↦ rw (e, same x) (Absent-update_by (key x) k f xs same h.0)
      | inr e ↦ rw e (Absent-update_by (key x) k f xs same h.0)
    ],
    Distinct-update_by k f xs same h.1,
  )

  pub Distinct-keep_if : (p : A → Bool) (xs : List A) → Distinct xs → Distinct (keep_if p xs)
  unfolding keep_if
  Distinct-keep_if p [] h = tt
  Distinct-keep_if p (x ∷ xs) h = elim (Bool-cases (p x)) [
    | inl e ↦ rw e (Absent-keep_if (key x) p xs h.0, Distinct-keep_if p xs h.1)
    | inr e ↦ rw e (Distinct-keep_if p xs h.1)
  ]

  pub Distinct-append :
      (xs : List A) (r : A) → Absent (key r) xs → Distinct xs → Distinct (xs ++ r ∷ [])
  Distinct-append [] r a h = (tt, tt)
  Distinct-append (x ∷ xs) r a h =
      (Absent-append (key x) xs r h.0 (λ e. a.0 (sym e)), Distinct-append xs r a.1 h.1)

  -- A write that turns good rows into good rows keeps the table good.
  pub All-update_by {κ} :
      (P : A → Type κ) (k : ℕ) (f : A → A) (xs : List A)
      → ((x : A) → P x → P (f x))
      → All P xs
      → All P (update_by key k f xs)
  unfolding update_by
  All-update_by P k f [] keep h = tt
  All-update_by P k f (x ∷ xs) keep h = elim (Bool-cases (key x == k)) [
    | inl e ↦ rw e (keep x h.0, All-update_by P k f xs keep h.1)
    | inr e ↦ rw e (h.0, All-update_by P k f xs keep h.1)
  ]

  pub find_by-All {κ} :
      (P : A → Type κ) (k : ℕ) (xs : List A) {x : A} → All P xs → find_by key k xs ≡ some x → P x
  unfolding find_by
  find_by-All P k [] h e = absurd (cc)
  find_by-All P k (y ∷ ys) {x} h e = elim (Bool-cases (key y == k)) [
    | inl hit ↦ subst P (ground arith) h.0
    | inr miss ↦ find_by-All P k ys h.1 (ground arith)
  ]

  pub find_by-key : (k : ℕ) (xs : List A) {x : A} → find_by key k xs ≡ some x → key x ≡ k
  unfolding find_by
  find_by-key k [] e = absurd (cc)
  find_by-key k (y ∷ ys) {x} e = ground (arith, find_by-key k ys {x = x})

  -- Where the row that was read becomes good, and keys are distinct, the table stays good.
  pub All-update_by_found {κ} :
      (P : A → Type κ) (k : ℕ) (f : A → A) (xs : List A) {x : A}
      → Distinct xs
      → find_by key k xs ≡ some x
      → P (f x)
      → All P xs
      → All P (update_by key k f xs)
  unfolding find_by update_by
  All-update_by_found P k f [] d e good h = tt
  All-update_by_found P k f (y ∷ ys) {x} d e good h = elim (Bool-cases (key y == k)) [
    | inl hit ↦
        rw (hit, update_by-Absent k f ys (rw (← (==_iff (key y) k).0 hit) d.0))
          (subst (λ z. P (f z)) (ground arith) good, h.1)
    | inr miss ↦ rw miss (h.0, All-update_by_found P k f ys d.1 (ground arith) good h.1)
  ]

  -- Reading after a write.
  pub find_by-update_by :
      (j k : ℕ) (f : A → A) (xs : List A) {x : A}
      → ((x : A) → key (f x) ≡ key x)
      → find_by key j xs ≡ some x
      → find_by key j (update_by key k f xs) ≡ some (if j == k then f x else x)
  unfolding find_by update_by
  find_by-update_by j k f [] same e = absurd (cc)
  find_by-update_by j k f (y ∷ ys) {x} same e =
      ground (arith, same y, find_by-update_by j k f ys {x = x} same)

  pub find_by-update_by_self :
      (k : ℕ) (f : A → A) (xs : List A) {x : A}
      → ((x : A) → key (f x) ≡ key x)
      → find_by key k xs ≡ some x
      → find_by key k (update_by key k f xs) ≡ some (f x)
  find_by-update_by_self k f xs same e = rw (find_by-update_by k k f xs same e, (==_iff k k).1 refl)

  pub find_by-update_by_ne :
      (j k : ℕ) (f : A → A) (xs : List A) {x : A}
      → ((x : A) → key (f x) ≡ key x)
      → j ≢ k
      → find_by key j xs ≡ some x
      → find_by key j (update_by key k f xs) ≡ some x
  find_by-update_by_ne j k f xs same ne e = rw (find_by-update_by j k f xs same e) (ground arith)
