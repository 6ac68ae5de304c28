-- ===== src/Identity/Repository/Searches.antt =====
-- What a search finds after a write.
use adlts_core_engine.Prelude.{
  arith, ℕ, ◌≡◌, refl, Bool, true, false, inl, inr, List, [], ◌∷◌, ◌++◌, none, some, Text, text_eq,
  text_eq_refl, Bool-cases, ◌==◌, eq_refl, keep_if, first_where, find_by, update_by,
}
use adlts_core_engine.Identity.Repository.Rows.{map_option, put_by, update_where, delete_where}

module _ {ℓ} {A : Type ℓ} where
  pub first_where-found :
      (p : A → Bool) (xs : List A) {x : A} → first_where p xs ≡ some x → p x ≡ true
  unfolding first_where
  first_where-found p [] e = absurd (cc)
  first_where-found p (y ∷ ys) {x} e = ground (arith, first_where-found p ys {x = x})

  pub first_where-update_where :
      (p : A → Bool) (f : A → A) (xs : List A)
      → ((x : A) → p (f x) ≡ p x)
      → first_where p (update_where p f xs) ≡ map_option f (first_where p xs)
  unfolding first_where update_where
  first_where-update_where p f [] same = refl
  first_where-update_where p f (x ∷ xs) same = elim (Bool-cases (p x)) [
    | inl e ↦ rw (e, same x, e)
    | inr e ↦ rw (e, e) (first_where-update_where p f xs same)
  ]

  -- A write to rows that the search does not look for.
  pub first_where-update_where_other :
      (q p : A → Bool) (f : A → A) (xs : List A)
      → ((x : A) → p x ≡ true → q x ≡ false)
      → ((x : A) → p x ≡ true → q (f x) ≡ false)
      → first_where q (update_where p f xs) ≡ first_where q xs
  unfolding first_where update_where
  first_where-update_where_other q p f [] out still = refl
  first_where-update_where_other q p f (x ∷ xs) out still = elim (Bool-cases (p x)) [
    | inl e ↦ rw (e, still x e, out x e) (first_where-update_where_other q p f xs out still)
    | inr e ↦ rw (e, first_where-update_where_other q p f xs out still)
  ]

  pub first_where-delete_where :
      (p : A → Bool) (xs : List A) → first_where p (delete_where p xs) ≡ none
  unfolding first_where delete_where keep_if
  first_where-delete_where p [] = refl
  first_where-delete_where p (x ∷ xs) = elim (Bool-cases (p x)) [
    | inl e ↦ rw e (first_where-delete_where p xs)
    | inr e ↦ rw (e, e) (first_where-delete_where p xs)
  ]

  pub first_where-delete_where_other :
      (q p : A → Bool) (xs : List A)
      → ((x : A) → p x ≡ true → q x ≡ false)
      → first_where q (delete_where p xs) ≡ first_where q xs
  unfolding first_where delete_where keep_if
  first_where-delete_where_other q p [] out = refl
  first_where-delete_where_other q p (x ∷ xs) out = elim (Bool-cases (p x)) [
    | inl e ↦ rw (e, out x e) (first_where-delete_where_other q p xs out)
    | inr e ↦ rw (e, first_where-delete_where_other q p xs out)
  ]

  pub first_where-append :
      (p : A → Bool) (xs : List A) (x : A)
      → first_where p xs ≡ none
      → p x ≡ true
      → first_where p (xs ++ x ∷ []) ≡ some x
  unfolding first_where
  first_where-append p [] x none_there hit = rw hit
  first_where-append p (y ∷ ys) x none_there hit = elim (Bool-cases (p y)) [
    | inl e ↦ absurd (ground arith)
    | inr e ↦ rw e (first_where-append p ys x (rw e at none_there) hit)
  ]

  -- The row that was put there by its key is found by it.
  pub first_where-put_by :
      (key : A → Text) (x : A) (xs : List A)
      → first_where (λ y. text_eq (key y) (key x)) (put_by key x xs) ≡ some x
  unfolding first_where put_by
  first_where-put_by key x [] = rw (text_eq_refl (key x))
  first_where-put_by key x (y ∷ ys) = elim (Bool-cases (text_eq (key y) (key x))) [
    | inl e ↦ rw (e, text_eq_refl (key x))
    | inr e ↦ rw (e, e) (first_where-put_by key x ys)
  ]

  -- A search for a row that a write by key has changed, where the write keeps what is searched for.
  pub first_where-update_by :
      (key : A → ℕ) (p : A → Bool) (f : A → A) (xs : List A) {x : A}
      → ((y : A) → p (f y) ≡ p y)
      → first_where p xs ≡ some x
      → first_where p (update_by key (key x) f xs) ≡ some (f x)
  unfolding first_where update_by
  first_where-update_by key p f [] same e = absurd (cc)
  first_where-update_by key p f (y ∷ ys) {x} same e = elim (Bool-cases (p y)) [
    | inl hit ↦ let y_is_x : y ≡ x = ground arith in rw (← y_is_x, eq_refl (key y), same y, hit)
    | inr miss ↦
        let there : first_where p ys ≡ some x = rw miss at e in
        elim (Bool-cases (key y == key x)) [
          | inl k ↦ rw (k, same y, miss) (first_where-update_by key p f ys same there)
          | inr k ↦ rw (k, miss) (first_where-update_by key p f ys same there)
        ]
  ]

  -- The same for a write to the rows that pass a test, the row that is found among them.
  pub first_where-update_where_found :
      (p q : A → Bool) (f : A → A) (xs : List A) {x : A}
      → ((y : A) → p (f y) ≡ p y)
      → first_where p xs ≡ some x
      → q x ≡ true
      → first_where p (update_where q f xs) ≡ some (f x)
  unfolding first_where update_where
  first_where-update_where_found p q f [] same e hit = absurd (cc)
  first_where-update_where_found p q f (y ∷ ys) {x} same e hit = elim (Bool-cases (p y)) [
    | inl here ↦
        let y_is_x : y ≡ x = ground arith in
        let hit' : q y ≡ true = rw y_is_x hit in rw (hit', same y, here) (rw y_is_x)
    | inr miss ↦
        let there : first_where p ys ≡ some x = rw miss at e in
        elim (Bool-cases (q y)) [
          | inl k ↦ rw (k, same y, miss) (first_where-update_where_found p q f ys same there hit)
          | inr k ↦ rw (k, miss) (first_where-update_where_found p q f ys same there hit)
        ]
  ]

  -- A search by key, where other keys are deleted.
  pub find_by-delete_where_other :
      (key : A → ℕ) (j k : ℕ) (xs : List A)
      → (j == k) ≡ false
      → find_by key j (delete_where (λ x. key x == k) xs) ≡ find_by key j xs
  unfolding find_by delete_where keep_if
  find_by-delete_where_other key j k [] ne = refl
  find_by-delete_where_other key j k (x ∷ xs) ne = elim (Bool-cases (key x == k)) [
    | inl e ↦
        let apart : (key x == j) ≡ false = ground arith in
        rw (e, apart) (find_by-delete_where_other key j k xs ne)
    | inr e ↦ rw (e, find_by-delete_where_other key j k xs ne)
  ]
