-- ===== src/Prelude/Lists.antt =====
-- Lists measured by native numbers, and tables: lists of rows found, changed and counted by key.
use Prim.Native.Nat.{ℕ, zero, suc, ◌+◌, ◌≤◌}
use mathlib.Core.Path.{◌≡◌}
use mathlib.Core.Bool.{Bool}
use mathlib.Core.List.{List, [], ◌∷◌, ◌++◌}
use mathlib.Core.Option.{Option, none, some}
use native.Mathlib.Omega.{arith}
use adlts_core_engine.Prelude.Tests.{◌==◌, if◌then◌else◌}

module _ {ℓ} {A : Type ℓ} where
  abbrev pub length : List A → ℕ
  length [] = 0
  length (x ∷ xs) = suc (length xs)

  abbrev pub take : ℕ → List A → List A
  take zero xs = []
  take (suc n) [] = []
  take (suc n) (x ∷ xs) = x ∷ take n xs

  abbrev pub drop : ℕ → List A → List A
  drop zero xs = xs
  drop (suc n) [] = []
  drop (suc n) (x ∷ xs) = drop n xs

  pub length-append : (xs ys : List A) → length (xs ++ ys) ≡ length xs + length ys
  length-append [] ys = omega arith
  length-append (x ∷ xs) ys = omega (arith, length-append xs ys)

  pub length-take-le : (n : ℕ) (xs : List A) → length (take n xs) ≤ n
  length-take-le zero xs = omega arith
  length-take-le (suc n) [] = omega arith
  length-take-le (suc n) (x ∷ xs) = omega (arith, length-take-le n xs)

  -- The rows that pass a test.
  unfoldable pub keep_if : (A → Bool) → List A → List A
  keep_if p [] = []
  keep_if p (x ∷ xs) = let rest = keep_if p xs in if p x then x ∷ rest else rest

  -- How many rows pass a test.
  unfoldable pub count_if : (A → Bool) → List A → ℕ
  count_if p [] = 0
  count_if p (x ∷ xs) = (if p x then 1 else 0) + count_if p xs

  -- `SELECT … WHERE test LIMIT 1`, in the order of the rows.
  unfoldable pub first_where : (A → Bool) → List A → Option A
  first_where p [] = none
  first_where p (x ∷ xs) = let rest = first_where p xs in if p x then some x else rest

  -- What holds of every row.
  abbrev pub All {κ} : (A → Type κ) → List A → Type κ
  All P [] = Unit
  All P (x ∷ xs) = P x × All P xs

-- Rows with a numeric key, as the tables of the database.
module _ {ℓ} {A : Type ℓ} (key : A → ℕ) where
  -- `SELECT … WHERE key = k`, which meets at most one row.
  unfoldable pub find_by : ℕ → List A → Option A
  find_by k [] = none
  find_by k (x ∷ xs) = if key x == k then some x else find_by k xs

  -- `UPDATE … WHERE key = k`: a key that is not there changes nothing.
  unfoldable pub update_by : ℕ → (A → A) → List A → List A
  update_by k f [] = []
  update_by k f (x ∷ xs) = (if key x == k then f x else x) ∷ update_by k f xs
