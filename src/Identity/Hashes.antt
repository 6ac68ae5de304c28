-- ===== src/Identity/Hashes.antt =====
-- The password hashes of the accounts of each kind, and what it is for one to be replaced, apart from
-- how the statements of internal/identity/repository.go find the tables.
use adlts_core_engine.Prelude.{
  arith, ℕ, ◌≡◌, ◌≢◌, refl, inl, inr, ◌⊎◌, List, [], ◌∷◌, none, some, Text, text_eq_sound, find_by,
  update_by, ◌==◌, ==_iff, Bool-cases, Option-cases,
}
use adlts_core_engine.Booking.Types.{
  EntityType, candidate, expert, admin, super_admin, institute, transport_authority,
}
use adlts_core_engine.Security.Guards.{entity_name}
use adlts_core_engine.Identity.Accounts.{BasePerson, Candidate, Expert, Admin, SuperAdmin, BaseOrg}
use adlts_core_engine.Identity.World.{Tables}
use adlts_core_engine.Identity.Repository.Rows.{
  Table, candidates, experts, admins, super_admins, institutes, transport_authorities,
  with_password,
}
use adlts_core_engine.Identity.Repository.Lookups.{hash_of}
use adlts_core_engine.Identity.Service.Tokens.{entity_table}

module _ {A : Type 0} (key : A → ℕ) (id : ℕ) where
  -- The row of the id has a hash.
  abbrev Hashed : (A → Text) → Text → List A → Type 0
  Hashed hash_in hash xs = (x : A) × (find_by key id xs ≡ some x) × (hash_in x ≡ hash)

  -- Row by row: what has the id is rewritten, what has another is the same.
  abbrev Rewritten : (A → A) → List A → List A → Type 0
  Rewritten f [] [] = Unit
  Rewritten f (x ∷ xs) (y ∷ ys) =
      (((key x ≡ id) × (y ≡ f x)) ⊎ ((key x ≢ id) × (y ≡ x))) × Rewritten f xs ys
  Rewritten f _ _ = ⊥

  Rewritten-update_by : (f : A → A) (xs : List A) → Rewritten f xs (update_by key id f xs)
  unfolding update_by
  Rewritten-update_by f [] = tt
  Rewritten-update_by f (x ∷ xs) = elim (Bool-cases (key x == id)) [
    | inl e ↦ rw e (inl ((==_iff (key x) id).0 e, refl), Rewritten-update_by f xs)
    | inr e ↦ rw e (inr (ground (arith, e), refl), Rewritten-update_by f xs)
  ]

  Hashed-found :
      (hash_in : A → Text) (hash : Text) (xs : List A)
      → elim (find_by key id xs) [ none ↦ none | some x ↦ some (hash_in x) ] ≡ some hash
      → Hashed hash_in hash xs
  Hashed-found hash_in hash xs e = elim (Option-cases (find_by key id xs)) [
    | inl n ↦ absurd (ground (arith, e, n))
    | inr (x, found) ↦ (x, found, ground (arith, e, found))
  ]

-- The hash in the account of an id, of each kind.
abbrev pub HasHash : EntityType → ℕ → Text → Tables → Type 0
HasHash candidate id hash t =
    Hashed (λ (c : Candidate). c.person.id) id (λ c. c.person.password_hash) hash t.candidates
HasHash expert id hash t =
    Hashed (λ (e : Expert). e.person.id) id (λ e. e.person.password_hash) hash t.experts
HasHash admin id hash t =
    Hashed (λ (a : Admin). a.person.id) id (λ a. a.person.password_hash) hash t.admins
HasHash super_admin id hash t =
    Hashed (λ (s : SuperAdmin). s.id) id (λ s. s.password_hash) hash t.super_admins
HasHash institute id hash t =
    Hashed (λ (o : BaseOrg). o.id) id (λ o. o.password_hash) hash t.institutes
HasHash transport_authority id hash t =
    Hashed (λ (o : BaseOrg). o.id) id (λ o. o.password_hash) hash t.transport_authorities

abbrev rehashed : Text → ℕ → BasePerson → BasePerson
rehashed hash at p = record p { password_hash = hash; audit = record (p.audit) { updated_at = at } }

abbrev rehashed_org : Text → ℕ → BaseOrg → BaseOrg
rehashed_org hash at o = record o {
  password_hash = hash;
  audit = record (o.audit) { updated_at = at };
}

-- The account of an id and a kind has another hash since a time; no other account, and no other
-- table, is changed.
abbrev pub Rehashed : EntityType → ℕ → Text → ℕ → Tables → Tables → Type 0
Rehashed candidate id hash at t t' =
    Rewritten (λ (c : Candidate). c.person.id) id
      (λ c. record c { person = rehashed hash at c.person }) t.candidates t'.candidates
    × (t' ≡ record t { candidates = t'.candidates })
Rehashed expert id hash at t t' =
    Rewritten (λ (e : Expert). e.person.id) id
      (λ e. record e { person = rehashed hash at e.person }) t.experts t'.experts
    × (t' ≡ record t { experts = t'.experts })
Rehashed admin id hash at t t' =
    Rewritten (λ (a : Admin). a.person.id) id (λ a. record a { person = rehashed hash at a.person })
      t.admins t'.admins
    × (t' ≡ record t { admins = t'.admins })
Rehashed super_admin id hash at t t' =
    Rewritten (λ (s : SuperAdmin). s.id) id
      (λ s. record s { password_hash = hash; audit = record (s.audit) { updated_at = at } })
      t.super_admins t'.super_admins
    × (t' ≡ record t { super_admins = t'.super_admins })
Rehashed institute id hash at t t' =
    Rewritten (λ (o : BaseOrg). o.id) id (rehashed_org hash at) t.institutes t'.institutes
    × (t' ≡ record t { institutes = t'.institutes })
Rehashed transport_authority id hash at t t' =
    Rewritten (λ (o : BaseOrg). o.id) id (rehashed_org hash at) t.transport_authorities
      t'.transport_authorities
    × (t' ≡ record t { transport_authorities = t'.transport_authorities })

-- The kind of account that a table holds.
abbrev pub kind_of : Table → EntityType
kind_of candidates = candidate
kind_of experts = expert
kind_of admins = admin
kind_of super_admins = super_admin
kind_of institutes = institute
kind_of transport_authorities = transport_authority

pub entity_table_sound :
    (et : Text) (table : Table) → entity_table et ≡ some table → et ≡ entity_name (kind_of table)
unfolding entity_table
entity_table_sound et table e = ground (
  arith,
  e,
  text_eq_sound et (entity_name candidate),
  text_eq_sound et (entity_name expert),
  text_eq_sound et (entity_name admin),
  text_eq_sound et (entity_name super_admin),
  text_eq_sound et (entity_name institute),
  text_eq_sound et (entity_name transport_authority),
)

pub hash_of-HasHash :
    (table : Table) (id : ℕ) (t : Tables) (hash : Text)
    → hash_of table id t ≡ some hash
    → HasHash (kind_of table) id hash t
unfolding hash_of
hash_of-HasHash candidates id t hash e = Hashed-found _ id _ hash t.candidates e
hash_of-HasHash experts id t hash e = Hashed-found _ id _ hash t.experts e
hash_of-HasHash admins id t hash e = Hashed-found _ id _ hash t.admins e
hash_of-HasHash super_admins id t hash e = Hashed-found _ id _ hash t.super_admins e
hash_of-HasHash institutes id t hash e = Hashed-found _ id _ hash t.institutes e
hash_of-HasHash transport_authorities id t hash e =
    Hashed-found _ id _ hash t.transport_authorities e

pub with_password-Rehashed :
    (table : Table) (id : ℕ) (hash : Text) (at : ℕ) (t : Tables)
    → Rehashed (kind_of table) id hash at t (with_password table id hash at t)
unfolding with_password
with_password-Rehashed candidates id hash at t = (Rewritten-update_by _ id _ t.candidates, refl)
with_password-Rehashed experts id hash at t = (Rewritten-update_by _ id _ t.experts, refl)
with_password-Rehashed admins id hash at t = (Rewritten-update_by _ id _ t.admins, refl)
with_password-Rehashed super_admins id hash at t = (Rewritten-update_by _ id _ t.super_admins, refl)
with_password-Rehashed institutes id hash at t = (Rewritten-update_by _ id _ t.institutes, refl)
with_password-Rehashed transport_authorities id hash at t =
    (Rewritten-update_by _ id _ t.transport_authorities, refl)
