-- ===== src/Identity/Handlers/Root.antt =====
-- What deletions of super administrators leave.
use adlts_core_engine.Prelude.{
  ℕ, ◌≡◌, refl, true, false, inl, inr, List, [], ◌∷◌, Option, none, some, Text, text_eq_refl, ◌==◌,
  ==_iff, Bool-cases,
}
use adlts_core_engine.Program.{State, ok, ticked, fetch, exec, exec_unless}
use adlts_core_engine.Security.Guards.{AuthContext}
use adlts_core_engine.Identity.Accounts.{SuperAdmin}
use adlts_core_engine.Identity.World.{Tables, Env}
use adlts_core_engine.Identity.Repository.Searches.{find_by-delete_where_other}
use adlts_core_engine.Identity.Repository.Profiles.{
  super_admin_row, super_admin_by_id, delete_super_admin_row,
}
use adlts_core_engine.Identity.Handlers.Organizations.{
  root_email, is_root, delete_unless_root, delete_super_admin,
}

-- Requests to delete, each with who asks and the id in the path, one after another.
pub run_deletions : Env → Text → List (AuthContext × Option ℕ) → State Tables → State Tables
run_deletions env configured [] w = w
run_deletions env configured ((auth, path) ∷ rs) w =
    run_deletions env configured rs (delete_super_admin env configured auth path w).1

module _ (env : Env) (reliable : (n : ℕ) → env.host.query_fails n ≡ false) (configured : Text)
    (s : SuperAdmin) (root : s.email ≡ root_email configured) where
  super_admin_by_id-done :
      (id : ℕ) (w : State Tables)
      → super_admin_by_id env id w ≡ (ok (super_admin_row id w.tables), ticked w)
  unfolding super_admin_by_id fetch
  super_admin_by_id-done id w = simp reliable

  abbrev Stands : Tables → Type 0
  Stands t = super_admin_row s.id t ≡ some s

  recognized : (t : Tables) → Stands t → is_root configured (ok (super_admin_row s.id t)) ≡ true
  recognized t there = rw (there, root, text_eq_refl (root_email configured)) refl

  -- The root is recognized, and the deletion of another leaves it.
  unless_root :
      (id : ℕ) (w : State Tables)
      → Stands w.tables
      → Stands (delete_unless_root env configured id (ok (super_admin_row id w.tables), w)).1.tables
  unfolding delete_super_admin_row exec exec_unless
  unless_root id w there = elim (Bool-cases (s.id == id)) [
    | inl e ↦
        let same : s.id ≡ id = (==_iff s.id id).0 e in rw (← same, recognized w.tables there) there
    | inr e ↦ elim (Bool-cases (is_root configured (ok (super_admin_row id w.tables)))) [
      | inl r ↦ rw r there
      | inr r ↦
          rw
            (
              r,
              reliable w.tick,
              find_by-delete_where_other (λ (x : SuperAdmin). x.id) s.id id w.tables.super_admins e,
            )
            there
    ]
  ]

  deletion-Stands :
      (auth : AuthContext) (path : Option ℕ) (w : State Tables)
      → Stands w.tables
      → Stands (delete_super_admin env configured auth path w).1.tables
  unfolding delete_super_admin
  deletion-Stands auth none w there = there
  deletion-Stands auth (some id) w there = elim (Bool-cases (id == auth.subject_id)) [
    | inl e ↦ rw e there
    | inr e ↦ rw (e, super_admin_by_id-done id w) (unless_root id (ticked w) there)
  ]

  -- Where no query fails, the super administrator of the configured email, or of the fallback where
  -- none is configured, keeps its row through any requests to delete super administrators, whoever
  -- makes them.
  pub run_deletions-root :
      (rs : List (AuthContext × Option ℕ)) (w : State Tables)
      → super_admin_row s.id w.tables ≡ some s
      → super_admin_row s.id (run_deletions env configured rs w).tables ≡ some s
  unfolding run_deletions
  run_deletions-root [] w there = there
  run_deletions-root ((auth, path) ∷ rs) w there =
      run_deletions-root rs (delete_super_admin env configured auth path w).1
        (deletion-Stands auth path w there)
