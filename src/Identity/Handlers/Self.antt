-- ===== src/Identity/Handlers/Self.antt =====
-- What candidates can change of their own account.
use adlts_core_engine.Prelude.{
  ℕ, ◌≡◌, ◌≢◌, refl, ap, ◌∙◌, List, [], ◌∷◌, Option, none, some, Text, update_by,
  find_by-update_by_self, find_by-update_by_ne,
}
use adlts_core_engine.Program.{State, Outcome, ok, err}
use adlts_core_engine.Program.Triple.{Ends, Triple, pure_t, exec_t}
use adlts_core_engine.Security.Guards.{AuthContext}
use adlts_core_engine.Identity.Accounts.{UserStatus, Candidate}
use adlts_core_engine.Identity.World.{Tables, Error, Env, database}
use adlts_core_engine.Identity.Repository.Profiles.{
  PersonField, set_name_field, set_phone, set_photo_url, set_first_name, set_middle_name,
  set_last_name, assign_candidate, assign_fields, fields_written, stamp_candidate, candidate_row,
  update_candidate_fields,
}
use adlts_core_engine.Identity.Handlers.{
  UpdatePersonRequest, candidate_self_fields, written, update_failed,
}
use adlts_core_engine.Identity.Handlers.Persons.{update_candidate_me}

-- What stays of an account: by what it is found and let in, and what was verified.
abbrev pub account : Candidate → ℕ × Text × Text × UserStatus × Text × ℕ
account c = (
  c.person.id, c.person.email, c.person.password_hash, c.person.status, c.fayida_id, c.birth_date,
)

abbrev pub SameAccount : Candidate → Candidate → Type 0
SameAccount c c' = account c' ≡ account c

assign_candidate-SameAccount :
    (f : PersonField) (c : Candidate) → SameAccount c (assign_candidate f c)
assign_candidate-SameAccount (set_name_field (set_first_name v)) c = refl
assign_candidate-SameAccount (set_name_field (set_middle_name v)) c = refl
assign_candidate-SameAccount (set_name_field (set_last_name v)) c = refl
assign_candidate-SameAccount (set_phone v) c = refl
assign_candidate-SameAccount (set_photo_url v) c = refl

assign_fields-SameAccount :
    (fs : List PersonField) (c : Candidate) → SameAccount c (assign_fields assign_candidate fs c)
unfolding assign_fields
assign_fields-SameAccount [] c = refl
assign_fields-SameAccount (f ∷ fs) c =
    assign_fields-SameAccount fs (assign_candidate f c) ∙ assign_candidate-SameAccount f c

-- The row as the statement leaves it.
abbrev updated : List PersonField → ℕ → ℕ → Candidate → Candidate
updated fs by now = fields_written assign_candidate stamp_candidate fs by now

updated-SameAccount :
    (fs : List PersonField) (by now : ℕ) (c : Candidate) → SameAccount c (updated fs by now c)
updated-SameAccount fs by now c = assign_fields-SameAccount fs c

-- Of the tables, at most the row of an id has changed, and there the account is the same.
pub record OnlyProfile (id : ℕ) (t t' : Tables) : Type 0 where
  pub own :
      (c : Candidate)
      → candidate_row id t ≡ some c
      → (c' : Candidate) × (candidate_row id t' ≡ some c') × SameAccount c c'
  pub others :
      (j : ℕ) (c : Candidate) → j ≢ id → candidate_row j t ≡ some c → candidate_row j t' ≡ some c
  pub rest : t' ≡ record t { candidates = t'.candidates }

unchanged : (id : ℕ) (t : Tables) → OnlyProfile id t t
unchanged id t = record {
  own = λ c found. (c, found, refl);
  others = λ j c ne found. found;
  rest = refl;
}

changed :
    (id now : ℕ) (fs : List PersonField) (t : Tables)
    → OnlyProfile id t (record t {
      candidates = update_by (λ (c : Candidate). c.person.id) id (updated fs id now) t.candidates;
    })
changed id now fs t = record {
  own = λ c found. (
    updated fs id now c,
    find_by-update_by_self (λ (x : Candidate). x.person.id) id (updated fs id now) t.candidates
        (λ x.
          ap (λ (a : ℕ × Text × Text × UserStatus × Text × ℕ). a.0)
            (updated-SameAccount fs id now x))
        found,
    updated-SameAccount fs id now c,
  );
  others = λ j c ne found.
      find_by-update_by_ne (λ (x : Candidate). x.person.id) j id (updated fs id now) t.candidates
        (λ x.
          ap (λ (a : ℕ × Text × Text × UserStatus × Text × ℕ). a.0)
            (updated-SameAccount fs id now x))
        ne found;
  rest = refl;
}

module _ (env : Env) (id : ℕ) (t0 : Tables) where
  update_t :
      (fs : List PersonField)
      → Triple
          (λ _. OnlyProfile id t0)
          (λ t. t ≡ t0)
          (update_candidate_fields env id fs id)
          (λ _. OnlyProfile id t0)
  unfolding update_candidate_fields
  update_t [] = pure_t tt (λ t e. rw e (unchanged id t0))
  update_t (f ∷ fs) =
      exec_t env.host database (λ t e. rw e (unchanged id t0)) _
        (λ now t e. rw e (changed id now (f ∷ fs) t0))

left_by :
    (id : ℕ) (t : Tables) (r : Outcome Error (Unit {0}) × State Tables)
    → Ends (λ _. OnlyProfile id t) (λ _. OnlyProfile id t) r
    → OnlyProfile id t (written update_failed r).1.tables
left_by id t (ok u, w) h = h
left_by id t (err e, w) h = h

-- Whatever body a candidate sends to update the own profile, and whatever fails on the way: the rows
-- of all other candidates and every other table are as they were, and the candidate's row has the
-- id, the email, the password, the status, the national id and the birth date that it had.
pub update_candidate_me-OnlyProfile :
    (env : Env) (auth : AuthContext) (body : Option UpdatePersonRequest) (w : State Tables)
    → OnlyProfile auth.subject_id w.tables (update_candidate_me env auth body w).1.tables
unfolding update_candidate_me
update_candidate_me-OnlyProfile env auth none w = unchanged auth.subject_id w.tables
update_candidate_me-OnlyProfile env auth (some req) w =
    left_by auth.subject_id w.tables
      (update_candidate_fields env auth.subject_id (candidate_self_fields req) auth.subject_id w)
      ((update_t env auth.subject_id w.tables (candidate_self_fields req)).apply w refl)
