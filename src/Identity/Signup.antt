-- ===== src/Identity/Signup.antt =====
-- What `RegisterCandidate` leaves behind.
use adlts_core_engine.Prelude.{
  arith, ℕ, ◌≡◌, ◌≢◌, ◌⊎◌, ◌&&◌, refl, sym, ◌∙◌, is_empty, byte_length, codes, Bool-cases,
  text_eq_sound, if◌then◌else◌, ◌≤◌, Bool, false, not, inl, inr, List, [], ◌∷◌, ◌++◌, none, Text,
  text_eq, Option-cases, some, first_where,
}
use adlts_core_engine.Program.{State, ok, ◌>>◌}
use adlts_core_engine.Program.Triple.{
  run_t, Triple, bind_t, weaken_t, weaken_pre_t, guard_t, lift_t, from_option_t, ask_t, answered_t,
  recover_t, assume_t, fetch_t, exec_unless_t,
}
use adlts_core_engine.Identity.Accounts.{UserStatus, Candidate}
use adlts_core_engine.Identity.World.{
  Tables, Env, database, email_taken, fayida_id_taken, hash_failed,
}
use adlts_core_engine.Identity.Requests.{
  RegisterCandidateRequest, normalize_candidate, validate, is_short,
}
use adlts_core_engine.Identity.Repository.Rows.{is_some, any, candidate_with, clashes_candidate}
use adlts_core_engine.Identity.Repository.Lookups.{candidate_by_email, candidate_by_fayida_id}
use adlts_core_engine.Identity.Repository.Writes.{create_candidate}
use adlts_core_engine.Identity.Codes.{Any, Bounded, Sent, send_otp_t}
use adlts_core_engine.Identity.Service.Tokens.{send_otp, hash_password}
use adlts_core_engine.Identity.Service.Registration.{new_candidate, register_candidate}

-- The account of a request, pending, with no photo and no address yet.
abbrev account : RegisterCandidateRequest → Text → ℕ → ℕ → Candidate
account req hash now id = record {
  person = record {
    id = id;
    first_name = req.first_name;
    middle_name = req.middle_name;
    last_name = req.last_name;
    email = req.email;
    password_hash = hash;
    status = UserStatus.pending_verification;
    audit = record { created_at = now; updated_at = now; created_by = 0; updated_by = 0 };
  };
  phone = req.phone;
  fayida_id = req.fayida_id;
  birth_date = req.birth_date;
  gender = req.gender;
  address = record { street = []; city = []; region = []; country = [] };
  photo_url = [];
}

-- A request that may be registered: nothing is missing, the password has eight bytes, and the gender
-- is one of the two that the code knows.
pub record Complete (r : RegisterCandidateRequest) : Type 0 where
  first_name_given : is_empty r.first_name ≡ false
  last_name_given : is_empty r.last_name ≡ false
  email_given : is_empty r.email ≡ false
  long_enough : 8 ≤ byte_length r.password
  fayida_id_given : is_empty r.fayida_id ≡ false
  born : r.birth_date ≢ 0
  gender_known : (r.gender ≡ codes "male") ⊎ (r.gender ≡ codes "female")

validate-Complete : (r : RegisterCandidateRequest) → validate r ≡ ok tt → Complete r
unfolding validate is_short
validate-Complete r e = record {
  first_name_given = ground (arith, e);
  last_name_given = ground (arith, e);
  email_given = ground (arith, e);
  long_enough = ground (arith, e);
  fayida_id_given = ground (arith, e);
  born = λ z. ground (arith, e, z);
  gender_known = elim (Bool-cases (text_eq r.gender (codes "male"))) [
    | inl m ↦ inl (text_eq_sound r.gender _ m)
    | inr m ↦ inr (text_eq_sound r.gender _ (ground (arith, e, m)))
  ];
}

module _ (env : Env) (draws : Bounded env) where
  none_there {ℓ} :
      {A : Type ℓ} (p : A → Bool) (xs : List A) → any p xs ≡ false → first_where p xs ≡ none
  none_there p xs e = elim (Option-cases (first_where p xs)) [
    | inl n ↦ n
    | inr (x, found) ↦ absurd (cc)
  ]

  module _ (request : RegisterCandidateRequest) (t0 : Tables) where
    -- The national id under its old spelling stands in where the new one is empty.
    abbrev normal : RegisterCandidateRequest
    normal = record request {
      fayida_id =
          if is_empty request.fayida_id && not (is_empty request.fayda_id)
          then request.fayda_id
          else request.fayida_id;
    }

    -- What a registration that succeeded has found and left.
    pub record Registered (t : Tables) : Type 0 where
      pub complete : Complete normal
      pub hash : Text
      pub hash_at : ℕ
      pub hashed : env.generate_from_password hash_at normal.password ≡ some hash
      pub now : ℕ
      pub id : ℕ
      pub email_free : first_where (candidate_with normal.email) t0.candidates ≡ none
      pub fayida_id_free :
          first_where (λ (c : Candidate). text_eq c.fayida_id normal.fayida_id) t0.candidates ≡ none
      pub sent :
          Sent env normal.email
            (record t0 { candidates = t0.candidates ++ account normal hash now id ∷ [] })
            t

    insert_t :
        (hash : Text) (now id : ℕ)
        → validate normal ≡ ok tt
        → (n : ℕ) × (some hash ≡ env.generate_from_password n normal.password)
        → Triple Any
            (λ t. t ≡ t0)
            (create_candidate env (new_candidate normal hash now id) >> send_otp env normal.email)
            (λ _. Registered)
    unfolding create_candidate
    insert_t hash now id valid made =
        bind_t
          (exec_unless_t env.host database (λ _ _. tt)
            {Q = λ _ t.
              (t
                ≡ record t0 { candidates = t0.candidates ++ new_candidate normal hash now id ∷ [] })
              × (clashes_candidate (new_candidate normal hash now id) t0 ≡ false)}
            (clashes_candidate (new_candidate normal hash now id))
            (λ _ t. record t { candidates = t.candidates ++ new_candidate normal hash now id ∷ [] })
            (λ _ t p free. rw (← p) (refl, free)))
          λ _.
            assume_t (λ t k. k.1)
              λ free.
                weaken_pre_t (λ t k. k.0)
                  (weaken_t (send_otp_t env draws normal.email _) λ _ t sent. record {
                    complete = validate-Complete normal valid;
                    hash = hash;
                    hash_at = made.0;
                    hashed = sym made.1;
                    now = now;
                    id = id;
                    email_free = none_there _ _ (ground arith);
                    fayida_id_free = none_there _ _ (ground arith);
                    sent = sent;
                  })

    candidate_by_email_keeps :
        (email : Text)
        → Triple (λ _ t. t ≡ t0) (λ t. t ≡ t0) (candidate_by_email env email) (λ _ t. t ≡ t0)
    unfolding candidate_by_email
    candidate_by_email_keeps email =
        weaken_t
          (fetch_t env.host database (λ _ same. same)
            (λ t. first_where (candidate_with email) t.candidates))
          (λ _ t k. k.0)

    candidate_by_fayida_id_keeps :
        (id : Text)
        → Triple (λ _ t. t ≡ t0) (λ t. t ≡ t0) (candidate_by_fayida_id env id) (λ _ t. t ≡ t0)
    unfolding candidate_by_fayida_id
    candidate_by_fayida_id_keeps id =
        weaken_t
          (fetch_t env.host database (λ _ same. same)
            (λ t. first_where (λ (c : Candidate). text_eq c.fayida_id id) t.candidates))
          (λ _ t k. k.0)

    register_candidate_t :
        Triple Any (λ t. t ≡ t0) (register_candidate env request) (λ _. Registered)
    unfolding register_candidate hash_password normalize_candidate
    register_candidate_t = bind_t (lift_t (validate normal) (λ _ _ _ _. tt)) λ _.
        assume_t (λ t k. k.1)
          λ valid.
            weaken_pre_t (λ t k. k.0)
              (bind_t
                (recover_t {J = λ _ t. t ≡ t0} none (λ e t same. same)
                  (candidate_by_email_keeps normal.email))
                λ existing. bind_t (guard_t (not (is_some existing)) email_taken (λ _ _ _. tt)) λ _.
                  bind_t
                    (weaken_pre_t (λ t k. k.0)
                      (recover_t {J = λ _ t. t ≡ t0} none (λ e t same. same)
                        (candidate_by_fayida_id_keeps normal.fayida_id)))
                    λ same. bind_t (guard_t (not (is_some same)) fayida_id_taken (λ _ _ _. tt)) λ _.
                      bind_t (answered_t (λ n. env.generate_from_password n normal.password))
                        λ hashed. bind_t (from_option_t hashed hash_failed (λ _ _ _. tt)) λ hash.
                          bind_t (ask_t env.host.now) λ now. bind_t (ask_t env.host.new_uuid) λ id.
                            assume_t (λ t k. (k.0.1.0, sym k.1 ∙ k.0.1.1))
                              λ made.
                                weaken_pre_t (λ t k. k.0.0.0) (insert_t hash now id valid made))

-- Where numbers drawn at random are below their bound, and whatever else fails on the way: a
-- registration that succeeds was of a request with first and last name, email, national id (the one
-- under the old spelling where the new one is empty), date of birth, one of the two genders and a
-- password of eight bytes or more; no candidate had its email or its national id; exactly one pending
-- account is added, with the request's data and a hash made of its password, and one code of six
-- decimal digits, not yet guessed at and due five minutes after it was made, is put in the place of
-- any that the email had. No other table is changed.
pub register_candidate-Registered :
    (env : Env)
    → (draws : Bounded env)
    → (req : RegisterCandidateRequest) (w : State Tables) {w' : State Tables}
    → register_candidate env req w ≡ (ok tt, w')
    → Registered env draws req w.tables w'.tables
register_candidate-Registered env draws req w e =
    run_t w (register_candidate_t env draws req w.tables) refl e
