-- ===== src/Identity/Repository/Writes.antt =====
-- The statements that write, and the two that spend a code or a token.
use adlts_core_engine.Prelude.{
  ℕ, ◌+◌, Bool, true, false, not, ◌&&◌, [], ◌∷◌, ◌++◌, Option, none, some, Text, text_eq, ◌==◌, ltb,
  if◌then◌else◌, first_where, update_by,
}
use adlts_core_engine.Program.{
  pure, fail, guard, ◌>>=◌, ◌>>◌, from_option, ignore, recover, exec, exec_unless, exec_returning,
  ask,
}
use adlts_core_engine.Identity.Accounts.{
  UserStatus, Candidate, Expert, Admin, SuperAdmin, BaseOrg, Invitation, OtpCode, ResetToken,
}
use adlts_core_engine.Identity.World.{
  Tables, Env, M, database, too_many_attempts, otp_expired, invalid_reset_token,
}
use adlts_core_engine.Identity.Repository.Rows.{
  Table, map_option, any, clashes_candidate, clashes_expert, clashes_admin, clashes_super_admin,
  clashes_org, clashes_invitation, candidate_status, with_password, put_by, update_where,
  delete_where, otp_of, reset_of, is_unused,
}

-- The guess that is about to be judged: the row as `RETURNING` shows it, after the count.
abbrev pub attempted : OtpCode → OtpCode
attempted o = record o { attempts = o.attempts + 1 }

abbrev pub counted : Text → Tables → Tables
counted email t = record t { otp_codes = update_where (otp_of email) attempted t.otp_codes }

abbrev pub counted_row : Text → Tables → Option OtpCode
counted_row email t = map_option attempted (first_where (otp_of email) t.otp_codes)

abbrev pub is_of_invitation : ℕ → Invitation → Bool
is_of_invitation id i = i.id == id

abbrev pub with_token : Text → ℕ → Invitation → Invitation
with_token token expires_at i = record i { token = token; expires_at = expires_at }

module _ (env : Env) where
  abbrev pub run : (ℕ → Tables → Tables) → M (Unit {0})
  run = exec env.host database

  abbrev pub run_unless : (Tables → Bool) → (ℕ → Tables → Tables) → M (Unit {0})
  run_unless = exec_unless env.host database

  -- `time.Now()`.
  abbrev pub time_now : M ℕ
  time_now = ask env.host.now

  unfoldable pub create_candidate : Candidate → M (Unit {0})
  create_candidate c =
      run_unless (clashes_candidate c) (λ _ t. record t { candidates = t.candidates ++ c ∷ [] })

  unfoldable pub update_candidate_status : ℕ → UserStatus → ℕ → M (Unit {0})
  update_candidate_status id status by = run (λ now t. record t {
    candidates =
        update_by (λ (c : Candidate). c.person.id) id (candidate_status status now by) t.candidates;
  })

  unfoldable pub create_expert : Expert → M (Unit {0})
  create_expert e =
      run_unless (clashes_expert e) (λ _ t. record t { experts = t.experts ++ e ∷ [] })

  unfoldable pub create_admin : Admin → M (Unit {0})
  create_admin a = run_unless (clashes_admin a) (λ _ t. record t { admins = t.admins ++ a ∷ [] })

  unfoldable pub create_super_admin : SuperAdmin → M (Unit {0})
  create_super_admin s =
      run_unless (clashes_super_admin s)
        (λ _ t. record t { super_admins = t.super_admins ++ s ∷ [] })

  unfoldable pub create_institute : BaseOrg → M (Unit {0})
  create_institute o =
      run_unless (λ t. clashes_org o t.institutes)
        (λ _ t. record t { institutes = t.institutes ++ o ∷ [] })

  unfoldable pub create_authority : BaseOrg → M (Unit {0})
  create_authority o =
      run_unless (λ t. clashes_org o t.transport_authorities)
        (λ _ t. record t { transport_authorities = t.transport_authorities ++ o ∷ [] })

  unfoldable pub create_invitation_row : Invitation → M (Unit {0})
  create_invitation_row i =
      run_unless (clashes_invitation i) (λ _ t. record t { invitations = t.invitations ++ i ∷ [] })

  -- The new token must be free in the table.
  unfoldable pub update_invitation_token : ℕ → Text → ℕ → M (Unit {0})
  update_invitation_token id token expires_at =
      run_unless
        (λ t.
          any (λ (i : Invitation). text_eq i.token token && not (is_of_invitation id i))
            t.invitations)
        (λ _ t. record t {
          invitations =
              update_where (λ i. is_of_invitation id i && is_unused i) (with_token token expires_at)
                t.invitations;
        })

  unfoldable pub mark_invitation_used : ℕ → M (Unit {0})
  mark_invitation_used id = run (λ now t. record t {
    invitations =
        update_where (is_of_invitation id) (λ (i : Invitation). record i { used_at = some now })
          t.invitations;
  })

  unfoldable pub cancel_invitation_row : ℕ → M (Unit {0})
  cancel_invitation_row id = run (λ _ t. record t {
    invitations = delete_where (λ i. is_of_invitation id i && is_unused i) t.invitations;
  })

  unfoldable pub upsert_otp : Text → Text → ℕ → M (Unit {0})
  unfolding put_by
  upsert_otp email code expires_at = run (λ now t. record t {
    otp_codes =
        put_by (λ (o : OtpCode). o.email)
          (record {
            email = email;
            code = code;
            expires_at = expires_at;
            attempts = 0;
            created_at = now;
          })
          t.otp_codes;
  })

  unfoldable pub delete_otp : Text → M (Unit {0})
  unfolding delete_where
  delete_otp email = run (λ _ t. record t { otp_codes = delete_where (otp_of email) t.otp_codes })

  -- The judgement on a counted guess.
  unfoldable pub judge_otp : Text → Text → OtpCode → M Bool
  unfolding delete_otp
  judge_otp email code o =
      if ltb 5 o.attempts
      then ignore (delete_otp email) >> fail too_many_attempts
      else time_now >>= λ now.
          if ltb o.expires_at now
          then ignore (delete_otp email) >> fail otp_expired
          else if text_eq o.code code
          then ignore (delete_otp email) >> pure true
          else pure false

  abbrev pub judge_found : Text → Text → Option OtpCode → M Bool
  judge_found email code none = pure false
  judge_found email code (some o) = judge_otp email code o

  -- `Repository.VerifyOTP`: each guess is counted, and a code that is spent, worn out or past its
  -- time is deleted. A failed count says no more than that there is no code.
  unfoldable pub verify_otp_row : Text → Text → M Bool
  unfolding judge_otp update_where
  verify_otp_row email code =
      recover none (exec_returning env.host database (counted_row email) (λ _. counted email))
      >>= judge_found email code

  unfoldable pub upsert_password_reset_token : Text → Text → ℕ → M (Unit {0})
  unfolding put_by
  upsert_password_reset_token email token expires_at =
      run_unless
        (λ t.
          any (λ (r : ResetToken). reset_of token r && not (text_eq r.email email))
            t.password_reset_tokens)
        (λ now t. record t {
          password_reset_tokens =
              put_by (λ (r : ResetToken). r.email)
                (record { email = email; token = token; expires_at = expires_at; created_at = now })
                t.password_reset_tokens;
        })

  abbrev pub spent : Text → Tables → Tables
  spent token t = record t {
    password_reset_tokens = delete_where (reset_of token) t.password_reset_tokens;
  }

  unfoldable pub consume_password_reset_token : Text → M Text
  unfolding delete_where
  consume_password_reset_token token = do
    found ←
        exec_returning env.host database (λ t. first_where (reset_of token) t.password_reset_tokens)
          (λ _. spent token)
    row ← from_option found invalid_reset_token
    now ← time_now
    guard (not (ltb row.expires_at now)) invalid_reset_token
    pure row.email

  unfoldable pub update_password : Table → ℕ → Text → M (Unit {0})
  unfolding with_password
  update_password table id hash = run (with_password table id hash)
