-- ===== src/Identity/Reliable.antt =====
-- What each query gives where no query fails: the equations by which the operations are run.
use adlts_core_engine.Prelude.{ℕ, suc, ◌≡◌, refl, false, some, Text, first_where, update_by}
use adlts_core_engine.Program.{State, ok, ticked, fetch, exec, exec_unless}
use adlts_core_engine.Identity.Accounts.{UserStatus, Candidate}
use adlts_core_engine.Identity.World.{Tables, Env}
use adlts_core_engine.Identity.Repository.Rows.{candidate_with, candidate_status}
use adlts_core_engine.Identity.Repository.Lookups.{
  candidate_by_email, invitation_with, invitation_by_token,
}
use adlts_core_engine.Identity.Repository.Writes.{update_candidate_status}
use adlts_core_engine.Identity.Requests.{LoginResponse}
use adlts_core_engine.Identity.Service.Tokens.{issue_token}
use adlts_core_engine.Identity.Reads.{Issued}
use adlts_core_engine.Security.Guards.{
  Claims, Holder, claims_of, token_access, token_refresh, access_ttl, refresh_ttl,
}

-- Every claim can be signed.
abbrev pub Signs : Env → Type 0
Signs env = (c : Claims) → (token : Text) × (env.jwt.signed_string c ≡ some token)

-- Tokens are issued in two ticks, and no table changes.
pub issue_token-done :
    (env : Env)
    → Signs env
    → (h : Holder) (w : State Tables)
    → (r : LoginResponse) × Issued env h r
      × (issue_token env h w ≡ (ok r, record w { tick = suc (suc w.tick) }))
unfolding issue_token
issue_token-done env signs h w =
    let (a, sa) = signs (claims_of h token_access access_ttl (env.host.now w.tick)) in
    let (b, sb) = signs (claims_of h token_refresh refresh_ttl (env.host.now (suc w.tick))) in
    (
      record { access_token = a; refresh_token = b; entity_type = h.entity_type },
      record {
        access_at = env.host.now w.tick;
        refresh_at = env.host.now (suc w.tick);
        access_signed = sa;
        refresh_signed = sb;
        type_is = refl;
      },
      rw (sa, sb),
    )

module _ (env : Env) (reliable : (n : ℕ) → env.host.query_fails n ≡ false) (w : State Tables) where
  pub candidate_by_email-done :
      (email : Text)
      → candidate_by_email env email w
        ≡ (ok (first_where (candidate_with email) w.tables.candidates), ticked w)
  unfolding candidate_by_email fetch
  candidate_by_email-done email = simp reliable

  pub invitation_by_token-done :
      (token : Text)
      → invitation_by_token env token w
        ≡ (ok (first_where (invitation_with token) w.tables.invitations), ticked w)
  unfolding invitation_by_token fetch
  invitation_by_token-done token = simp reliable

  pub update_candidate_status-done :
      (id : ℕ) (status : UserStatus) (by : ℕ)
      → update_candidate_status env id status by w ≡ (
        ok tt,
        record {
          tables = record (w.tables) {
            candidates =
                update_by
                  (λ (c : Candidate). c.person.id)
                  id
                  (candidate_status status (env.host.now w.tick) by)
                  w.tables.candidates;
          };
          tick = suc w.tick;
        },
      )
  unfolding update_candidate_status exec exec_unless
  update_candidate_status-done id status by = simp reliable
