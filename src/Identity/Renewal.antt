-- ===== src/Identity/Renewal.antt =====
-- Tokens that were issued, when they are brought back to be renewed.
use adlts_core_engine.Prelude.{
  suc, ◌+◌, ◌-◌, ◌≤◌, ◌<◌, ◌≡◌, refl, true, false, is_empty, Bool-cases, inl, inr, trim_space, ◌==◌,
}
use adlts_core_engine.Booking.Types.{
  EntityType, candidate, expert, admin, super_admin, institute, transport_authority,
}
use adlts_core_engine.Program.{State, ok, err, ticked}
use adlts_core_engine.Security.Guards.{
  Holder, claims_of, entity_name, token_access, token_refresh, access_ttl, refresh_ttl,
}
use adlts_core_engine.Security.Refusals.{Verifies, parse-signed}
use adlts_core_engine.Identity.World.{Tables, Env, invalid_refresh_token}
use adlts_core_engine.Identity.Requests.{LoginResponse}
use adlts_core_engine.Identity.Repository.Rows.{is_some}
use adlts_core_engine.Identity.Service.Tokens.{entity_table}
use adlts_core_engine.Identity.Service.Login.{refresh_token}
use adlts_core_engine.Identity.Reads.{Issued}
use adlts_core_engine.Identity.Reliable.{Signs, issue_token-done}

-- A holder whose claims a renewal accepts: known by id, email and one of the six types.
pub record IsKnown (h : Holder) : Type 0 where
  pub has_id : (h.id == 0) ≡ false
  pub has_email : is_empty h.email ≡ false
  pub role : EntityType
  pub role_is : h.entity_type ≡ entity_name role

entity_table-name : (role : EntityType) → is_some (entity_table (entity_name role)) ≡ true
unfolding entity_table
entity_table-name candidate = refl
entity_table-name expert = refl
entity_table-name admin = refl
entity_table-name super_admin = refl
entity_table-name institute = refl
entity_table-name transport_authority = refl

entity_name-full : (role : EntityType) → is_empty (entity_name role) ≡ false
entity_name-full candidate = refl
entity_name-full expert = refl
entity_name-full admin = refl
entity_name-full super_admin = refl
entity_name-full institute = refl
entity_name-full transport_authority = refl

type-full : (h : Holder) → IsKnown h → is_empty h.entity_type ≡ false
type-full h known = rw known.role_is (entity_name-full known.role)

type-table : (h : Holder) → IsKnown h → is_some (entity_table h.entity_type) ≡ true
type-table h known = rw known.role_is (entity_table-name known.role)

module _ (env : Env) (verifies : Verifies env.jwt) (signs : Signs env) (h : Holder)
    (known : IsKnown h) (r : LoginResponse) (issued : Issued env h r) (w : State Tables) where
  -- Where every claim can be signed and a signed token verifies from a minute before its signature to
  -- its expiry, the refresh token that was issued for a holder who has an id, an email and one of the
  -- six entity types is good for a new pair for the same holder until it expires, and no table
  -- changes. Nothing is read on the way: neither the status of the account nor whether it is still
  -- there is looked at.
  pub refresh_token-renews :
      is_empty (trim_space r.refresh_token) ≡ false
      → issued.refresh_at - 60 ≤ env.host.now w.tick
      → env.host.now w.tick < issued.refresh_at + refresh_ttl
      → (r' : LoginResponse) × Issued env h r'
        × (refresh_token env r.refresh_token w
            ≡ (ok r', record w { tick = suc (suc (suc w.tick)) }))
  unfolding refresh_token claims_of
  refresh_token-renews full from until =
      let (r', issued', done) = issue_token-done env signs h (ticked w) in
      (
        r',
        issued',
        rw
            (
              full,
              parse-signed env.jwt verifies h token_refresh refresh_ttl issued.refresh_at
                  (env.host.now w.tick) r.refresh_token refl issued.refresh_signed from until,
              known.has_id,
              known.has_email,
              type-full h known,
              type-table h known,
            )
            done,
      )

  -- The access token of the same pair is refused while it is good for everything else.
  refresh_token-access :
      issued.access_at - 60 ≤ env.host.now w.tick
      → env.host.now w.tick < issued.access_at + access_ttl
      → (refresh_token env r.access_token w).0 ≡ err invalid_refresh_token
  unfolding refresh_token claims_of
  refresh_token-access from until = elim (Bool-cases (is_empty (trim_space r.access_token))) [
    | inl e ↦ rw e refl
    | inr e ↦
        rw
          (
            e,
            parse-signed env.jwt verifies h token_access access_ttl issued.access_at
                (env.host.now w.tick) r.access_token refl issued.access_signed from until,
          )
          refl
  ]
