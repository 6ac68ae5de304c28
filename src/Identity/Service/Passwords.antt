-- ===== src/Identity/Service/Passwords.antt =====
-- `ForgotPassword`, `ResetPassword`, `ChangePassword` and what they rest on.
use adlts_core_engine.Prelude.{
  Bool, true, not, List, [], ◌∷◌, ◌++◌, ◌+◌, Text, codes, text_eq, if◌then◌else◌,
}
use adlts_core_engine.Program.{pure, guard, ◌>>=◌, ◌>>◌, from_option, or_error, present, ask}
use adlts_core_engine.Security.Guards.{AuthContext}
use adlts_core_engine.Identity.World.{
  Env, M, password_reset, password_too_short, invalid_reset_token, same_password,
  unknown_entity_type, not_found,
}
use adlts_core_engine.Identity.Requests.{ChangePasswordRequest, is_short}
use adlts_core_engine.Identity.Repository.Rows.{
  candidates, experts, admins, super_admins, institutes, transport_authorities, is_some,
}
use adlts_core_engine.Identity.Repository.Lookups.{
  candidate_by_email, expert_by_email, admin_by_email, super_admin_by_email, institute_by_email,
  authority_by_email, get_password_hash,
}
use adlts_core_engine.Identity.Repository.Writes.{
  time_now, upsert_password_reset_token, consume_password_reset_token, update_password,
}
use adlts_core_engine.Identity.Service.Tokens.{
  reset_ttl, entity_table, first_success, hash_password, send_mail,
}
use adlts_core_engine.Identity.Service.Login.{check_password}

-- The loop of `emailRegistered`: the first error ends it.
unfoldable pub first_registered : List (M Bool) → M Bool
first_registered [] = pure Bool.false
first_registered (m ∷ ms) =
    m >>= λ registered. if registered then pure true else first_registered ms

module _ (env : Env) where
  abbrev pub registered_in : Text → List (M Bool)
  registered_in email =
      (candidate_by_email env email >>= λ c. pure (is_some c))
      ∷ (expert_by_email env email >>= λ e. pure (is_some e))
      ∷ (admin_by_email env email >>= λ a. pure (is_some a))
      ∷ (super_admin_by_email env email >>= λ s. pure (is_some s))
      ∷ (institute_by_email env email >>= λ o. pure (is_some o))
      ∷ (authority_by_email env email >>= λ o. pure (is_some o))
      ∷ []

  unfoldable pub email_registered : Text → M Bool
  unfolding first_registered
  email_registered email = first_registered (registered_in email)

  abbrev pub reset_link : Text → Text
  reset_link token = env.base_url ++ (codes "/reset-password?token=" ++ token)

  unfoldable pub forgot_password : Text → M (Unit {0})
  forgot_password email = do
    exists ← email_registered email
    if not exists then pure tt else do
      token ← ask (λ n. env.uuid_string (env.host.new_uuid n))
      now ← time_now env
      upsert_password_reset_token env email token (now + reset_ttl)
      send_mail env (password_reset email (reset_link token))

  abbrev pub finders : Text → Text → List (M (Unit {0}))
  finders email hash =
      (present not_found (candidate_by_email env email) >>= λ c.
      update_password env candidates c.person.id hash)
      ∷ (present not_found (expert_by_email env email) >>= λ e.
          update_password env experts e.person.id hash)
      ∷ (present not_found (admin_by_email env email) >>= λ a.
          update_password env admins a.person.id hash)
      ∷ (present not_found (super_admin_by_email env email) >>= λ s.
          update_password env super_admins s.id hash)
      ∷ (present not_found (institute_by_email env email) >>= λ o.
          update_password env institutes o.id hash)
      ∷ (present not_found (authority_by_email env email) >>= λ o.
          update_password env transport_authorities o.id hash)
      ∷ []

  unfoldable pub update_password_by_email : Text → Text → M (Unit {0})
  unfolding first_success
  update_password_by_email email hash = first_success not_found (finders email hash)

  unfoldable pub reset_password : Text → Text → M (Unit {0})
  reset_password token new_password = do
    guard (not (is_short new_password)) password_too_short
    email ← or_error invalid_reset_token (consume_password_reset_token env token)
    hash ← hash_password env new_password
    update_password_by_email email hash

  unfoldable pub change_password : AuthContext → ChangePasswordRequest → M (Unit {0})
  change_password auth req = do
    guard (not (is_short req.new_password)) password_too_short
    guard (not (text_eq req.current_password req.new_password)) same_password
    table ← from_option (entity_table auth.entity_type) unknown_entity_type
    current_hash ← get_password_hash env table auth.subject_id
    check_password env current_hash req.current_password
    hash ← hash_password env req.new_password
    update_password env table auth.subject_id hash
