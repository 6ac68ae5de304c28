-- ===== src/Identity/Examples/Passwords.antt =====
-- Passwords that are reset and changed.
use adlts_core_engine.Identity.Repository.Lookups.{get_password_hash, candidate_by_email}
use adlts_core_engine.Identity.Service.Tokens.{entity_table, hash_password}
use adlts_core_engine.Identity.Repository.Writes.{update_password, consume_password_reset_token}
use adlts_core_engine.Prelude.{find_by, first_where, byte_length, ◌≡◌, refl, Text, codes}
use adlts_core_engine.Program.{exec, fetch, exec_returning, State, err}
use adlts_core_engine.Identity.Accounts.{UserStatus}
use adlts_core_engine.Identity.World.{Tables, invalid_reset_token}
use adlts_core_engine.Identity.Requests.{ChangePasswordRequest, is_short}
use adlts_core_engine.Identity.Service.Passwords.{
  update_password_by_email, reset_password, change_password,
}
use adlts_core_engine.Identity.Resets.{reset_password-once}
use adlts_core_engine.Identity.Changes.{Changed, change_password-Changed}
use adlts_core_engine.Identity.Examples.{calm, hashed, secret, world_of, as_admin}

abbrev active_world : State Tables
active_world = world_of UserStatus.active

abbrev new_secret : Text
new_secret = codes "newsecret"

reset_password-once_example :
    (reset_password calm
      (codes "R")
      secret
      (reset_password calm (codes "R") new_secret active_world).1).0
    ≡ err invalid_reset_token
unfolding reset_password is_short byte_length consume_password_reset_token exec_returning
    first_where hash_password update_password_by_email candidate_by_email fetch update_password exec
reset_password-once_example =
    reset_password-once calm (codes "R") new_secret secret active_world
      (reset_password calm (codes "R") new_secret active_world).1 refl refl refl

abbrev change : Text → ChangePasswordRequest
change new = record { current_password = secret; new_password = new }

change_password-Changed_example :
    Changed calm as_admin
      (change new_secret)
      active_world.tables
      (change_password calm as_admin (change new_secret) active_world).1.tables
unfolding change_password hashed is_short byte_length entity_table get_password_hash fetch find_by
    hash_password update_password exec
change_password-Changed_example =
    change_password-Changed calm as_admin (change new_secret) active_world refl
