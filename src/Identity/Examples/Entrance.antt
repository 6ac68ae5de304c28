-- ===== src/Identity/Examples/Entrance.antt =====
-- Registration, codes, logins and renewals.
use adlts_core_engine.Identity.Repository.Lookups.{candidate_by_fayida_id, candidate_by_email}
use adlts_core_engine.Prelude.{
  is_space, trim_left, trim_right, byte_length, arith, ◌≡◌, refl, List, [], ◌∷◌, none, some, Text,
  codes, trim_space, first_where,
}
use adlts_core_engine.Booking.Types.{candidate}
use adlts_core_engine.Program.{exec, exec_unless, fetch, State, ok}
use adlts_core_engine.Security.Guards.{
  Claims, Holder, token_access, token_refresh, access_ttl, refresh_ttl, claims_of,
}
use adlts_core_engine.Security.Sample.{sample_jwt, sample_jwt-Verifies}
use adlts_core_engine.Identity.Accounts.{UserStatus}
use adlts_core_engine.Identity.World.{Tables}
use adlts_core_engine.Identity.Requests.{
  RegisterCandidateRequest, LoginRequest, LoginResponse, normalize_candidate, validate,
}
use adlts_core_engine.Identity.Service.Tokens.{random_digits, send_otp, hash_password, issue_token}
use adlts_core_engine.Identity.Service.Registration.{
  candidate_holder, register_candidate, verify_otp,
}
use adlts_core_engine.Identity.Service.Login.{
  admits_candidate, login_candidate, login, refresh_token,
}
use adlts_core_engine.Identity.Repository.Writes.{upsert_otp, create_candidate, verify_otp_row}
use adlts_core_engine.Identity.Reads.{Issued}
use adlts_core_engine.Identity.Entry.{Authentic, login-Authentic}
use adlts_core_engine.Identity.Signup.{Registered, register_candidate-Registered}
use adlts_core_engine.Identity.Otp.{guess, lock, verify_otp_row-refines}
use adlts_core_engine.Identity.Guesses.{IsErr, trying, verify_all, verify_otp-worn_out}
use adlts_core_engine.Identity.Activation.{verify_otp-lets_in}
use adlts_core_engine.Identity.Renewal.{refresh_token-renews}
use adlts_core_engine.Identity.Examples.{
  calm, calm_reliable, calm-Bounded, calm-Signs, hashed, mail, secret, sample_candidate, world_of,
  result_of, no_tokens,
}

abbrev active_world : State Tables
active_world = world_of UserStatus.active

abbrev right_login : LoginRequest
right_login = record { email = mail; password = secret }

login-Authentic_example :
    let r = login calm right_login active_world in
    Authentic calm right_login active_world.tables (result_of no_tokens r)
    × (r.1.tables ≡ active_world.tables)
unfolding login hashed sample_jwt claims_of login_candidate candidate_by_email fetch first_where
    admits_candidate issue_token
login-Authentic_example = login-Authentic calm right_login active_world refl

-- A pending candidate guesses wrong, then right.
abbrev pending_world : State Tables
pending_world = world_of UserStatus.pending_verification

abbrev request : RegisterCandidateRequest
request = record {
  first_name = codes "N";
  middle_name = [];
  last_name = codes "O";
  email = codes "n@o.p";
  password = secret;
  phone = codes "0911223355";
  fayida_id = [];
  fayda_id = codes "F2";
  birth_date = 1;
  gender = codes "male";
}

register_candidate-Registered_example :
    Registered calm calm-Bounded request active_world.tables
      (register_candidate calm request active_world).1.tables
unfolding register_candidate validate normalize_candidate byte_length candidate_by_email fetch
    first_where candidate_by_fayida_id hash_password create_candidate exec_unless send_otp
    random_digits upsert_otp exec
register_candidate-Registered_example =
    register_candidate-Registered calm calm-Bounded request active_world refl

verify_otp_row-refines_example :
    lock mail (verify_otp_row calm mail (codes "123456") pending_world).1.tables ≡ none
unfolding first_where guess
verify_otp_row-refines_example =
    (verify_otp_row-refines calm calm_reliable mail (codes "123456") pending_world).1

abbrev wrong : List Text
wrong = codes "1" ∷ codes "2" ∷ codes "3" ∷ codes "4" ∷ codes "5" ∷ []

verify_otp-worn_out_example :
    IsErr
      (verify_otp calm (trying mail (codes "123456")) (verify_all calm mail wrong pending_world)).0
unfolding first_where
verify_otp-worn_out_example =
    verify_otp-worn_out calm calm_reliable mail (codes "123456") wrong (codes "123456")
      pending_world (sample_candidate UserStatus.pending_verification, refl) (refl, omega arith)
      (λ e. cc e, (λ e. cc e, (λ e. cc e, (λ e. cc e, (λ e. cc e, tt))))) (omega arith)

-- Time passes after the right code.
abbrev entered : State Tables
entered = (verify_otp calm (trying mail (codes "123456")) pending_world).1

abbrev an_hour_later : State Tables
an_hour_later = record entered { tick = 3600 }

verify_otp-lets_in_example :
    (r r' : LoginResponse) × ((verify_otp calm (trying mail (codes "123456")) pending_world).0
      ≡ ok r)
    × Issued calm (candidate_holder (sample_candidate UserStatus.pending_verification)) r
    × (lock mail entered.tables ≡ none)
    × ((login calm right_login an_hour_later).0 ≡ ok r')
    × Issued calm (candidate_holder (sample_candidate UserStatus.pending_verification)) r'
unfolding first_where hashed
verify_otp-lets_in_example =
    verify_otp-lets_in calm calm_reliable calm-Signs mail
      (sample_candidate UserStatus.pending_verification)
      (record { code = codes "123456"; guesses_left = 5; expires_at = 2000 }) pending_world secret
      an_hour_later refl refl (omega arith) (omega arith) refl refl refl refl

-- The tokens of an hour ago.
abbrev holder : Holder
holder = candidate_holder (sample_candidate UserStatus.active)

abbrev token_of : Claims → Text
token_of c = elim (sample_jwt.signed_string c) [ none ↦ [] | some t ↦ t ]

abbrev old_tokens : LoginResponse
old_tokens = record {
  access_token = token_of (claims_of holder token_access access_ttl 100);
  refresh_token = token_of (claims_of holder token_refresh refresh_ttl 101);
  entity_type = holder.entity_type;
}

unfoldable old_issued : Issued calm holder old_tokens
unfolding sample_jwt
old_issued = record {
  access_at = 100;
  refresh_at = 101;
  access_signed = refl;
  refresh_signed = refl;
  type_is = refl;
}

refresh_token-renews_example :
    (r' : LoginResponse) × Issued calm holder r'
    × (refresh_token calm old_tokens.refresh_token active_world
        ≡ (ok r', record active_world { tick = 4 }))
unfolding sample_jwt claims_of old_issued trim_space trim_right trim_left is_space
refresh_token-renews_example =
    refresh_token-renews calm sample_jwt-Verifies calm-Signs holder
      (record { has_id = refl; has_email = refl; role = candidate; role_is = refl }) old_tokens
      old_issued active_world refl (omega arith) (omega arith)
