-- ===== src/Identity/Examples.antt =====
-- The identity module at a small database.
mod Entrance
mod Passwords
mod Invites
mod Handled
use adlts_core_engine.Prelude.{
  ℕ, ◌+◌, ◌≡◌, refl, Bool, true, false, List, [], ◌∷◌, ◌++◌, Option, none, some, Text, codes,
  text_eq, ◌<◌, ltb, if◌then◌else◌, arith,
}
use adlts_core_engine.Booking.Types.{candidate, admin}
use adlts_core_engine.Program.{Host, State, Outcome, ok, err}
use adlts_core_engine.Security.Guards.{Claims, AuthContext, Jwt, entity_name}
use adlts_core_engine.Security.Sample.{sample_jwt}
use adlts_core_engine.Identity.Accounts.{
  UserStatus, Audit, BasePerson, Candidate, Admin, Invitation, OtpCode, ResetToken,
}
use adlts_core_engine.Identity.World.{Tables, Error, Env}
use adlts_core_engine.Identity.Requests.{LoginResponse}
use adlts_core_engine.Identity.Reliable.{Signs}
use adlts_core_engine.Identity.Codes.{Bounded}

-- A hash is the password behind a mark.
unfoldable pub hashed : Text → Text
hashed password = codes "#" ++ password

abbrev pub calm : Env
calm = record {
  host = record { query_fails = λ _. false; now = λ n. 1000 + n; new_uuid = λ n. 700 + n };
  jwt = sample_jwt;
  generate_from_password = λ _ password. some (hashed password);
  compare_hash_and_password = λ hash password. text_eq hash (hashed password);
  random_below = λ _ bound. if ltb 7 bound then some 7 else none;
  uuid_string = λ n. n ∷ [];
  mail_sent = λ _ _. true;
  scans_null = false;
  ilike = text_eq;
  base_url = codes "http://x";
}

pub calm_reliable : (n : ℕ) → calm.host.query_fails n ≡ false
calm_reliable n = refl

pub calm-Bounded : Bounded calm
calm-Bounded = record { bounded = λ n k d e. ground arith }

pub calm-Signs : Signs calm
unfolding sample_jwt
calm-Signs c = (_, refl)

abbrev pub mail : Text
mail = codes "c@d.e"

abbrev pub secret : Text
secret = codes "opensesame"

abbrev pub audit : Audit
audit = record { created_at = 10; updated_at = 10; created_by = 0; updated_by = 0 }

abbrev pub person : ℕ → Text → UserStatus → BasePerson
person id email status = record {
  id = id;
  first_name = codes "A";
  middle_name = codes "B";
  last_name = codes "C";
  email = email;
  password_hash = codes "#opensesame";
  status = status;
  audit = audit;
}

abbrev pub sample_candidate : UserStatus → Candidate
sample_candidate status = record {
  person = person 5 mail status;
  phone = codes "0911223344";
  fayida_id = codes "F1";
  birth_date = 1;
  gender = codes "female";
  address = record { street = []; city = []; region = []; country = [] };
  photo_url = [];
}

abbrev pub sample_admin : Admin
sample_admin = record { person = person 6 (codes "a@b.c") UserStatus.active; test_center_id = 3 }

-- An invitation that an administrator of center 3 made.
abbrev pub sample_invitation : Invitation
sample_invitation = record {
  id = 8;
  token = codes "T";
  email = codes "i@j.k";
  entity_type = codes "institute";
  test_center_id = some 3;
  expires_at = 2000;
  used_at = none;
  created_by = 6;
  created_at = 20;
}

abbrev pub sample_otp : OtpCode
sample_otp = record {
  email = mail;
  code = codes "123456";
  expires_at = 2000;
  attempts = 0;
  created_at = 900;
}

abbrev pub sample_reset : ResetToken
sample_reset = record { email = mail; token = codes "R"; expires_at = 2000; created_at = 900 }

abbrev pub tables_of : UserStatus → Tables
tables_of status = record {
  candidates = sample_candidate status ∷ [];
  experts = [];
  admins = sample_admin ∷ [];
  super_admins = [];
  institutes = [];
  transport_authorities = [];
  invitations = sample_invitation ∷ [];
  otp_codes = sample_otp ∷ [];
  password_reset_tokens = sample_reset ∷ [];
}

abbrev pub world_of : UserStatus → State Tables
world_of status = record { tables = tables_of status; tick = 1 }

abbrev pub result_of {ℓ} : {A : Type ℓ} → A → Outcome Error A × State Tables → A
result_of d (ok a, _) = a
result_of d (err _, _) = d

abbrev pub no_tokens : LoginResponse
no_tokens = record { access_token = []; refresh_token = []; entity_type = [] }

-- The administrator of center 3.
abbrev pub as_admin : AuthContext
as_admin = record {
  subject_id = 6;
  entity_type = entity_name admin;
  email = codes "a@b.c";
  test_center_id = some 3;
}
