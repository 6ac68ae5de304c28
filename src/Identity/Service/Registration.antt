-- ===== src/Identity/Service/Registration.antt =====
-- `SeedSuperAdmin`, `RegisterCandidate`, `VerifyOTP` and `ResendOTP`.
use adlts_core_engine.Prelude.{
  ℕ, Bool, true, false, not, [], Option, none, some, Text, if◌then◌else◌,
}
use adlts_core_engine.Booking.Types.{candidate}
use adlts_core_engine.Program.{pure, lift, guard, ◌>>=◌, ◌>>◌, recover, present}
use adlts_core_engine.Security.Guards.{Holder, entity_name}
use adlts_core_engine.Identity.Accounts.{UserStatus, Candidate, SuperAdmin}
use adlts_core_engine.Identity.World.{
  Env, M, email_taken, fayida_id_taken, already_verified, invalid_otp,
}
use adlts_core_engine.Identity.Requests.{
  RegisterCandidateRequest, VerifyOtpRequest, LoginResponse, normalize_candidate, validate,
}
use adlts_core_engine.Identity.Repository.Rows.{is_some}
use adlts_core_engine.Identity.Repository.Lookups.{
  candidate_by_email, candidate_by_fayida_id, super_admin_by_email,
}
use adlts_core_engine.Identity.Repository.Writes.{
  create_candidate, create_super_admin, update_candidate_status, verify_otp_row, time_now,
}
use adlts_core_engine.Identity.Service.Tokens.{issue_token, hash_password, send_otp, uuid_new}

-- The account of a new candidate, made by nobody.
abbrev pub new_candidate : RegisterCandidateRequest → Text → ℕ → ℕ → Candidate
new_candidate req hash now id = record {
  person = record {
    id = id;
    first_name = req.first_name;
    middle_name = req.middle_name;
    last_name = req.last_name;
    email = req.email;
    password_hash = hash;
    status = UserStatus.pending_verification;
    audit = record { created_at = now; updated_at = now; created_by = 0; updated_by = 0 };
  };
  phone = req.phone;
  fayida_id = req.fayida_id;
  birth_date = req.birth_date;
  gender = req.gender;
  address = record { street = []; city = []; region = []; country = [] };
  photo_url = [];
}

abbrev pub new_super_admin : Text → Text → Text → ℕ → ℕ → SuperAdmin
new_super_admin name email hash now id = record {
  id = id;
  name = name;
  email = email;
  password_hash = hash;
  audit = record { created_at = now; updated_at = now; created_by = id; updated_by = id };
}

abbrev pub candidate_holder : Candidate → Holder
candidate_holder c = record {
  id = c.person.id;
  entity_type = entity_name candidate;
  email = c.person.email;
  test_center_id = none;
}

abbrev pub is_pending : UserStatus → Bool
is_pending UserStatus.pending_verification = true
is_pending _ = false

module _ (env : Env) where
  unfoldable pub seed_super_admin : Text → Text → Text → M (Unit {0})
  seed_super_admin name email password = do
    existing ← recover none (super_admin_by_email env email)
    if is_some existing then pure tt else do
      hash ← hash_password env password
      now ← time_now env
      id ← uuid_new env
      create_super_admin env (new_super_admin name email hash now id)

  unfoldable pub register_candidate : RegisterCandidateRequest → M (Unit {0})
  register_candidate request = do
    let req = normalize_candidate request
    lift (validate req)
    existing ← recover none (candidate_by_email env req.email)
    guard (not (is_some existing)) email_taken
    same ← recover none (candidate_by_fayida_id env req.fayida_id)
    guard (not (is_some same)) fayida_id_taken
    hash ← hash_password env req.password
    now ← time_now env
    id ← uuid_new env
    create_candidate env (new_candidate req hash now id)
    send_otp env req.email

  unfoldable pub verify_otp : VerifyOtpRequest → M LoginResponse
  verify_otp req = do
    cand ← present invalid_otp (candidate_by_email env req.email)
    matches ← verify_otp_row env req.email req.code
    guard matches invalid_otp
    update_candidate_status env cand.person.id UserStatus.active cand.person.id
    issue_token env (candidate_holder cand)

  abbrev pub resend_to : Text → Option Candidate → M (Unit {0})
  resend_to email none = pure tt
  resend_to email (some c) =
      guard (is_pending c.person.status) already_verified >> send_otp env email

  unfoldable pub resend_otp : Text → M (Unit {0})
  resend_otp email = recover none (candidate_by_email env email) >>= resend_to email
