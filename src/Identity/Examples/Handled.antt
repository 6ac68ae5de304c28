-- ===== src/Identity/Examples/Handled.antt =====
-- Requests to the handlers, and an expert who is locked out.
use adlts_core_engine.Prelude.{
  pos, first_where, find_by, ◌≡◌, refl, [], ◌∷◌, none, some, Text, codes, ℕ,
}
use adlts_core_engine.Program.{State, err}
use adlts_core_engine.Identity.Accounts.{UserStatus, Expert, SuperAdmin}
use adlts_core_engine.Identity.World.{Tables, invalid_credentials}
use adlts_core_engine.Identity.Requests.{LoginRequest}
use adlts_core_engine.Identity.Service.Login.{login}
use adlts_core_engine.Identity.Repository.Profiles.{super_admin_row}
use adlts_core_engine.Identity.Lockout.{login-unborn}
use adlts_core_engine.Identity.Handlers.{UpdatePersonRequest}
use adlts_core_engine.Identity.Handlers.Auth.{handle_login}
use adlts_core_engine.Identity.Handlers.Persons.{update_candidate_me}
use adlts_core_engine.Identity.Handlers.Lists.{
  ShowsCenter, handle_list_invitations, handle_list_invitations-ShowsCenter,
}
use adlts_core_engine.Identity.Handlers.Hidden.{Unknown, handle_login-Unknown}
use adlts_core_engine.Identity.Handlers.Root.{run_deletions, run_deletions-root}
use adlts_core_engine.Identity.Handlers.Self.{OnlyProfile, update_candidate_me-OnlyProfile}
use adlts_core_engine.Identity.Examples.{
  calm, calm_reliable, mail, secret, audit, person, tables_of, world_of, as_admin,
}

abbrev suspended_world : State Tables
suspended_world = world_of UserStatus.suspended

handle_login-Unknown_example :
    Unknown
      (handle_login calm (some (record { email = mail; password = secret })) suspended_world).0
handle_login-Unknown_example =
    handle_login-Unknown calm (record { email = mail; password = secret }) suspended_world

-- The candidate with id 5 sends another phone number.
abbrev new_phone : UpdatePersonRequest
new_phone = record {
  names = record { first_name = none; middle_name = none; last_name = none };
  phone = some (codes "0900000000");
  photo_url = none;
}

update_candidate_me-OnlyProfile_example :
    OnlyProfile 5 suspended_world.tables
      (update_candidate_me calm
        (record as_admin { subject_id = 5 })
        (some new_phone)
        suspended_world).1.tables
update_candidate_me-OnlyProfile_example =
    update_candidate_me-OnlyProfile calm (record as_admin { subject_id = 5 }) (some new_phone)
      suspended_world

abbrev super_admin : ℕ → Text → SuperAdmin
super_admin id email = record {
  id = id;
  name = [];
  email = email;
  password_hash = codes "#opensesame";
  audit = audit;
}

abbrev root : SuperAdmin
root = super_admin 1 (codes "root@adlts.et")

abbrev rooted_world : State Tables
rooted_world = record {
  tables = record (tables_of UserStatus.active) {
    super_admins = super_admin 2 (codes "s@t.u") ∷ root ∷ [];
  };
  tick = 1;
}

-- Super administrator 2 tries to delete the root, which has the fallback's email.
run_deletions-root_example :
    super_admin_row 1
      (run_deletions calm []
        ((record as_admin { subject_id = 2 }, some 1) ∷ [])
        rooted_world).tables
    ≡ some root
unfolding find_by
run_deletions-root_example =
    run_deletions-root calm calm_reliable [] root refl
      ((record as_admin { subject_id = 2 }, some 1) ∷ []) rooted_world refl

abbrev invited : Expert
invited = record {
  person = person 9 (codes "e@f.g") UserStatus.active;
  phone = [];
  fayida_id = codes "F9";
  employee_id = codes "E9";
  birth_date = none;
  gender = none;
  photo_url = [];
}

abbrev invited_world : State Tables
invited_world = record {
  tables = record (tables_of UserStatus.active) { experts = invited ∷ [] };
  tick = 1;
}

abbrev invited_login : LoginRequest
invited_login = record { email = codes "e@f.g"; password = secret }

login-unborn_example : (login calm invited_login invited_world).0 ≡ err invalid_credentials
unfolding first_where
login-unborn_example = login-unborn calm refl invited_login invited_world (record {
  expert = invited;
  found = refl;
  unborn = refl;
  no_candidate = refl;
  no_admin = refl;
  no_super_admin = refl;
  no_institute = refl;
  no_authority = refl;
})

-- Administrator of center 3, on the pending invitations.
handle_list_invitations-ShowsCenter_example :
    ShowsCenter
      (codes "pending")
      3
      1001
      (handle_list_invitations calm as_admin (codes "pending") (pos 1) suspended_world).0
handle_list_invitations-ShowsCenter_example =
    handle_list_invitations-ShowsCenter calm as_admin 3 (codes "pending") (pos 1) suspended_world
      refl refl
