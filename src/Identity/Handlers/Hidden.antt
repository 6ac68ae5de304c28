-- ===== src/Identity/Handlers/Hidden.antt =====
-- What a login that fails is told.
use adlts_core_engine.Prelude.{◌≡◌, refl, some, codes}
use adlts_core_engine.Program.{State, Outcome, ok, err}
use adlts_core_engine.Identity.World.{Tables, Error, Env}
use adlts_core_engine.Identity.Requests.{LoginRequest, LoginResponse}
use adlts_core_engine.Identity.Service.Login.{login}
use adlts_core_engine.Identity.Entry.{login-refusal}
use adlts_core_engine.Identity.Handlers.{Reply, success, failure, answer}
use adlts_core_engine.Identity.Handlers.Auth.{login_refusal, handle_login}

-- The answer that says the least.
abbrev pub Unknown : Reply LoginResponse → Type 0
Unknown (success code r) = code ≡ 200
Unknown (failure code text) = (code ≡ 401) × (text ≡ codes "INVALID_CREDENTIALS")

answered :
    (env : Env) (req : LoginRequest) (w : State Tables)
    (r : Outcome Error LoginResponse × State Tables)
    → login env req w ≡ r
    → Unknown (answer 200 login_refusal r).0
answered env req w (ok r, w') e = refl
answered env req w (err x, w') e = rw (login-refusal env req w e).0 (refl, refl)

-- Whatever fails on the way, a login whose body decodes is answered with tokens, or with status 401
-- and INVALID_CREDENTIALS: the answers of the handler for accounts that are pending, suspended or
-- inactive never come.
pub handle_login-Unknown :
    (env : Env) (req : LoginRequest) (w : State Tables) → Unknown (handle_login env (some req) w).0
unfolding handle_login
handle_login-Unknown env req w = answered env req w (login env req w) refl
