-- ===== src/Security/Guards.antt =====
-- Claims and tokens, and the middleware `Authenticate`, `RequireEntities` and
-- `RequireInternalToken`, as what they pass on to the handler or answer themselves.
use adlts_core_engine.Prelude.{
  ℕ, ◌+◌, ◌-◌, ◌*◌, Bool, true, false, List, [], ◌∷◌, Option, none, some, Text, codes, text_eq,
  is_empty, equal_fold, ◌==◌, if◌then◌else◌,
}
use adlts_core_engine.Booking.Types.{
  EntityType, candidate, expert, admin, super_admin, institute, transport_authority,
}

-- The strings of the entity types.
abbrev pub entity_name : EntityType → Text
entity_name candidate = codes "candidate"
entity_name expert = codes "expert"
entity_name admin = codes "admin"
entity_name super_admin = codes "super_admin"
entity_name institute = codes "institute"
entity_name transport_authority = codes "transport_authority"

abbrev pub token_access : Text
token_access = codes "access"

abbrev pub token_refresh : Text
token_refresh = codes "refresh"

-- Times in seconds.
abbrev pub access_ttl : ℕ
access_ttl = 12 * 3600

abbrev pub refresh_ttl : ℕ
refresh_ttl = 7 * (24 * 3600)

-- The entity type and the token type are strings, as another token may hold any.
pub record Claims : Type 0 where
  pub subject_id : ℕ
  pub entity_type : Text
  pub token_type : Text
  pub email : Text
  pub test_center_id : Option ℕ
  pub subject : ℕ
  pub issued_at : ℕ
  pub expires_at : ℕ
  pub not_before : ℕ
  pub issuer : Text
  pub audience : List Text

pub record AuthContext : Type 0 where
  pub subject_id : ℕ
  pub entity_type : Text
  pub email : Text
  pub test_center_id : Option ℕ

-- What a token is signed for: the arguments of `SignAccessToken` and `SignRefreshToken`.
pub record Holder : Type 0 where
  pub id : ℕ
  pub entity_type : Text
  pub email : Text
  pub test_center_id : Option ℕ

-- The claims that `signWithTTL` signs.
unfoldable pub claims_of : Holder → Text → ℕ → ℕ → Claims
claims_of h token_type ttl now = record {
  subject_id = h.id;
  entity_type = h.entity_type;
  token_type = token_type;
  email = h.email;
  test_center_id = h.test_center_id;
  subject = h.id;
  issued_at = now;
  expires_at = now + ttl;
  not_before = now - 60;
  issuer = codes "adlts";
  audience = codes "adlts-api" ∷ [];
}

-- golang-jwt with the secret of the `Manager`: a signature with HS256, whether the header of a token
-- names a method of HMAC, and the claims of a token that the secret verifies and that is in its time.
pub record Jwt : Type 0 where
  pub signed_string : Claims → Option Text
  pub is_hmac : Text → Bool
  pub parse_with_claims : ℕ → Text → Option Claims

-- A token without a type counts as an access token.
abbrev pub defaulted : Claims → Claims
defaulted c = record c { token_type = if is_empty c.token_type then token_access else c.token_type }

-- `Manager.Parse`, at a time. The secret is used only for a token whose method is one of HMAC.
unfoldable pub parse : Jwt → ℕ → Text → Option Claims
parse jwt now token =
    if jwt.is_hmac token
    then elim (jwt.parse_with_claims now token) [ none ↦ none | some c ↦ some (defaulted c) ]
    else none

-- What a guard does with a request: it answers with a status, or lets it through.
pub data Passage {ℓ} (A : Type ℓ) : Type ℓ where
  deny : ℕ → Passage A
  pass : A → Passage A

-- `strings.SplitN(s, " ", 2)`, if it has two parts.
unfoldable pub split_header : Text → Option (Text × Text)
split_header [] = none
split_header (c ∷ s) =
    let rest = split_header s in
    if c == 32 then some ([], s) else elim rest [ none ↦ none | some (a, b) ↦ some (c ∷ a, b) ]

abbrev pub context_of : Claims → AuthContext
context_of c = record {
  subject_id = c.subject_id;
  entity_type = c.entity_type;
  email = c.email;
  test_center_id = c.test_center_id;
}

abbrev pub authorized : Option Claims → Passage AuthContext
authorized none = deny 401
authorized (some c) = pass (context_of c)

abbrev pub with_token : Jwt → ℕ → Option (Text × Text) → Passage AuthContext
with_token jwt now none = deny 401
with_token jwt now (some (scheme, token)) =
    if equal_fold scheme (codes "Bearer") then authorized (parse jwt now token) else deny 401

-- `Authenticate`, on the header `Authorization` (empty if missing).
unfoldable pub authenticate : Jwt → ℕ → Text → Passage AuthContext
unfolding parse split_header
authenticate jwt now header =
    if is_empty header then deny 401 else with_token jwt now (split_header header)

unfoldable pub is_allowed : List EntityType → Text → Bool
is_allowed [] et = false
is_allowed (e ∷ es) et = if text_eq et (entity_name e) then true else is_allowed es et

-- `RequireEntities`, behind what `CurrentAuth` finds in the request.
unfoldable pub require_entities : List EntityType → Option AuthContext → Passage AuthContext
unfolding is_allowed
require_entities allowed none = deny 401
require_entities allowed (some auth) =
    if is_allowed allowed auth.entity_type then pass auth else deny 403

-- `RequireInternalToken`, on the header `X-Internal-Token`.
unfoldable pub require_internal_token : Text → Text → Passage (Unit {0})
require_internal_token expected got =
    if is_empty expected then deny 403 else if text_eq got expected then pass tt else deny 403

-- A route with `auth` and a list of entities in front of its handler.
abbrev pub then_require : List EntityType → Passage AuthContext → Passage AuthContext
then_require allowed (deny code) = deny code
then_require allowed (pass auth) = require_entities allowed (some auth)

abbrev pub guarded : Jwt → ℕ → List EntityType → Text → Passage AuthContext
guarded jwt now allowed header = then_require allowed (authenticate jwt now header)
