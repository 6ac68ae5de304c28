-- ===== src/Security/Refusals.antt =====
-- What the guards have established when they let a request through, and which tokens they take.
use adlts_core_engine.Prelude.{
  arith, ℕ, ◌+◌, ◌-◌, ◌≤◌, ◌<◌, ◌≡◌, refl, ap, true, false, inl, inr, ◌⊎◌, List, [], ◌∷◌, ◌++◌,
  Option, none, some, Text, codes, text_eq, text_eq_sound, equal_fold, fold_case, is_empty,
  Bool-cases, Option-cases, ◌==◌,
}
use adlts_core_engine.Booking.Types.{EntityType}
use adlts_core_engine.Security.Guards.{
  Jwt, Claims, AuthContext, Holder, Passage, deny, pass, entity_name, claims_of, parse,
  split_header, context_of, with_token, authenticate, is_allowed, require_entities, then_require,
  guarded,
}

-- One of the entities of a route.
abbrev pub Among : Text → List EntityType → Type 0
Among et [] = ⊥
Among et (e ∷ es) = (et ≡ entity_name e) ⊎ Among et es

is_allowed-Among : (es : List EntityType) (et : Text) → is_allowed es et ≡ true → Among et es
unfolding is_allowed
is_allowed-Among [] et h = absurd (cc)
is_allowed-Among (e ∷ es) et h = elim (Bool-cases (text_eq et (entity_name e))) [
  | inl hit ↦ inl (text_eq_sound et (entity_name e) hit)
  | inr miss ↦ inr (is_allowed-Among es et (rw miss at h))
]

-- A header that splits is a scheme, a space and a token.
split_header-append : (h : Text) (a b : Text) → split_header h ≡ some (a, b) → h ≡ a ++ (32 ∷ b)
unfolding split_header
split_header-append [] a b e = absurd (cc)
split_header-append (c ∷ s) a b e = elim (Bool-cases (c == 32)) [
  | inl hit ↦ ground arith
  | inr miss ↦ elim (Option-cases (split_header s)) [
    | inl lost ↦ ground arith
    | inr ((a', b'), found) ↦ ground (arith, split_header-append s a' b')
  ]
]

-- What a request that passes a guarded route has brought.
pub record Admitted (jwt : Jwt) (now : ℕ) (allowed : List EntityType) (header : Text)
    (auth : AuthContext) : Type 0 where
  pub scheme : Text
  pub token : Text
  pub claims : Claims
  pub header_is : header ≡ scheme ++ (32 ∷ token)
  pub is_bearer : equal_fold scheme (codes "Bearer") ≡ true
  pub is_parsed : parse jwt now token ≡ some claims
  pub context_is : auth ≡ context_of claims
  pub among : Among auth.entity_type allowed

with_token-pass :
    (jwt : Jwt) (now : ℕ) (parts : Option (Text × Text)) (auth : AuthContext)
    → with_token jwt now parts ≡ pass auth
    → (a : Text) × (b : Text) × (c : Claims) × (parts ≡ some (a, b))
      × (equal_fold a (codes "Bearer") ≡ true)
      × (parse jwt now b ≡ some c)
      × (auth ≡ context_of c)
with_token-pass jwt now none auth e = absurd (cc)
with_token-pass jwt now (some (a, b)) auth e = elim (Option-cases (parse jwt now b)) [
  | inl lost ↦ absurd (ground arith)
  | inr (c, found) ↦ (a, b, c, refl, ground arith, found, ground arith)
]

require_entities-pass :
    (allowed : List EntityType) (a auth : AuthContext)
    → require_entities allowed (some a) ≡ pass auth
    → (a ≡ auth) × (is_allowed allowed auth.entity_type ≡ true)
unfolding require_entities
require_entities-pass allowed a auth e = ground arith

then_require-pass :
    (allowed : List EntityType) (p : Passage AuthContext) (auth : AuthContext)
    → then_require allowed p ≡ pass auth
    → (p ≡ pass auth) × (is_allowed allowed auth.entity_type ≡ true)
then_require-pass allowed (deny code) auth e = absurd (cc)
then_require-pass allowed (pass a) auth e =
    let (same, among) = require_entities-pass allowed a auth e in (ap pass same, among)

authenticate-with_token :
    (jwt : Jwt) (now : ℕ) (header : Text) (auth : AuthContext)
    → authenticate jwt now header ≡ pass auth
    → with_token jwt now (split_header header) ≡ pass auth
unfolding authenticate
authenticate-with_token jwt now header auth e = ground arith

-- A request reaches the handler of a guarded route only with a bearer token that verifies in its
-- time, and then the handler works for the subject of that token, whose entity type is one of those
-- that the route allows.
pub guarded-Admitted :
    (jwt : Jwt) (now : ℕ) (allowed : List EntityType) (header : Text) (auth : AuthContext)
    → guarded jwt now allowed header ≡ pass auth
    → Admitted jwt now allowed header auth
guarded-Admitted jwt now allowed header auth e =
    let (passed, among) = then_require-pass allowed (authenticate jwt now header) auth e in
    let (a, b, c, split, bearer, parsed, context) =
      with_token-pass jwt now (split_header header) auth
        (authenticate-with_token jwt now header auth passed) in
    record {
      scheme = a;
      token = b;
      claims = c;
      header_is = split_header-append header a b split;
      is_bearer = bearer;
      is_parsed = parsed;
      context_is = context;
      among = is_allowed-Among allowed auth.entity_type among;
    }

-- What golang-jwt documents: a token that was signed with the secret by HS256 names that method, and
-- gives its claims back from the time before which it must not be used to its expiry.
pub record Verifies (jwt : Jwt) : Type 0 where
  pub named :
      (c : Claims) (token : Text) → jwt.signed_string c ≡ some token → jwt.is_hmac token ≡ true
  pub verified :
      (c : Claims) (token : Text) (now : ℕ)
      → jwt.signed_string c ≡ some token
      → c.not_before ≤ now
      → now < c.expires_at
      → jwt.parse_with_claims now token ≡ some c

pub parse-signed :
    (jwt : Jwt)
    → Verifies jwt
    → (h : Holder) (kind : Text) (ttl at now : ℕ) (token : Text) → is_empty kind ≡ false
    → jwt.signed_string (claims_of h kind ttl at) ≡ some token
    → at - 60 ≤ now
    → now < at + ttl
    → parse jwt now token ≡ some (claims_of h kind ttl at)
unfolding parse claims_of
parse-signed jwt v h kind ttl at now token full signed from until =
    rw (v.named _ token signed, v.verified _ token now signed from until, parse) (rw full)

-- The holder as the guards see it.
abbrev pub context_for : Holder → AuthContext
context_for h = record {
  subject_id = h.id;
  entity_type = h.entity_type;
  email = h.email;
  test_center_id = h.test_center_id;
}

-- A bearer of a token that was signed for a holder is taken for that holder, from a minute before
-- the signature until the token expires, whatever the token's type: a refresh token, which lives
-- fourteen times as long, opens every route that an access token opens.
pub authenticate-signed :
    (jwt : Jwt)
    → Verifies jwt
    → (h : Holder) (kind : Text) (ttl at now : ℕ) (token : Text) → is_empty kind ≡ false
    → jwt.signed_string (claims_of h kind ttl at) ≡ some token
    → at - 60 ≤ now
    → now < at + ttl
    → authenticate jwt now (codes "Bearer " ++ token) ≡ pass (context_for h)
unfolding authenticate equal_fold fold_case claims_of
authenticate-signed jwt v h kind ttl at now token full signed from until =
    rw (parse-signed jwt v h kind ttl at now token full signed from until)
