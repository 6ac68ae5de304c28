-- ===== src/Security/Sample.antt =====
-- Tokens that show their claims: an instance of what is asked of golang-jwt.
use mathlib.Core.Option.{some-injective}
use adlts_core_engine.Prelude.{
  arith, ℕ, zero, suc, ◌≤◌, ◌<◌, ◌≡◌, refl, ap, subst, true, ◌&&◌, List, [], ◌∷◌, ◌++◌, Option,
  none, some, Text, length, leb, ltb, if◌then◌else◌,
}
use adlts_core_engine.Security.Guards.{Claims, Jwt}
use adlts_core_engine.Security.Refusals.{Verifies}

-- A text with its length in front, and the text read back with what is behind it.
abbrev put : Text → Text → Text
put t rest = length t ∷ (t ++ rest)

unfoldable split_at : ℕ → Text → Text × Text
split_at zero s = ([], s)
split_at (suc n) [] = ([], [])
split_at (suc n) (c ∷ s) = let r = split_at n s in (c ∷ r.0, r.1)

split_at-append : (t rest : Text) → split_at (length t) (t ++ rest) ≡ (t, rest)
unfolding split_at
split_at-append [] rest = refl
split_at-append (c ∷ t) rest = rw (split_at-append t rest) refl

abbrev get : Text → Text × Text
get [] = ([], [])
get (n ∷ s) = split_at n s

unfoldable put_all : List Text → Text
put_all [] = []
put_all (t ∷ ts) = put t (put_all ts)

unfoldable get_all : ℕ → Text → List Text
get_all zero s = []
get_all (suc n) s = let r = get s in r.0 ∷ get_all n r.1

get_all-put_all : (ts : List Text) → get_all (length ts) (put_all ts) ≡ ts
unfolding get_all put_all
get_all-put_all [] = refl
get_all-put_all (t ∷ ts) =
    rw (split_at-append t (put_all ts)) (ap (λ us. t ∷ us) (get_all-put_all ts))

abbrev center_code : Option ℕ → ℕ
center_code none = 0
center_code (some n) = suc n

abbrev center_of : ℕ → Option ℕ
center_of zero = none
center_of (suc n) = some n

center_of-center_code : (o : Option ℕ) → center_of (center_code o) ≡ o
center_of-center_code none = refl
center_of-center_code (some n) = refl

unfoldable encode : Claims → Text
encode c =
    c.subject_id
    ∷ c.subject
    ∷ c.issued_at
    ∷ c.expires_at
    ∷ c.not_before
    ∷ center_code c.test_center_id
    ∷ length c.audience
    ∷ put c.entity_type (put c.token_type (put c.email (put c.issuer (put_all c.audience))))

unfoldable decode_texts : Claims → ℕ → Text → Claims
decode_texts c n s =
    let a = get s in
    let b = get a.1 in
    let d = get b.1 in
    let e = get d.1 in
    record c {
      entity_type = a.0;
      token_type = b.0;
      email = d.0;
      issuer = e.0;
      audience = get_all n e.1;
    }

unfoldable decode : Text → Option Claims
decode (id ∷ sub ∷ at ∷ until ∷ from ∷ center ∷ n ∷ s) = some (
    decode_texts
      (record {
        subject_id = id;
        entity_type = [];
        token_type = [];
        email = [];
        test_center_id = center_of center;
        subject = sub;
        issued_at = at;
        expires_at = until;
        not_before = from;
        issuer = [];
        audience = [];
      })
      n s)
decode _ = none

unfoldable in_time : ℕ → Option Claims → Option Claims
in_time now none = none
in_time now (some c) = if leb c.not_before now && ltb now c.expires_at then some c else none

decode-encode : (c : Claims) → decode (encode c) ≡ some c
unfolding decode encode decode_texts
decode-encode c =
    rw
      (
        split_at-append c.entity_type
            (put c.token_type (put c.email (put c.issuer (put_all c.audience)))),
        split_at-append c.token_type (put c.email (put c.issuer (put_all c.audience))),
        split_at-append c.email (put c.issuer (put_all c.audience)),
        split_at-append c.issuer (put_all c.audience),
        get_all-put_all c.audience,
        center_of-center_code c.test_center_id,
      )
      refl

unfoldable pub sample_jwt : Jwt
unfolding split_at put_all get_all encode decode_texts decode in_time
sample_jwt = record {
  signed_string = λ c. some (encode c);
  is_hmac = λ token. true;
  parse_with_claims = λ now token. in_time now (decode token);
}

within :
    (now : ℕ) (c : Claims) → c.not_before ≤ now → now < c.expires_at → in_time now (some c) ≡ some c
unfolding in_time
within now c from until = ground arith

pub sample_jwt-Verifies : Verifies sample_jwt
unfolding sample_jwt
sample_jwt-Verifies = record {
  named = λ c token signed. refl;
  verified = λ c token now signed from until.
      subst (λ t. in_time now (decode t) ≡ some c) (some-injective (encode c) token signed)
        (rw (decode-encode c) (within now c from until));
}
