-- ===== src/Security/Examples.antt =====
-- The guards at concrete requests.
use adlts_core_engine.Prelude.{
  ◌≡◌, refl, arith, [], ◌∷◌, ◌++◌, Option, none, some, Text, codes, equal_fold, fold_case,
}
use adlts_core_engine.Booking.Types.{candidate, admin}
use adlts_core_engine.Security.Guards.{
  Holder, Claims, pass, entity_name, token_refresh, refresh_ttl, claims_of, parse, split_header,
  authenticate, is_allowed, require_entities, guarded,
}
use adlts_core_engine.Security.Refusals.{
  Admitted, guarded-Admitted, context_for, authenticate-signed,
}
use adlts_core_engine.Security.Sample.{sample_jwt, sample_jwt-Verifies}

abbrev holder : Holder
holder = record {
  id = 5;
  entity_type = entity_name admin;
  email = codes "a@b.c";
  test_center_id = some 3;
}

abbrev refresh_claims : Claims
refresh_claims = claims_of holder token_refresh refresh_ttl 1000

abbrev value_of : Option Text → Text
value_of none = []
value_of (some t) = t

abbrev token : Text
token = value_of (sample_jwt.signed_string refresh_claims)

-- A day after it was signed, when no access token would still be good.
authenticate-signed_example :
    authenticate sample_jwt 87400 (codes "Bearer " ++ token) ≡ pass (context_for holder)
unfolding sample_jwt claims_of
authenticate-signed_example =
    authenticate-signed sample_jwt sample_jwt-Verifies holder token_refresh refresh_ttl 1000 87400
      token refl refl (omega arith) (omega arith)

guarded-Admitted_example :
    Admitted sample_jwt 1010
      (candidate ∷ admin ∷ [])
      (codes "bearer " ++ token)
      (context_for holder)
unfolding sample_jwt claims_of guarded authenticate parse split_header is_allowed require_entities
    equal_fold fold_case
guarded-Admitted_example =
    guarded-Admitted sample_jwt 1010 (candidate ∷ admin ∷ []) (codes "bearer " ++ token)
      (context_for holder) refl
