-- ===== src/Testing/Grades.antt =====
-- Sessions with scores, in an arithmetic on natural numbers, and the theorems on verdicts applied to
-- them.
use adlts_core_engine.Prelude.{
  ℕ, ◌+◌, ◌*◌, ◌/◌, ◌≡◌, refl, true, false, List, [], ◌∷◌, codes, ltb, leb, All, arith,
}
use adlts_core_engine.Testing.Scoring.{
  Arithmetic, SessionResult, finalize_test, compute_weighted_total, add_sessions, add_session,
}
use adlts_core_engine.Testing.Verdict.{Occurs, finalize_test-weakest, finalize_test-passes}

abbrev naturals : Arithmetic
naturals = record {
  F = ℕ;
  zero = 0;
  add = λ x y. x + y;
  mul = λ x y. x * y;
  div = λ x y. x / y;
  lt = ltb;
  ge = λ x y. leb y x;
  lt_irrefl = λ x. irrefl x;
  lt_trans = λ x y z h k. trans x y z h k;
}
  where
    irrefl : (x : ℕ) → ltb x x ≡ false
    irrefl x = ground arith

    trans : (x y z : ℕ) → ltb x y ≡ true → ltb y z ≡ true → ltb x z ≡ true
    trans x y z h k = ground arith

abbrev parking : SessionResult naturals
parking = record { maneuver_type = codes "parking"; score = 80; weight = 2; critical_fail = false }

abbrev reversing : SessionResult naturals
reversing = record {
  maneuver_type = codes "reversing";
  score = 70;
  weight = 1;
  critical_fail = false;
}

abbrev graded : List (SessionResult naturals)
graded = parking ∷ reversing ∷ []

finalize_test-weakest_example :
    (w : SessionResult naturals) × ((finalize_test naturals 101 70 graded).weakest_maneuver
      ≡ w.maneuver_type)
    × Occurs naturals w graded
    × All (λ (x : SessionResult naturals). ltb x.score w.score ≡ false) graded
finalize_test-weakest_example = finalize_test-weakest naturals 101 70 parking (reversing ∷ [])

finalize_test-passes_example :
    ((compute_weighted_total naturals 70 graded).1 ≡ true)
    × All (λ (s : SessionResult naturals). s.critical_fail ≡ false) graded
unfolding finalize_test add_sessions add_session
finalize_test-passes_example = finalize_test-passes naturals 101 70 graded refl
