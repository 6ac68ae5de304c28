-- ===== src/Testing/Scoring.antt =====
-- `FinalizeTest` and `ComputeWeightedTotal` of internal/testing/scoring.go: the score and the verdict
-- that they store. They are over any arithmetic whose strict order is irreflexive and transitive, as
-- the order of float64 is, also where a number is NaN.
use adlts_core_engine.Prelude.{
  ◌≡◌, Bool, true, false, not, ◌&&◌, ◌||◌, List, [], ◌∷◌, Text, if◌then◌else◌,
}

-- The operations of float64 that scoring uses, and what it relies on.
pub record Arithmetic : Type 1 where
  pub F : Type 0
  pub zero : F
  pub add : F → F → F
  pub mul : F → F → F
  pub div : F → F → F
  pub lt : F → F → Bool
  pub ge : F → F → Bool
  pub lt_irrefl : (x : F) → lt x x ≡ false
  pub lt_trans : (x y z : F) → lt x y ≡ true → lt y z ≡ true → lt x z ≡ true

module _ (R : Arithmetic) where
  pub record SessionResult : Type 0 where
    pub maneuver_type : Text
    pub score : R.F
    pub weight : R.F
    pub critical_fail : Bool

  -- The variables of the loop of `FinalizeTest`.
  pub record Totals : Type 0 where
    pub weighted_sum : R.F
    pub weight_sum : R.F
    pub any_critical_fail : Bool
    pub weakest_maneuver : Text
    pub weakest_score : R.F
    pub weakest_set : Bool

  unfoldable pub add_session : Totals → SessionResult → Totals
  add_session t s =
      let weaker = not t.weakest_set || R.lt s.score t.weakest_score in
      record {
        weighted_sum = R.add t.weighted_sum (R.mul s.score s.weight);
        weight_sum = R.add t.weight_sum s.weight;
        any_critical_fail = if s.critical_fail then true else t.any_critical_fail;
        weakest_maneuver = if weaker then s.maneuver_type else t.weakest_maneuver;
        weakest_score = if weaker then s.score else t.weakest_score;
        weakest_set = if weaker then true else t.weakest_set;
      }

  unfoldable pub add_sessions : Totals → List SessionResult → Totals
  add_sessions t [] = t
  add_sessions t (s ∷ ss) = add_sessions (add_session t s) ss

  pub record TestResult : Type 0 where
    pub weighted_total_score : R.F
    pub passed : Bool
    pub any_critical_fail : Bool
    pub weakest_maneuver : Text

  -- The loop starts with a score of 101 that is not yet set, given here as `start`.
  abbrev pub no_totals : R.F → Totals
  no_totals start = record {
    weighted_sum = R.zero;
    weight_sum = R.zero;
    any_critical_fail = false;
    weakest_maneuver = [];
    weakest_score = start;
    weakest_set = false;
  }

  unfoldable pub finalize_test : (start threshold : R.F) → List SessionResult → TestResult
  finalize_test start threshold srs =
      let t = add_sessions (no_totals start) srs in
      let final_score =
        if R.lt R.zero t.weight_sum then R.div t.weighted_sum t.weight_sum else R.zero in
      record {
        weighted_total_score = final_score;
        passed = R.ge final_score threshold && not t.any_critical_fail;
        any_critical_fail = t.any_critical_fail;
        weakest_maneuver = t.weakest_maneuver;
      }

  unfoldable pub weigh : R.F × R.F → List SessionResult → R.F × R.F
  weigh sums [] = sums
  weigh (weighted_sum, weight_sum) (s ∷ ss) =
      weigh (R.add weighted_sum (R.mul s.score s.weight), R.add weight_sum s.weight) ss

  unfoldable pub compute_weighted_total : R.F → List SessionResult → R.F × Bool
  compute_weighted_total threshold srs =
      let sums = weigh (R.zero, R.zero) srs in
      let score = if R.lt R.zero sums.1 then R.div sums.0 sums.1 else R.zero in
      (score, R.ge score threshold)
