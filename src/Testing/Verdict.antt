-- ===== src/Testing/Verdict.antt =====
-- What the verdict on a test says of its sessions.
use adlts_core_engine.Prelude.{
  ◌≡◌, refl, sym, ap, subst, ◌∙◌, inl, inr, ◌⊎◌, Bool, true, false, List, [], ◌∷◌, All,
  if◌then◌else◌, Bool-cases, arith,
}
use adlts_core_engine.Testing.Scoring.{
  Arithmetic, SessionResult, Totals, add_session, add_sessions, no_totals, finalize_test, weigh,
  compute_weighted_total,
}

module _ (R : Arithmetic) where
  critical_stays :
      (t : Totals R) (ss : List (SessionResult R))
      → t.any_critical_fail ≡ true
      → (add_sessions R t ss).any_critical_fail ≡ true
  unfolding add_sessions add_session
  critical_stays t [] h = h
  critical_stays t (s ∷ ss) h = critical_stays (add_session R t s) ss (ground (arith, h))

  none_critical :
      (t : Totals R) (ss : List (SessionResult R))
      → (add_sessions R t ss).any_critical_fail ≡ false
      → All (λ (s : SessionResult R). s.critical_fail ≡ false) ss
  unfolding add_sessions add_session
  none_critical t [] h = tt
  none_critical t (s ∷ ss) h = elim (Bool-cases s.critical_fail) [
    | inl bad ↦ absurd (cc (critical_stays (add_session R t s) ss (rw bad), h))
    | inr good ↦ (good, none_critical (add_session R t s) ss h)
  ]

  sums-agree :
      (t : Totals R) (ss : List (SessionResult R))
      → weigh R (t.weighted_sum, t.weight_sum) ss
        ≡ ((add_sessions R t ss).weighted_sum, (add_sessions R t ss).weight_sum)
  unfolding weigh add_sessions add_session
  sums-agree t [] = refl
  sums-agree t (s ∷ ss) = sums-agree (add_session R t s) ss

  -- A test that `FinalizeTest` passes has reached its threshold by `ComputeWeightedTotal` too, and had
  -- no critical failure in any session.
  pub finalize_test-passes :
      (start threshold : R.F) (srs : List (SessionResult R))
      → (finalize_test R start threshold srs).passed ≡ true
      → ((compute_weighted_total R threshold srs).1 ≡ true)
        × All (λ (s : SessionResult R). s.critical_fail ≡ false) srs
  unfolding finalize_test compute_weighted_total
  finalize_test-passes start threshold srs h =
      rw (sums-agree (no_totals R start) srs)
        (ground (arith, h), none_critical (no_totals R start) srs (ground (arith, h)))

  -- The session that a run from the left keeps as the weakest.
  unfoldable weakest : SessionResult R → List (SessionResult R) → SessionResult R
  weakest s [] = s
  weakest s (x ∷ xs) = weakest (if R.lt x.score s.score then x else s) xs

  weakest-cons :
      (s x : SessionResult R) (xs : List (SessionResult R)) (b : Bool)
      → R.lt x.score s.score ≡ b
      → weakest s (x ∷ xs) ≡ weakest (if b then x else s) xs
  unfolding weakest
  weakest-cons s x xs b e = ap (λ c. weakest (if c then x else s) xs) e

  -- It is the first one or has less, and no session has less than it.
  weakest-below :
      (s : SessionResult R) (xs : List (SessionResult R))
      → ((weakest s xs).score ≡ s.score) ⊎ (R.lt (weakest s xs).score s.score ≡ true)
  unfolding weakest
  weakest-below s [] = inl refl
  weakest-below s (x ∷ xs) = elim (Bool-cases (R.lt x.score s.score)) [
    | inl less ↦
        subst (λ (w : SessionResult R). (w.score ≡ s.score) ⊎ (R.lt w.score s.score ≡ true))
          (sym (weakest-cons s x xs true less))
          (inr (elim (weakest-below x xs) [
            | inl e ↦ ap (λ y. R.lt y s.score) e ∙ less
            | inr e ↦ R.lt_trans _ _ _ e less
          ]))
    | inr more ↦
        subst (λ (w : SessionResult R). (w.score ≡ s.score) ⊎ (R.lt w.score s.score ≡ true))
          (sym (weakest-cons s x xs false more)) (weakest-below s xs)
  ]

  not_below : (a b : R.F) → (b ≡ a) ⊎ (R.lt b a ≡ true) → R.lt a b ≡ false
  not_below a b (inl e) = ap (λ y. R.lt a y) e ∙ R.lt_irrefl a
  not_below a b (inr e) = elim (Bool-cases (R.lt a b)) [
    | inl f ↦ absurd (cc (R.lt_trans a b a f e, R.lt_irrefl a))
    | inr f ↦ f
  ]

  -- What is not below the earlier candidate is not below the weakest.
  not_below-weakest :
      (s x : SessionResult R) (w : R.F)
      → R.lt x.score s.score ≡ false
      → (w ≡ s.score) ⊎ (R.lt w s.score ≡ true)
      → R.lt x.score w ≡ false
  not_below-weakest s x w more (inl e) = ap (λ y. R.lt x.score y) e ∙ more
  not_below-weakest s x w more (inr e) = elim (Bool-cases (R.lt x.score w)) [
    | inl f ↦ absurd (cc (R.lt_trans x.score w s.score f e, more))
    | inr f ↦ f
  ]

  weakest-All :
      (s : SessionResult R) (xs : List (SessionResult R))
      → All (λ (x : SessionResult R). R.lt x.score (weakest s xs).score ≡ false) (s ∷ xs)
  unfolding weakest
  weakest-All s [] = (R.lt_irrefl s.score, tt)
  weakest-All s (x ∷ xs) = (
    not_below s.score (weakest s (x ∷ xs)).score (weakest-below s (x ∷ xs)),
    elim (Bool-cases (R.lt x.score s.score)) [
      | inl less ↦
          subst
            (λ (w : SessionResult R).
              All (λ (y : SessionResult R). R.lt y.score w.score ≡ false) (x ∷ xs))
            (sym (weakest-cons s x xs true less)) (weakest-All x xs)
      | inr more ↦
          subst
            (λ (w : SessionResult R).
              All (λ (y : SessionResult R). R.lt y.score w.score ≡ false) (x ∷ xs))
            (sym (weakest-cons s x xs false more))
            (
              not_below-weakest s x (weakest s xs).score more (weakest-below s xs),
              (weakest-All s xs).1,
            )
    ],
  )

  -- A session is one of a list.
  abbrev pub Occurs : SessionResult R → List (SessionResult R) → Type 0
  Occurs w [] = ⊥
  Occurs w (x ∷ xs) = (w ≡ x) ⊎ Occurs w xs

  weakest-Occurs :
      (s : SessionResult R) (xs : List (SessionResult R)) → Occurs (weakest s xs) (s ∷ xs)
  unfolding weakest
  weakest-Occurs s [] = inl refl
  weakest-Occurs s (x ∷ xs) = elim (Bool-cases (R.lt x.score s.score)) [
    | inl less ↦
        subst (λ (w : SessionResult R). Occurs w (s ∷ x ∷ xs)) (sym (weakest-cons s x xs true less))
          (inr (weakest-Occurs x xs))
    | inr more ↦
        subst (λ (w : SessionResult R). Occurs w (s ∷ x ∷ xs))
          (sym (weakest-cons s x xs false more))
          (elim (weakest-Occurs s xs) [ inl e ↦ inl e | inr o ↦ inr (inr o) ])
  ]

  totals-weakest :
      (t : Totals R) (s : SessionResult R) (ss : List (SessionResult R))
      → t.weakest_set ≡ true
      → t.weakest_score ≡ s.score
      → t.weakest_maneuver ≡ s.maneuver_type
      → (add_sessions R t ss).weakest_maneuver ≡ (weakest s ss).maneuver_type
  unfolding add_sessions add_session weakest
  totals-weakest t s [] set score name = name
  totals-weakest t s (x ∷ xs) set score name =
      totals-weakest (add_session R t x) (if R.lt x.score s.score then x else s) xs
        (ground (arith, set)) (ground (arith, set, score)) (ground (arith, set, score, name))

  -- The maneuver that `FinalizeTest` names as the weakest of a test with sessions is that of one of
  -- the test's sessions, and no session of the test scored less than that one.
  pub finalize_test-weakest :
      (start threshold : R.F) (s : SessionResult R) (ss : List (SessionResult R))
      → (w : SessionResult R) × ((finalize_test R start threshold (s ∷ ss)).weakest_maneuver
          ≡ w.maneuver_type)
        × Occurs w (s ∷ ss)
        × All (λ (x : SessionResult R). R.lt x.score w.score ≡ false) (s ∷ ss)
  unfolding finalize_test add_sessions add_session
  finalize_test-weakest start threshold s ss = (
    weakest s ss,
    totals-weakest (add_session R (no_totals R start) s) s ss refl refl refl,
    weakest-Occurs s ss,
    weakest-All s ss,
  )
