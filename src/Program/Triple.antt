-- ===== src/Program/Triple.antt =====
-- Triples: from tables with `P`, a program that succeeds leaves `Q` of its result, and one that
-- fails, at whatever point, leaves `I` of its error.
use adlts_core_engine.Prelude.{
  ℕ, ◌≡◌, refl, subst, Bool, true, false, inl, inr, Option, none, some, Bool-cases,
}
use adlts_core_engine.Program.{
  State, Outcome, ok, err, Program, Host, pure, fail, lift, and_then, ◌>>=◌, guard, or_error,
  replace_error, recovered, recover, ignore, from_option, fetch, exec, exec_unless, exec_returning,
  ask,
}

module _ {S E : Type 0} where
  abbrev pub Ends {ℓ} :
      {A : Type ℓ} → (E → S → Type 0) → (A → S → Type 0) → Outcome E A × State S → Type 0
  Ends I Q (ok a, w) = Q a w.tables
  Ends I Q (err e, w) = I e w.tables

  pub record Triple {ℓ} {A : Type ℓ} (I : E → S → Type 0) (P : S → Type 0) (m : Program S E A)
      (Q : A → S → Type 0) : Type ℓ where
    pub apply : (w : State S) → P w.tables → Ends I Q (m w)

  Ends-and_then {ℓ κ} :
      {A : Type ℓ} {B : Type κ} {I : E → S → Type 0} {R : A → S → Type 0} {Q : B → S → Type 0}
      {f : A → Program S E B} (r : Outcome E A × State S)
      → Ends I R r
      → ((a : A) → Triple I (R a) (f a) Q)
      → Ends I Q (and_then r f)
  Ends-and_then (ok a, w) h k = (k a).apply w h
  Ends-and_then (err e, w) h k = h

  Ends-replace_error {ℓ} :
      {A : Type ℓ} (I J : E → S → Type 0) (Q : A → S → Type 0) (e : E) (r : Outcome E A × State S)
      → ((x : E) (t : S) → J x t → I e t)
      → Ends J Q r
      → Ends I Q (replace_error e r)
  Ends-replace_error I J Q e (ok a, w) k h = h
  Ends-replace_error I J Q e (err x, w) k h = k x w.tables h

  Ends-weaken {ℓ} :
      {A : Type ℓ} (I J : E → S → Type 0) {Q R : A → S → Type 0} (r : Outcome E A × State S)
      → ((e : E) (t : S) → J e t → I e t)
      → ((a : A) (t : S) → R a t → Q a t)
      → Ends J R r
      → Ends I Q r
  Ends-weaken I J (ok a, w) k h e = h a w.tables e
  Ends-weaken I J (err x, w) k h e = k x w.tables e

  Ends-ignore {ℓ} :
      {A : Type ℓ} (I : E → S → Type 0) (Q : A → S → Type 0) (J : S → Type 0)
      (r : Outcome E A × State S)
      → ((e : E) (t : S) → I e t → J t)
      → ((a : A) (t : S) → Q a t → J t)
      → Ends I Q r
      → J r.1.tables
  Ends-ignore I Q J (ok a, w) k h e = h a w.tables e
  Ends-ignore I Q J (err x, w) k h e = k x w.tables e

  Ends-recovered {ℓ} :
      {A : Type ℓ} (I J : E → S → Type 0) (Q : A → S → Type 0) (d : A) (r : Outcome E A × State S)
      → ((e : E) (t : S) → J e t → Q d t)
      → Ends J Q r
      → Ends I Q (recovered d r)
  Ends-recovered I J Q d (ok a, w) k h = h
  Ends-recovered I J Q d (err e, w) k h = k e w.tables h

  module _ {I : E → S → Type 0} {P : S → Type 0} where
    module _ {ℓ} {A : Type ℓ} where
      pub pure_t : {Q : A → S → Type 0} (a : A) → ((t : S) → P t → Q a t) → Triple I P (pure a) Q
      pure_t a h = record { apply = λ w p. h w.tables p }

      pub fail_t :
          {Q : A → S → Type 0} (e : E) → ((t : S) → P t → I e t) → Triple I P (fail {A = A} e) Q
      fail_t e h = record { apply = λ w p. h w.tables p }

      pub bind_t {κ} :
          {B : Type κ} {m : Program S E A} {f : A → Program S E B} {R : A → S → Type 0}
          {Q : B → S → Type 0}
          → Triple I P m R
          → ((a : A) → Triple I (R a) (f a) Q)
          → Triple I P (m >>= f) Q
      bind_t {m} h k = record { apply = λ w p. Ends-and_then (m w) (h.apply w p) k }

      pub or_error_t :
          {J : E → S → Type 0} {m : Program S E A} {Q : A → S → Type 0} (e : E)
          → ((x : E) (t : S) → J x t → I e t)
          → Triple J P m Q
          → Triple I P (or_error e m) Q
      or_error_t {J} {m} {Q} e k h = record {
        apply = λ w p. Ends-replace_error I J Q e (m w) k (h.apply w p);
      }

      pub weaken_t :
          {m : Program S E A} {Q R : A → S → Type 0}
          → Triple I P m R
          → ((a : A) (t : S) → R a t → Q a t)
          → Triple I P m Q
      weaken_t {m} h k = record {
        apply = λ w p. Ends-weaken I I (m w) (λ _ _ i. i) k (h.apply w p);
      }

      pub weaken_error_t :
          {J : E → S → Type 0} {m : Program S E A} {Q : A → S → Type 0}
          → ((x : E) (t : S) → J x t → I x t)
          → Triple J P m Q
          → Triple I P m Q
      weaken_error_t {J} {m} k h = record {
        apply = λ w p. Ends-weaken I J (m w) k (λ _ _ q. q) (h.apply w p);
      }

      pub weaken_pre_t :
          {R : S → Type 0} {m : Program S E A} {Q : A → S → Type 0}
          → ((t : S) → P t → R t)
          → Triple I R m Q
          → Triple I P m Q
      weaken_pre_t h k = record { apply = λ w p. k.apply w (h w.tables p) }

      -- What follows from the tables at the start, and is not about tables, may be used throughout.
      pub assume_t :
          {F : Type 0} {m : Program S E A} {Q : A → S → Type 0}
          → ((t : S) → P t → F)
          → (F → Triple I P m Q)
          → Triple I P m Q
      assume_t fact k = record { apply = λ w p. (k (fact w.tables p)).apply w p }

      pub ignore_t :
          {J : E → S → Type 0} {K : S → Type 0} {m : Program S E A} {Q : A → S → Type 0}
          → Triple J P m Q
          → ((e : E) (t : S) → J e t → K t)
          → ((a : A) (t : S) → Q a t → K t)
          → Triple I P (ignore m) (λ _. K)
      ignore_t {J} {K} {m} {Q} h k q = record {
        apply = λ w p. Ends-ignore J Q K (m w) k q (h.apply w p);
      }

      pub recover_t :
          {J : E → S → Type 0} {m : Program S E A} {Q : A → S → Type 0} (d : A)
          → ((e : E) (t : S) → J e t → Q d t)
          → Triple J P m Q
          → Triple I P (recover d m) Q
      recover_t {J} {m} {Q} d k h = record {
        apply = λ w p. Ends-recovered I J Q d (m w) k (h.apply w p);
      }

      pub ask_t : (answer : ℕ → A) → Triple I P (ask answer) (λ _. P)
      ask_t answer = record { apply = λ w p. p }

    -- The same, where it matters that the answer is one from outside.
    pub answered_t :
        {A : Type 0} (answer : ℕ → A)
        → Triple I P (ask answer) (λ a t. P t × ((n : ℕ) × (a ≡ answer n)))
    answered_t answer = record { apply = λ w p. (p, (w.tick, refl)) }

    pub guard_t :
        (b : Bool) (e : E)
        → ((t : S) → P t → b ≡ false → I e t)
        → Triple I P (guard b e) (λ _ t. P t × (b ≡ true))
    guard_t true e weak = record { apply = λ w p. (p, refl) }
    guard_t false e weak = record { apply = λ w p. weak w.tables p refl }

    pub lift_t :
        {A : Type 0} (r : Outcome E A)
        → ((e : E) (t : S) → P t → r ≡ err e → I e t)
        → Triple I P (lift r) (λ a t. P t × (r ≡ ok a))
    lift_t (ok a) weak = record { apply = λ w p. (p, refl) }
    lift_t (err e) weak = record { apply = λ w p. weak e w.tables p refl }

    pub from_option_t :
        {A : Type 0} (o : Option A) (e : E)
        → ((t : S) → P t → o ≡ none → I e t)
        → Triple I P (from_option o e) (λ a t. P t × (o ≡ some a))
    from_option_t (some a) e weak = record { apply = λ w p. (p, refl) }
    from_option_t none e weak = record { apply = λ w p. weak w.tables p refl }

    module _ (host : Host) (database : E) (weak : (t : S) → P t → I database t) where
      pub fetch_t :
          {A : Type 0} (read : S → A)
          → Triple I P (fetch host database read) (λ a t. P t × (a ≡ read t))
      unfolding fetch
      fetch_t read = record {
        apply = λ w p. elim (Bool-cases (host.query_fails w.tick)) [
          | inl e ↦ rw e (weak w.tables p)
          | inr e ↦ rw e (p, refl)
        ];
      }

      pub exec_unless_t :
          {Q : Unit {0} → S → Type 0} (blocked : S → Bool) (write : ℕ → S → S)
          → ((now : ℕ) (t : S) → P t → blocked t ≡ false → Q tt (write now t))
          → Triple I P (exec_unless host database blocked write) Q
      unfolding exec_unless
      exec_unless_t blocked write h = record {
        apply = λ w p. elim (Bool-cases (host.query_fails w.tick)) [
          | inl e ↦ rw e (weak w.tables p)
          | inr e ↦ elim (Bool-cases (blocked w.tables)) [
            | inl b ↦ rw (e, b) (weak w.tables p)
            | inr b ↦ rw (e, b) (h (host.now w.tick) w.tables p b)
          ]
        ];
      }

      pub exec_t :
          {Q : Unit {0} → S → Type 0} (write : ℕ → S → S)
          → ((now : ℕ) (t : S) → P t → Q tt (write now t))
          → Triple I P (exec host database write) Q
      unfolding exec
      exec_t write h = exec_unless_t (λ _. false) write (λ now t p _. h now t p)

      pub exec_returning_t :
          {A : Type 0} {Q : A → S → Type 0} (read : S → A) (write : ℕ → S → S)
          → ((now : ℕ) (t : S) → P t → Q (read t) (write now t))
          → Triple I P (exec_returning host database read write) Q
      unfolding exec_returning
      exec_returning_t read write h = record {
        apply = λ w p. elim (Bool-cases (host.query_fails w.tick)) [
          | inl e ↦ rw e (weak w.tables p)
          | inr e ↦ rw e (h (host.now w.tick) w.tables p)
        ];
      }

-- What is known of a run whose end is known.
pub run_t {ℓ} :
    {S E : Type 0} {A : Type ℓ} {I : E → S → Type 0} {P : S → Type 0} {m : Program S E A}
    {Q : A → S → Type 0} {r : Outcome E A × State S} (w : State S)
    → Triple I P m Q
    → P w.tables
    → m w ≡ r
    → Ends I Q r
run_t {I} {Q} w h p e = subst (Ends I Q) e (h.apply w p)
