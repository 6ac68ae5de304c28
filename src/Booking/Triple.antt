-- ===== src/Booking/Triple.antt =====
-- Triples over the monad of the booking module: from tables with `P`, an operation that succeeds
-- leaves `Q` of its result, and one that fails, at whatever point, leaves `I`.
use adlts_core_engine.Prelude.{
  ℕ, ◌≡◌, refl, Bool, true, false, inl, inr, Option, none, some, if◌then◌else◌, Bool-cases,
}
use adlts_core_engine.Booking.Types.{Error}
use adlts_core_engine.Booking.World.{
  Tables, World, Env, Result, ok, err, M, pure, fail, and_then, ◌>>=◌, guard, or_error,
  replace_error, ignore, on_error, or_undo, when, from_option, fetch, exec, exec_unless, time_now,
  uuid_new,
}

abbrev pub Ends {ℓ} :
    {A : Type ℓ} → (Tables → Type 0) → (A → Tables → Type 0) → Result A × World → Type 0
Ends I Q (ok a, w) = Q a w.tables
Ends I Q (err e, w) = I w.tables

pub record Triple {ℓ} {A : Type ℓ} (I P : Tables → Type 0) (m : M A) (Q : A → Tables → Type 0)
    : Type ℓ where
  pub apply : (w : World) → P w.tables → Ends I Q (m w)

Ends-and_then {ℓ κ} :
    {A : Type ℓ} {B : Type κ} {I : Tables → Type 0} {R : A → Tables → Type 0}
    {Q : B → Tables → Type 0} {f : A → M B} (r : Result A × World)
    → Ends I R r
    → ((a : A) → Triple I (R a) (f a) Q)
    → Ends I Q (and_then r f)
Ends-and_then (ok a, w) h k = (k a).apply w h
Ends-and_then (err e, w) h k = h

Ends-replace_error {ℓ} :
    {A : Type ℓ} (I : Tables → Type 0) (Q : A → Tables → Type 0) (e : Error) (r : Result A × World)
    → Ends I Q r
    → Ends I Q (replace_error e r)
Ends-replace_error I Q e (ok a, w) h = h
Ends-replace_error I Q e (err _, w) h = h

Ends-weaken {ℓ} :
    {A : Type ℓ} (I : Tables → Type 0) {Q R : A → Tables → Type 0} (r : Result A × World)
    → ((a : A) (t : Tables) → R a t → Q a t)
    → Ends I R r
    → Ends I Q r
Ends-weaken I (ok a, w) h e = h a w.tables e
Ends-weaken I (err _, w) h e = e

Ends-ignore {ℓ} :
    {A : Type ℓ} {I : Tables → Type 0} {Q : A → Tables → Type 0} (r : Result A × World)
    → ((a : A) (t : Tables) → Q a t → I t)
    → Ends I Q r
    → I r.1.tables
Ends-ignore (ok a, w) h e = h a w.tables e
Ends-ignore (err _, w) h e = e

Ends-on_error {ℓ} :
    {A : Type ℓ} (I J : Tables → Type 0) (Q : A → Tables → Type 0) {undo : M (Unit {0})}
    (r : Result A × World)
    → Ends J Q r
    → Triple I J undo (λ _. I)
    → Ends I Q (on_error r undo)
Ends-on_error I J Q (ok a, w) h u = h
Ends-on_error I J Q {undo} (err e, w) h u = Ends-ignore (undo w) (λ _ _ i. i) (u.apply w h)

module _ {I P : Tables → Type 0} where
  module _ {ℓ} {A : Type ℓ} where
    pub pure_t :
        {Q : A → Tables → Type 0} (a : A) → ((t : Tables) → P t → Q a t) → Triple I P (pure a) Q
    pure_t a h = record { apply = λ w p. h w.tables p }

    pub fail_t :
        {Q : A → Tables → Type 0} (e : Error)
        → ((t : Tables) → P t → I t)
        → Triple I P (fail {A = A} e) Q
    fail_t e h = record { apply = λ w p. h w.tables p }

    pub bind_t {κ} :
        {B : Type κ} {m : M A} {f : A → M B} {R : A → Tables → Type 0} {Q : B → Tables → Type 0}
        → Triple I P m R
        → ((a : A) → Triple I (R a) (f a) Q)
        → Triple I P (m >>= f) Q
    bind_t {m} h k = record { apply = λ w p. Ends-and_then (m w) (h.apply w p) k }

    pub or_error_t :
        {m : M A} {Q : A → Tables → Type 0} (e : Error)
        → Triple I P m Q
        → Triple I P (or_error e m) Q
    or_error_t {m} {Q} e h = record { apply = λ w p. Ends-replace_error I Q e (m w) (h.apply w p) }

    pub weaken_t :
        {m : M A} {Q R : A → Tables → Type 0}
        → Triple I P m R
        → ((a : A) (t : Tables) → R a t → Q a t)
        → Triple I P m Q
    weaken_t {m} h k = record { apply = λ w p. Ends-weaken I (m w) k (h.apply w p) }

    -- What follows from the tables at the start, and is not about tables, may be used throughout.
    pub assume_t :
        {F : Type 0} {m : M A} {Q : A → Tables → Type 0}
        → ((t : Tables) → P t → F)
        → (F → Triple I P m Q)
        → Triple I P m Q
    assume_t fact k = record { apply = λ w p. (k (fact w.tables p)).apply w p }

    pub weaken_pre_t :
        {R : Tables → Type 0} {m : M A} {Q : A → Tables → Type 0}
        → ((t : Tables) → P t → R t)
        → Triple I R m Q
        → Triple I P m Q
    weaken_pre_t h k = record { apply = λ w p. k.apply w (h w.tables p) }

    pub if_t :
        {m n : M A} {Q : A → Tables → Type 0} (b : Bool)
        → Triple I P m Q
        → Triple I P n Q
        → Triple I P (if b then m else n) Q
    if_t true h k = h
    if_t false h k = k

    -- Forgets a fact.
    pub drop_t :
        {m : M A} {Q F : A → Tables → Type 0} → Triple I P m (λ a t. Q a t × F a t) → Triple I P m Q
    drop_t h = weaken_t h (λ a t k. k.0)

    pub ignore_t :
        {m : M A} {J : Tables → Type 0} → Triple J P m (λ _. J) → Triple I P (ignore m) (λ _. J)
    ignore_t {m} h = record { apply = λ w p. Ends-ignore (m w) (λ _ _ i. i) (h.apply w p) }

    pub or_undo_t :
        {J : Tables → Type 0} {m : M A} {Q : A → Tables → Type 0} {undo : M (Unit {0})}
        → Triple J P m Q
        → Triple I J undo (λ _. I)
        → Triple I P (or_undo m undo) Q
    or_undo_t {J} {m} {Q} h u = record { apply = λ w p. Ends-on_error I J Q (m w) (h.apply w p) u }

  module _ (weak : (t : Tables) → P t → I t) where
    -- What is known of the tables stays known, for these leave the tables alone.
    pub guard_t : (b : Bool) (e : Error) → Triple I P (guard b e) (λ _ t. P t × (b ≡ true))
    guard_t true e = record { apply = λ w p. (p, refl) }
    guard_t false e = record { apply = λ w p. weak w.tables p }

    pub checked_t : {A : Type 0} (r : Result A) → Triple I P (λ w. (r, w)) (λ a t. P t × (r ≡ ok a))
    checked_t (ok a) = record { apply = λ w p. (p, refl) }
    checked_t (err e) = record { apply = λ w p. weak w.tables p }

    pub from_option_t :
        {A : Type 0} (o : Option A) (e : Error)
        → Triple I P (from_option o e) (λ a t. P t × (o ≡ some a))
    from_option_t (some a) e = record { apply = λ w p. (p, refl) }
    from_option_t none e = record { apply = λ w p. weak w.tables p }

    module _ (env : Env) where
      pub fetch_t :
          {A : Type 0} (read : Tables → A) → Triple I P (fetch env read) (λ a t. P t × (a ≡ read t))
      unfolding fetch
      fetch_t read = record {
        apply = λ w p. elim (Bool-cases (env.query_fails w.tick)) [
          | inl e ↦ rw e (weak w.tables p)
          | inr e ↦ rw e (p, refl)
        ];
      }

      pub exec_unless_t :
          {Q : Unit {0} → Tables → Type 0} (blocked : Tables → Bool) (write : ℕ → Tables → Tables)
          → ((now : ℕ) (t : Tables) → P t → blocked t ≡ false → Q tt (write now t))
          → Triple I P (exec_unless env blocked write) Q
      unfolding exec_unless
      exec_unless_t blocked write h = record {
        apply = λ w p. elim (Bool-cases (env.query_fails w.tick)) [
          | inl e ↦ rw e (weak w.tables p)
          | inr e ↦ elim (Bool-cases (blocked w.tables)) [
            | inl b ↦ rw (e, b) (weak w.tables p)
            | inr b ↦ rw (e, b) (h (env.now w.tick) w.tables p b)
          ]
        ];
      }

      pub exec_t :
          {Q : Unit {0} → Tables → Type 0} (write : ℕ → Tables → Tables)
          → ((now : ℕ) (t : Tables) → P t → Q tt (write now t))
          → Triple I P (exec env write) Q
      unfolding exec
      exec_t write h = exec_unless_t (λ _. false) write (λ now t p _. h now t p)

  module _ (env : Env) where
    pub time_now_t : Triple I P (time_now env) (λ _. P)
    unfolding time_now
    time_now_t = record { apply = λ w p. p }

    pub uuid_new_t : Triple I P (uuid_new env) (λ _. P)
    unfolding uuid_new
    uuid_new_t = record { apply = λ w p. p }

pub when_t :
    {I : Tables → Type 0} {m : M (Unit {0})} (b : Bool)
    → Triple I I m (λ _. I)
    → Triple I I (when b m) (λ _. I)
when_t true h = h
when_t false h = record { apply = λ w p. p }

-- The tables behind an operation that leaves `I` either way.
pub tables_t {ℓ} :
    {A : Type ℓ} {I P : Tables → Type 0} {m : M A}
    → Triple I P m (λ _. I)
    → (w : World) → P w.tables
    → I (m w).1.tables
tables_t {m} h w p = Ends-ignore (m w) (λ _ _ i. i) (h.apply w p)
