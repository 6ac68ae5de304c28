-- ===== src/Booking/Proof.antt =====
-- No booking is paid without proof of payment, whichever queries fail.
use adlts_core_engine.Prelude.{
  ℕ, ◌≡◌, ◌≢◌, refl, subst, inl, inr, ◌⊎◌, true, false, not, List, [], ◌∷◌, some, Text, All,
  All-update_by, is_empty, trim_space, ◌==◌, ==_iff, if◌then◌else◌, Bool-cases,
}
use adlts_core_engine.Booking.Types.{
  BookingRow, Payment, PaymentStatus, AttemptStatus, BookingStatus, payment_not_found,
  payment_provider, payment_verification_mismatch, payment_failed, payment_pending,
}
use adlts_core_engine.Booking.Chapa.{ChapaStatus, normalize_chapa_status}
use adlts_core_engine.Booking.World.{
  Tables, World, Env, Result, ok, err, ticked, PaymentVerifyResult, replace_error,
}
use adlts_core_engine.Booking.Repository.{
  set_status, set_payment_status, latest_by_ref, update_booking_fields, update_payment_status,
}
use adlts_core_engine.Booking.Service.{
  is_paid, is_success, is_pending, matches_payment, provider_verify, confirm_payment, fail_payment,
  keep_payment_pending, settle, verify_and_settle, handle_chapa_transaction,
}
use adlts_core_engine.Booking.Triple.{
  Ends, Triple, bind_t, pure_t, drop_t, assume_t, or_error_t, guard_t, exec_t, time_now_t, when_t,
  weaken_pre_t, tables_t,
}
use adlts_core_engine.Booking.Reads.{payment_by_provider_ref_t}
use adlts_core_engine.Booking.Settlement.{Reports}

-- The booking is not paid.
abbrev pub NotPaid : ℕ → Tables → Type 0
NotPaid id t = All (λ (b : BookingRow). b.id ≡ id → is_paid b.payment_status ≡ false) t.bookings

-- What entitles a transaction to confirm a booking: its payment is a success already, or the
-- gateway reports one that agrees with it.
abbrev pub PaymentProof : Env → Text → Payment → Type 0
PaymentProof env ref p =
    (is_success p.status ≡ true) ⊎ ((tick : ℕ) × Reports env tick ref p ChapaStatus.success)

module _ (env : Env) (id : ℕ) where
  unchanged : (t : Tables) → NotPaid id t → NotPaid id t
  unchanged t h = h

  status_t :
      (payment : ℕ) (s : AttemptStatus)
      → Triple (NotPaid id) (NotPaid id) (update_payment_status env payment s) (λ _. NotPaid id)
  unfolding update_payment_status
  status_t payment s = bind_t (time_now_t env) λ now. exec_t unchanged env _ λ _ t h. h

  unpaid_t :
      (booking : ℕ) (s : BookingStatus) (v : PaymentStatus)
      → is_paid v ≡ false
      → Triple
          (NotPaid id)
          (NotPaid id)
          (update_booking_fields env booking (set_status s ∷ set_payment_status v ∷ []) 0)
          (λ _. NotPaid id)
  unfolding update_booking_fields
  unpaid_t booking s v free =
      exec_t unchanged env _
        λ now t h. All-update_by (λ (b : BookingRow). b.id) _ booking _ t.bookings (λ b k e. free) h

  verify_t :
      (ref : Text)
      → Triple
          (NotPaid id)
          (NotPaid id)
          (provider_verify env ref)
          (λ v t. NotPaid id t × ((tick : ℕ) × (env.provider.verify_transaction tick ref ≡ ok v)))
  unfolding provider_verify
  verify_t ref = record { apply = λ w h. go w h (env.provider.verify_transaction w.tick ref) refl }
    where
      go :
          (w : World)
          → NotPaid id w.tables
          → (r : Result PaymentVerifyResult) → env.provider.verify_transaction w.tick ref ≡ r
          → Ends
              (NotPaid id)
              (λ v t.
                NotPaid id t × ((tick : ℕ) × (env.provider.verify_transaction tick ref ≡ ok v)))
              (replace_error payment_provider (r, ticked w))
      go w h (ok v) e = (h, (w.tick, e))
      go w h (err x) e = h

  settle_t :
      (p : Payment) (ref : Text) (s : ChapaStatus)
      → s ≢ ChapaStatus.success
      → Triple (NotPaid id) (NotPaid id) (settle env p ref s) (λ _. NotPaid id)
  unfolding settle fail_payment keep_payment_pending
  settle_t p ref ChapaStatus.success ne = absurd (ne refl)
  settle_t p ref ChapaStatus.failed ne =
      bind_t (status_t p.id AttemptStatus.failed)
        λ _. unpaid_t p.booking_id payment_failed PaymentStatus.failed refl
  settle_t p ref ChapaStatus.pending ne =
      bind_t (when_t (not (is_pending p.status)) (status_t p.id AttemptStatus.pending))
        λ _. unpaid_t p.booking_id payment_pending PaymentStatus.pending refl
  settle_t p ref (ChapaStatus.other s) ne = pure_t tt unchanged

  settles_t :
      (ref : Text) (p : Payment)
      → ¬ PaymentProof env ref p
      → Triple
          (NotPaid id)
          (NotPaid id)
          (if is_success p.status then confirm_payment env p ref else verify_and_settle env p ref)
          (λ _. NotPaid id)
  unfolding verify_and_settle
  settles_t ref p no_proof = elim (Bool-cases (is_success p.status)) [
    | inl won ↦ absurd (no_proof (inl won))
    | inr lost ↦ rw lost (
        bind_t (verify_t ref) λ v.
          bind_t (guard_t (λ t h. h.0) (matches_payment p ref v) payment_verification_mismatch) λ _.
            assume_t (λ t h. h.0.1)
              λ answer.
                assume_t (λ t h. h.1)
                  λ agrees.
                    weaken_pre_t (λ t h. h.0.0)
                      (settle_t p ref (normalize_chapa_status v.status) λ e. no_proof (
                        inr (
                          answer.0,
                          record {
                            verified = v;
                            answered = answer.1;
                            agrees = agrees;
                            reported = e;
                          },
                        ))))
  ]

  handle_t :
      (payments : List Payment) (raw : Text)
      → ((p : Payment)
          → latest_by_ref (trim_space raw) payments ≡ some p
          → p.booking_id ≡ id
          → ¬ PaymentProof env (trim_space raw) p)
      → Triple
          (NotPaid id)
          (λ t. NotPaid id t × (t.payments ≡ payments))
          (handle_chapa_transaction env id raw)
          (λ _. NotPaid id)
  unfolding handle_chapa_transaction
  handle_t payments raw no_proof =
      let ref = trim_space raw in
      bind_t (drop_t (guard_t (λ t h. h.0) (not (is_empty ref)) payment_not_found)) λ _.
        bind_t (or_error_t payment_not_found (payment_by_provider_ref_t (λ t h. h.0) env ref)) λ p.
          bind_t (guard_t (λ t h. h.0.0) (p.booking_id == id) payment_not_found) λ _.
            assume_t (λ t h. subst (λ ps. latest_by_ref ref ps ≡ some p) h.0.0.1 h.0.1)
              λ found.
                assume_t (λ t h. (==_iff p.booking_id id).0 h.1)
                  λ own. weaken_pre_t (λ t h. h.0.0.0) (settles_t ref p (no_proof p found own))

-- Whichever queries fail, a transaction makes a booking paid only with proof of payment: a booking
-- that was not paid stays so unless the payment found for it is a success already, or the gateway
-- reports a success that agrees with it in reference, currency and amount.
pub handle_chapa_transaction-needs_proof :
    (env : Env) (w : World) (id : ℕ) (ref : Text)
    → ((p : Payment)
        → latest_by_ref (trim_space ref) w.payments ≡ some p
        → p.booking_id ≡ id
        → ¬ PaymentProof env (trim_space ref) p)
    → NotPaid id w.tables
    → NotPaid id (handle_chapa_transaction env id ref w).1.tables
handle_chapa_transaction-needs_proof env w id ref no_proof free =
    tables_t (handle_t env id w.payments ref no_proof) w (free, refl)
