-- ===== src/Booking/Reads.antt =====
-- Triples for the queries that only read: what is known of the tables stays known, and a row that
-- is returned is the row of the table.
use adlts_core_engine.Prelude.{arith, ℕ, ◌≡◌, sym, ◌∙◌, Option, none, some, Text}
use adlts_core_engine.Booking.Types.{
  BookingRow, Booking, booking_not_found, slot_not_found, payment_not_found, candidate_not_found,
  test_center_not_set,
}
use adlts_core_engine.Booking.World.{Tables, Env}
use adlts_core_engine.Booking.Repository.{
  map_some, joined, booking_row, slot_row, latest_attempt, latest_by_ref, booking_by_id, slot_by_id,
  latest_payment_attempt_number, payment_by_provider_ref, institute_exists, candidate_status_by_id,
  candidate_contact_by_id, test_creation_details,
}
use adlts_core_engine.Booking.Triple.{Triple, bind_t, pure_t, weaken_t, fetch_t, from_option_t}

joined-row :
    (t : Tables) (o : Option BookingRow) (b : Booking)
    → map_some (joined t) o ≡ some b
    → o ≡ some b.row
unfolding joined
joined-row t none b e = cc
joined-row t (some r) b e = ground arith

module _ {I P : Tables → Type 0} (weak : (t : Tables) → P t → I t) (env : Env) where
  pub booking_by_id_t :
      (id : ℕ) → Triple I P (booking_by_id env id) (λ b t. P t × (booking_row id t ≡ some b.row))
  unfolding booking_by_id
  booking_by_id_t id =
      bind_t (fetch_t weak env (λ t. map_some (joined t) (booking_row id t))) λ found.
        weaken_t (from_option_t (λ t h. weak t h.0) found booking_not_found)
          λ b t h. (h.0.0, joined-row t (booking_row id t) b (sym h.0.1 ∙ h.1))

  pub slot_by_id_t :
      (id : ℕ) → Triple I P (slot_by_id env id) (λ s t. P t × (slot_row id t ≡ some s))
  unfolding slot_by_id
  slot_by_id_t id = bind_t (fetch_t weak env (slot_row id)) λ found.
      weaken_t (from_option_t (λ t h. weak t h.0) found slot_not_found)
        λ s t h. (h.0.0, sym h.0.1 ∙ h.1)

  pub payment_by_provider_ref_t :
      (ref : Text)
      → Triple I P
          (payment_by_provider_ref env ref)
          (λ p t. P t × (latest_by_ref ref t.payments ≡ some p))
  unfolding payment_by_provider_ref
  payment_by_provider_ref_t ref =
      bind_t (fetch_t weak env (λ t. latest_by_ref ref t.payments)) λ found.
        weaken_t (from_option_t (λ t h. weak t h.0) found payment_not_found)
          λ p t h. (h.0.0, sym h.0.1 ∙ h.1)

  pub latest_payment_attempt_number_t :
      (id : ℕ)
      → Triple I P
          (latest_payment_attempt_number env id)
          (λ n t. P t × (n ≡ latest_attempt id t.payments))
  unfolding latest_payment_attempt_number
  latest_payment_attempt_number_t id = fetch_t weak env (λ t. latest_attempt id t.payments)

  pub institute_exists_t : (id : ℕ) → Triple I P (institute_exists env id) (λ _. P)
  unfolding institute_exists
  institute_exists_t id = weaken_t (fetch_t weak env _) (λ _ t h. h.0)

  pub candidate_status_by_id_t : (id : ℕ) → Triple I P (candidate_status_by_id env id) (λ _. P)
  unfolding candidate_status_by_id
  candidate_status_by_id_t id = bind_t (fetch_t weak env _) λ found.
      bind_t (from_option_t (λ t h. weak t h.0) found candidate_not_found)
        λ c. pure_t c.status (λ t h. h.0.0)

  pub candidate_contact_by_id_t : (id : ℕ) → Triple I P (candidate_contact_by_id env id) (λ _. P)
  unfolding candidate_contact_by_id
  candidate_contact_by_id_t id = bind_t (fetch_t weak env _) λ found.
      weaken_t (from_option_t (λ t h. weak t h.0) found candidate_not_found) (λ _ t h. h.0.0)

  pub test_creation_details_t : (id : ℕ) → Triple I P (test_creation_details env id) (λ _. P)
  unfolding test_creation_details
  test_creation_details_t id = bind_t (fetch_t weak env _) λ found.
      bind_t (from_option_t (λ t h. weak t h.0) found booking_not_found) λ details.
        weaken_t (from_option_t (λ t h. weak t h.0.0) details test_center_not_set)
          (λ _ t h. h.0.0.0)
