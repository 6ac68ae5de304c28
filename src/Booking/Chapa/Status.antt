-- ===== src/Booking/Chapa/Status.antt =====
-- `normalizeChapaStatus` does not depend on case or on surrounding space.
use adlts_core_engine.Prelude.{
  ℕ, ◌≡◌, refl, ap, ◌∙◌, inl, inr, true, [], ◌∷◌, ◌++◌, map, Text, is_space, to_lower, trim_left,
  trim_right, trim_space, Bool-cases, arith,
}
use adlts_core_engine.Booking.Chapa.{classify, normalize_chapa_status}

is_space-to_lower : (c : ℕ) → is_space (to_lower c) ≡ is_space c
unfolding is_space to_lower
is_space-to_lower c = ground arith

to_lower_idem : (c : ℕ) → to_lower (to_lower c) ≡ to_lower c
unfolding to_lower
to_lower_idem c = ground arith

map-to_lower_idem : (s : Text) → map to_lower (map to_lower s) ≡ map to_lower s
map-to_lower_idem [] = refl
map-to_lower_idem (c ∷ s) = cc (to_lower_idem c, map-to_lower_idem s)

trim_left-map :
    (s : Text) → trim_left is_space (map to_lower s) ≡ map to_lower (trim_left is_space s)
unfolding trim_left
trim_left-map [] = refl
trim_left-map (c ∷ s) = ground (arith, is_space-to_lower c, trim_left-map s)

trim_right-map :
    (s : Text) → trim_right is_space (map to_lower s) ≡ map to_lower (trim_right is_space s)
unfolding trim_right
trim_right-map [] = refl
trim_right-map (c ∷ s) = ground (arith, is_space-to_lower c, trim_right-map s)

trim_space-map : (s : Text) → trim_space (map to_lower s) ≡ map to_lower (trim_space s)
unfolding trim_space
trim_space-map s = rw (trim_left-map s) (trim_right-map (trim_left is_space s))

-- A space at the end goes, also where nothing but space stands before it.
trim_right-snoc :
    (s : Text) (c : ℕ)
    → is_space c ≡ true
    → trim_right is_space (s ++ c ∷ []) ≡ trim_right is_space s
unfolding trim_right
trim_right-snoc [] c h = ground arith
trim_right-snoc (d ∷ s) c h = ground (arith, trim_right-snoc s c h)

trim-snoc :
    (s : Text) (c : ℕ)
    → is_space c ≡ true
    → trim_right is_space (trim_left is_space (s ++ c ∷ []))
      ≡ trim_right is_space (trim_left is_space s)
unfolding trim_left
trim-snoc [] c h = rw h
trim-snoc (d ∷ s) c h = elim (Bool-cases (is_space d)) [
  | inl e ↦ rw e (trim-snoc s c h)
  | inr e ↦ rw e (trim_right-snoc (d ∷ s) c h)
]

-- A status is read the same with its ASCII letters in lower case, with a space before it, and with
-- a space behind it.
normalize_chapa_status-forms :
    (s : Text) (before behind : ℕ)
    → is_space before ≡ true
    → is_space behind ≡ true
    → (normalize_chapa_status (map to_lower s) ≡ normalize_chapa_status s)
      × (normalize_chapa_status (before ∷ s) ≡ normalize_chapa_status s)
      × (normalize_chapa_status (s ++ behind ∷ []) ≡ normalize_chapa_status s)
unfolding normalize_chapa_status trim_space trim_left
normalize_chapa_status-forms s a b ha hb = (
  ap classify (ap (map to_lower) (trim_space-map s) ∙ map-to_lower_idem (trim_space s)),
  rw ha,
  ap (λ t. classify (map to_lower t)) (trim-snoc s b hb),
)
