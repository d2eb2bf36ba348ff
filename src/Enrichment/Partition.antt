-- ===== src/Enrichment/Partition.antt =====
-- What the filter keeps, and that it loses nothing.
use nativ.Prelude.{
  ℕ, String, ◌≡◌, refl, Bool, ◌&&◌, not, Option, List, [], ◌∷◌, arith, keep, if◌then◌else◌, ltb,
  Bool-cases, inl, inr,
}
use nativ.Json.{Fields}
use nativ.Enrichment.{
  QualifiedContact, existing_of, has_opted_out, cools_down, turn, apply_contact_filters,
}

module _ (parse_iso : String → Option ℕ) (now days : ℕ) (talent_id : Option String) (threshold : ℕ)
    (workflow : Fields) where
  -- What a contact must be to be kept.
  abbrev pub is_pitchable : QualifiedContact → Bool
  is_pitchable q =
      not (has_opted_out (existing_of workflow q))
      && not (ltb q.qualification_score threshold)
      && not (cools_down parse_iso now days talent_id (existing_of workflow q))

  turn_lem :
      (q : QualifiedContact) (kept blocked : List QualifiedContact)
      → turn parse_iso now days talent_id threshold workflow q (kept, blocked)
        ≡ (if is_pitchable q then (q ∷ kept, blocked) else (kept, q ∷ blocked))
  unfolding turn
  turn_lem q kept blocked = ground arith

  -- The filter keeps, in their order, the contacts that have not opted out, whose score reaches the
  -- threshold and that are not in their cooldown; it blocks the others, in their order.
  apply_contact_filters-keep :
      (qs : List QualifiedContact)
      → apply_contact_filters parse_iso now days talent_id threshold workflow qs
        ≡ (keep is_pitchable qs, keep (λ q. not (is_pitchable q)) qs)
  unfolding apply_contact_filters keep
  apply_contact_filters-keep [] = refl
  apply_contact_filters-keep (q ∷ qs) = elim (Bool-cases (is_pitchable q)) [
    | inl yes_kept ↦ rw (apply_contact_filters-keep qs, turn_lem, yes_kept) refl
    | inr not_kept ↦ rw (apply_contact_filters-keep qs, turn_lem, not_kept) refl
  ]
