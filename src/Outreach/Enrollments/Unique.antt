-- ===== src/Outreach/Enrollments/Unique.antt =====
-- A row that is written back keeps the identifiers of the table unique.
use nativ.Prelude.{
  String, ◌≡◌, refl, sym, ap, ◌∙◌, true, ◌||◌, List, [], ◌∷◌, Bool-cases, inl, inr, ◌=s◌,
}
use nativ.Outreach.Rows.{Enrollment}
use nativ.Outreach.Enrollments.{is_row, write_enrollment}
use nativ.Outreach.Enrollments.Kills.{has_id, KeyIsUnique}
use nativ.Outreach.Enrollments.Written.{is_row-id}

module _ (agency pk : String) (e' : Enrollment) (k : is_row agency pk e' ≡ true) where
  same_id : (x : Enrollment) → is_row agency pk x ≡ true → e'.enrollment_id ≡ x.enrollment_id
  same_id x hit = is_row-id agency pk e' k ∙ sym (is_row-id agency pk x hit)

  has_id-written :
      (key : String) (rows : List Enrollment)
      → has_id key (write_enrollment agency pk (λ _. e') rows) ≡ has_id key rows
  unfolding write_enrollment
  has_id-written key [] = refl
  has_id-written key (x ∷ rows) = elim (Bool-cases (is_row agency pk x)) [
    | inl hit ↦ rw hit (ap (λ i. i =s key || has_id key rows) (same_id x hit))
    | inr miss ↦ rw miss (ap (λ b. x.enrollment_id =s key || b) (has_id-written key rows))
  ]

  pub KeyIsUnique-written :
      (rows : List Enrollment)
      → KeyIsUnique rows
      → KeyIsUnique (write_enrollment agency pk (λ _. e') rows)
  unfolding write_enrollment
  KeyIsUnique-written [] u = tt
  KeyIsUnique-written (x ∷ rows) u = elim (Bool-cases (is_row agency pk x)) [
    | inl hit ↦ rw hit (ap (λ i. has_id i rows) (same_id x hit) ∙ u.0, u.1)
    | inr miss ↦ rw miss (has_id-written x.enrollment_id rows ∙ u.0, KeyIsUnique-written rows u.1)
  ]
