-- ===== src/Outreach/Enrollments/Written.antt =====
-- A row that a repository call read, changed and wrote back.
use nativ.Prelude.{
  String, ◌≡◌, refl, ap, ◌∙◌, true, false, some, List, [], ◌∷◌, arith, Bool-cases, inl, inr, ◌=s◌,
  eq_iff, if◌then◌else◌,
}
use nativ.Outreach.Rows.{Enrollment}
use nativ.Outreach.Enrollments.{is_row, find_enrollment, write_enrollment}

module _ (agency pk : String) where
  pub find-key :
      (rows : List Enrollment) (e : Enrollment)
      → find_enrollment agency pk rows ≡ some e
      → is_row agency pk e ≡ true
  unfolding find_enrollment
  find-key [] e h = cc
  find-key (x ∷ rows) e h = elim (Bool-cases (is_row agency pk x)) [
    | inl hit ↦ ground (arith, hit, h)
    | inr miss ↦ ground (arith, find-key rows e, miss, h)
  ]

  pub find-write :
      (rows : List Enrollment) (e e' : Enrollment)
      → find_enrollment agency pk rows ≡ some e
      → is_row agency pk e' ≡ is_row agency pk e
      → find_enrollment agency pk (write_enrollment agency pk (λ _. e') rows) ≡ some e'
  unfolding find_enrollment write_enrollment
  find-write [] e e' h k = cc
  find-write (x ∷ rows) e e' h k = elim (Bool-cases (is_row agency pk x)) [
    | inl hit ↦ rw hit (rw (k ∙ find-key (x ∷ rows) e h) refl)
    | inr miss ↦ rw (miss, miss) (find-write rows e e' (ground (arith, miss, h)) k)
  ]

  pub write-write :
      (rows : List Enrollment) (e' : Enrollment)
      → is_row agency pk e' ≡ true
      → write_enrollment agency pk (λ _. e') (write_enrollment agency pk (λ _. e') rows)
        ≡ write_enrollment agency pk (λ _. e') rows
  unfolding write_enrollment
  write-write [] e' k = refl
  write-write (x ∷ rows) e' k = elim (Bool-cases (is_row agency pk x)) [
    | inl hit ↦ rw (hit, k) refl
    | inr miss ↦ rw (miss, miss) (ap (λ l. x ∷ l) (write-write rows e' k))
  ]

  is_row_other :
      (other : String) (x : Enrollment)
      → x.enrollment_id ≡ pk
      → (pk =s other) ≡ false
      → is_row agency other x ≡ false
  unfolding is_row
  is_row_other other x k ne = rw (k, ne) (ground arith)

  pub is_row-id : (x : Enrollment) → is_row agency pk x ≡ true → x.enrollment_id ≡ pk
  unfolding is_row
  is_row-id x h = (eq_iff x.enrollment_id pk).0 (ground arith)

  -- Another key's row is not touched.
  pub find-write_other :
      (other : String) (rows : List Enrollment) (e' : Enrollment)
      → (pk =s other) ≡ false
      → e'.enrollment_id ≡ pk
      → find_enrollment agency other (write_enrollment agency pk (λ _. e') rows)
        ≡ find_enrollment agency other rows
  unfolding find_enrollment write_enrollment
  find-write_other other [] e' ne k = refl
  find-write_other other (x ∷ rows) e' ne k = elim (Bool-cases (is_row agency pk x)) [
    | inl hit ↦ rw (hit, is_row_other other e' k ne, is_row_other other x (is_row-id x hit) ne) refl
    | inr miss ↦ rw miss (
        ap (λ o. if is_row agency other x then some x else o) (find-write_other other rows e' ne k))
  ]
