-- ===== src/Outreach/Replies/Reads.antt =====
-- Reading a row back after the writes that a reply makes.
use nativ.Prelude.{
  String, ◌≡◌, refl, ap, ◌∙◌, true, some, List, [], ◌∷◌, arith, Bool-cases, inl, inr,
}
use nativ.Json.{get}
use nativ.Outreach.Rows.{Enrollment, Contact}
use nativ.Outreach.Enrollments.{is_row, find_enrollment, write_enrollment}
use nativ.Outreach.Contacts.{
  is_contact, find_contact, write_contact, opted_out, patched_contact, set_scalar_columns,
  sync_flag,
}
use nativ.Json.{has}
use nativ.Json.Merge.{get-deep_merge}
use nativ.Outreach.Contacts.Runs.{merge_value-flag}

-- A change of a row that keeps the columns that a read by key looks at.
abbrev pub Keeps : (Enrollment → Enrollment) → Type 0
Keeps f =
    (e : Enrollment)
    → ((f e).enrollment_id ≡ e.enrollment_id)
      × ((f e).agency_id ≡ e.agency_id)
      × ((f e).is_deleted ≡ e.is_deleted)

is_row-Keeps :
    (agency pk : String) (f : Enrollment → Enrollment) (e : Enrollment)
    → Keeps f
    → is_row agency pk (f e) ≡ is_row agency pk e
unfolding is_row
is_row-Keeps agency pk f e k = rw ((k e).0, (k e).1, (k e).2) refl

pub find_enrollment-write :
    (agency pk : String) (f : Enrollment → Enrollment) (rows : List Enrollment) (e : Enrollment)
    → Keeps f
    → find_enrollment agency pk rows ≡ some e
    → find_enrollment agency pk (write_enrollment agency pk f rows) ≡ some (f e)
unfolding find_enrollment write_enrollment
find_enrollment-write agency pk f [] e k h = cc
find_enrollment-write agency pk f (x ∷ rows) e k h = elim (Bool-cases (is_row agency pk x)) [
  | inl hit ↦ ground (arith, is_row-Keeps agency pk f x k, hit, h)
  | inr miss ↦ ground (arith, find_enrollment-write agency pk f rows e k, miss, h)
]

pub find_enrollment-key :
    (agency pk : String) (rows : List Enrollment) (e : Enrollment)
    → find_enrollment agency pk rows ≡ some e
    → is_row agency pk e ≡ true
unfolding find_enrollment
find_enrollment-key agency pk [] e h = cc
find_enrollment-key agency pk (x ∷ rows) e h = elim (Bool-cases (is_row agency pk x)) [
  | inl hit ↦ ground (arith, hit, h)
  | inr miss ↦ ground (arith, find_enrollment-key agency pk rows e, miss, h)
]

module _ (reason at : String) where
  opted_out_key :
      (agency pk : String) (c : Contact)
      → is_contact agency pk (opted_out reason at c) ≡ is_contact agency pk c
  unfolding opted_out patched_contact set_scalar_columns is_contact
  opted_out_key agency pk c = refl

  pub find_contact-opted_out :
      (agency pk : String) (rows : List Contact) (c : Contact)
      → find_contact agency pk rows ≡ some c
      → find_contact agency pk (write_contact (is_contact agency pk) (opted_out reason at) rows)
        ≡ some (opted_out reason at c)
  unfolding find_contact write_contact
  find_contact-opted_out agency pk [] c h = cc
  find_contact-opted_out agency pk (x ∷ rows) c h = elim (Bool-cases (is_contact agency pk x)) [
    | inl hit ↦ ground (arith, hit, h, opted_out_key agency pk x)
    | inr miss ↦ ground (arith, find_contact-opted_out agency pk rows c, miss, h)
  ]

  -- The opt-out reaches the column, through the mirror of the document.
  pub opted_out_column : (c : Contact) → (opted_out reason at c).do_not_contact ≡ true
  unfolding opted_out patched_contact set_scalar_columns sync_flag get has
  opted_out_column c =
      ap (λ o. sync_flag o c.do_not_contact)
        (get-deep_merge "do_not_contact" c.doc _ (refl, (refl, (refl, tt)))
          ∙ ap some (merge_value-flag (get "do_not_contact" c.doc) true))
