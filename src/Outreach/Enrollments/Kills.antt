-- ===== src/Outreach/Enrollments/Kills.antt =====
-- The cross-roster kill leaves no enrollment of the contact running.
use nativ.Prelude.{
  String, ◌≡◌, refl, sym, ap, subst, ◌∙◌, Bool, true, false, ◌||◌, List, [], ◌∷◌, arith,
  if◌then◌else◌, ◌=s◌, keep, map, eq_refl, eq_iff, Bool-cases, inl, inr, All,
}
use nativ.Outreach.Rows.{is_blocking, Enrollment}
use nativ.Outreach.Enrollments.{
  is_row, write_enrollment, with_kill, is_active_for, find_active_for_contact, kill_each,
}

-- The primary key: no two rows have one identifier.
abbrev pub has_id : String → List Enrollment → Bool
has_id pk [] = false
has_id pk (e ∷ es) = e.enrollment_id =s pk || has_id pk es

abbrev pub KeyIsUnique : List Enrollment → Type 0
KeyIsUnique [] = Unit
KeyIsUnique (e ∷ es) = (has_id e.enrollment_id es ≡ false) × KeyIsUnique es

abbrev on_row : String → String → (Enrollment → Enrollment) → Enrollment → Enrollment
on_row agency pk f e = if is_row agency pk e then f e else e

module _ (agency : String) where
  module _ (f : Enrollment → Enrollment)
      (keeps_id : (e : Enrollment) → (f e).enrollment_id ≡ e.enrollment_id) where
    has_id-write :
        (pk key : String) (rows : List Enrollment)
        → has_id key (write_enrollment agency pk f rows) ≡ has_id key rows
    unfolding write_enrollment
    has_id-write pk key [] = refl
    has_id-write pk key (e ∷ es) = elim (Bool-cases (is_row agency pk e)) [
      | inl hit ↦ rw hit (ap (λ k. k =s key || has_id key es) (keeps_id e))
      | inr miss ↦ rw miss (ap (λ b. e.enrollment_id =s key || b) (has_id-write pk key es))
    ]

    pub KeyIsUnique-write :
        (pk : String) (rows : List Enrollment)
        → KeyIsUnique rows
        → KeyIsUnique (write_enrollment agency pk f rows)
    unfolding write_enrollment
    KeyIsUnique-write pk [] u = tt
    KeyIsUnique-write pk (e ∷ es) u = elim (Bool-cases (is_row agency pk e)) [
      | inl hit ↦ rw hit (ap (λ k. has_id k es) (keeps_id e) ∙ u.0, u.1)
      | inr miss ↦ rw miss (has_id-write pk e.enrollment_id es ∙ u.0, KeyIsUnique-write pk es u.1)
    ]

  map_no_row :
      (pk : String) (f : Enrollment → Enrollment) (rows : List Enrollment)
      → has_id pk rows ≡ false
      → map (on_row agency pk f) rows ≡ rows
  unfolding is_row
  map_no_row pk f [] h = refl
  map_no_row pk f (e ∷ es) h = ground (arith, map_no_row pk f es)

  pub row_key : (pk : String) (e : Enrollment) → is_row agency pk e ≡ true → e.enrollment_id ≡ pk
  unfolding is_row
  row_key pk e h = (eq_iff e.enrollment_id pk).0 (ground arith)

  -- With a key, a write is the same change of every row that matches.
  write-map :
      (pk : String) (f : Enrollment → Enrollment) (rows : List Enrollment)
      → KeyIsUnique rows
      → write_enrollment agency pk f rows ≡ map (on_row agency pk f) rows
  unfolding write_enrollment
  write-map pk f [] u = refl
  write-map pk f (e ∷ es) u = elim (Bool-cases (is_row agency pk e)) [
    | inl hit ↦
        rw (hit, map_no_row pk f es (subst (λ k. has_id k es ≡ false) (row_key pk e hit) u.0)) refl
    | inr miss ↦ rw miss (ap (λ l. e ∷ l) (write-map pk f es u.1))
  ]

  with_kill_keeps_id :
      (reason at : String) (e : Enrollment)
      → (with_kill reason at e).enrollment_id ≡ e.enrollment_id
  unfolding with_kill
  with_kill_keeps_id reason at e = refl

module _ (agency contact reason at : String) where
  -- Every running row of the contact is among the rows that are still to be killed.
  abbrev Covered : List Enrollment → List Enrollment → Type 0
  Covered es =
      All (λ (e : Enrollment).
        is_active_for agency contact e ≡ true → has_id e.enrollment_id es ≡ true)

  covered_step :
      (x : Enrollment) (es : List Enrollment) (e : Enrollment)
      → (is_active_for agency contact e ≡ true → has_id e.enrollment_id (x ∷ es) ≡ true)
      → is_active_for agency contact (on_row agency x.enrollment_id (with_kill reason at) e) ≡ true
      → has_id (on_row agency x.enrollment_id (with_kill reason at) e).enrollment_id es ≡ true
  unfolding is_active_for is_row with_kill is_blocking
  covered_step x es e h a =
      ground
        (arith, h, eq_iff x.enrollment_id e.enrollment_id, eq_iff e.enrollment_id x.enrollment_id)

  Covered-map :
      (x : Enrollment) (es rows : List Enrollment)
      → Covered (x ∷ es) rows
      → Covered es (map (on_row agency x.enrollment_id (with_kill reason at)) rows)
  Covered-map x es [] c = tt
  Covered-map x es (e ∷ rows) c = (covered_step x es e c.0, Covered-map x es rows c.1)

  none_active :
      (rows : List Enrollment) → Covered [] rows → find_active_for_contact agency contact rows ≡ []
  unfolding find_active_for_contact keep
  none_active [] c = refl
  none_active (e ∷ rows) c = ground (arith, c.0, none_active rows c.1)

  kill_each-none_active :
      (es rows : List Enrollment)
      → KeyIsUnique rows
      → Covered es rows
      → find_active_for_contact agency contact (kill_each agency reason at es rows) ≡ []
  unfolding kill_each
  kill_each-none_active [] rows u c = none_active rows c
  kill_each-none_active (x ∷ es) rows u c =
      kill_each-none_active es (write_enrollment agency x.enrollment_id (with_kill reason at) rows)
        (KeyIsUnique-write agency (with_kill reason at) (with_kill_keeps_id agency reason at)
          x.enrollment_id rows u)
        (rw (write-map agency x.enrollment_id (with_kill reason at) rows u)
          (Covered-map x es rows c))

  weaken : (e : Enrollment) (es rows : List Enrollment) → Covered es rows → Covered (e ∷ es) rows
  weaken e es [] c = tt
  weaken e es (x ∷ rows) c = (λ a. ground (arith, c.0 a), weaken e es rows c.1)

  find_running :
      (e : Enrollment) (rows : List Enrollment)
      → is_active_for agency contact e ≡ true
      → find_active_for_contact agency contact (e ∷ rows)
        ≡ e ∷ find_active_for_contact agency contact rows
  unfolding find_active_for_contact keep
  find_running e rows running = rw running refl

  find_idle :
      (e : Enrollment) (rows : List Enrollment)
      → is_active_for agency contact e ≡ false
      → find_active_for_contact agency contact (e ∷ rows)
        ≡ find_active_for_contact agency contact rows
  unfolding find_active_for_contact keep
  find_idle e rows idle = rw idle refl

  covers : (rows : List Enrollment) → Covered (find_active_for_contact agency contact rows) rows
  covers [] = tt
  covers (e ∷ rows) = elim (Bool-cases (is_active_for agency contact e)) [
    | inl running ↦
        subst (λ l. Covered l (e ∷ rows)) (sym (find_running e rows running))
          (
            λ _. ground (arith, eq_refl e.enrollment_id),
            weaken e (find_active_for_contact agency contact rows) rows (covers rows),
          )
    | inr idle ↦
        subst (λ l. Covered l (e ∷ rows)) (sym (find_idle e rows idle))
          (λ a. ground (arith, a, idle), covers rows)
  ]

  -- With unique identifiers, after each running enrollment of a contact has been killed, none of the contact's enrollments is
  -- awaiting approval, active or paused.
  pub kill_all-none_active :
      (rows : List Enrollment)
      → KeyIsUnique rows
      → find_active_for_contact agency contact
          (kill_each agency reason at (find_active_for_contact agency contact rows) rows)
        ≡ []
  kill_all-none_active rows u =
      kill_each-none_active (find_active_for_contact agency contact rows) rows u (covers rows)
