-- ===== src/Outreach/Generation/Once.antt =====
-- No talent has two enrollments under way with one contact.
use nativ.Prelude.{
  ℕ, ◌≤◌, String, ◌≡◌, refl, sym, ap, subst, Bool, true, false, ◌&&◌, Option, none, List, [], ◌∷◌,
  ◌++◌, ok, any, keep, count, ◌=s◌, eq_iff, arith, Bool-cases, inl, inr, ok-injective,
}
use nativ.Prelude.Counting.{count-append, any_of_count}
use nativ.Json.{Json, Fields}
use nativ.Outreach.Rows.{is_blocking, Enrollment}
use nativ.Outreach.Enrollments.{is_active_for, find_active_for_contact}
use nativ.Outreach.Eligibility.{is_eligible}
use nativ.Outreach.AngleFilter.{Candidate}
use nativ.Outreach.Steps.{StepGeneration, Attempt}
use nativ.Outreach.Generation.{
  Library, Tables, Call, Outcome, insert_draft, draft_row, generate_enrollment,
}
use nativ.Outreach.Generation.Outcomes.{IsDraft, generate_enrollment-Ending}

-- An enrollment of the talent with the contact that waits for its approval, runs or pauses.
unfoldable pub is_under_way : String → String → String → Enrollment → Bool
is_under_way agency talent_id contact_id e =
    is_active_for agency contact_id e && (e.talent_id =s talent_id)

abbrev pub IsOnce : List Enrollment → Type 0
IsOnce rows =
    (agency talent_id contact_id : String)
    → count (is_under_way agency talent_id contact_id) rows ≤ 1

none_under_way :
    (agency talent_id contact_id : String) (rows : List Enrollment)
    → any
        (λ (e : Enrollment). (e.talent_id =s talent_id) && is_blocking e.state)
        (find_active_for_contact agency contact_id rows)
      ≡ false
    → any (is_under_way agency talent_id contact_id) rows ≡ false
unfolding any find_active_for_contact keep is_under_way is_active_for
none_under_way agency talent_id contact_id [] h = refl
none_under_way agency talent_id contact_id (e ∷ rows) h =
    ground (arith, h, none_under_way agency talent_id contact_id rows)

module _ (parse_iso : String → Option ℕ) where
  not_active_of_eligible :
      (now days : ℕ) (dnc : Bool) (m : Fields) (talent_id : String) (rows : List Enrollment)
      → is_eligible parse_iso now days dnc m talent_id rows ≡ none
      → any (λ (e : Enrollment). (e.talent_id =s talent_id) && is_blocking e.state) rows ≡ false
  unfolding is_eligible
  not_active_of_eligible now days dnc m talent_id rows h = ground (arith, h)

pub insert_draft-append :
    (e : Enrollment) (rows rows' : List Enrollment)
    → insert_draft e rows ≡ ok rows'
    → rows' ≡ rows ++ e ∷ []
unfolding insert_draft
insert_draft-append e rows rows' h =
    elim (Bool-cases (any (λ (x : Enrollment). x.enrollment_id =s e.enrollment_id) rows)) [
      | inl there ↦ cc (rw there at h)
      | inr fresh ↦ sym (ok-injective (rw fresh at h))
    ]

under_way_key :
    (agency talent_id contact_id : String) (e : Enrollment)
    → is_under_way agency talent_id contact_id e ≡ true
    → (e.agency_id ≡ agency) × (e.talent_id ≡ talent_id) × (e.contact_id ≡ contact_id)
unfolding is_under_way is_active_for
under_way_key agency talent_id contact_id e h = (
  (eq_iff e.agency_id agency).0 (ground (arith, h)),
  (eq_iff e.talent_id talent_id).0 (ground (arith, h)),
  (eq_iff e.contact_id contact_id).0 (ground (arith, h)),
)

IsOnce-append :
    (e : Enrollment) (rows : List Enrollment)
    → IsOnce rows
    → any (is_under_way e.agency_id e.talent_id e.contact_id) rows ≡ false
    → IsOnce (rows ++ e ∷ [])
unfolding count
IsOnce-append e rows once free agency talent_id contact_id =
    elim (Bool-cases (is_under_way agency talent_id contact_id e)) [
      | inl runs ↦
          let (a, t, c) = under_way_key agency talent_id contact_id e runs in
          rw (count-append (is_under_way agency talent_id contact_id) rows (e ∷ []), runs)
            (omega (
              arith,
              any_of_count (is_under_way agency talent_id contact_id) rows (rw (a, t, c) at free),
            ))
      | inr rests ↦
          rw (count-append (is_under_way agency talent_id contact_id) rows (e ∷ []), rests)
            (omega (arith, once agency talent_id contact_id))
    ]

module _ (parse_iso : String → Option ℕ) (iso : ℕ → String) (repr : Json → String)
    (default_model : String)
    (ask : Fields
      → Fields
      → Fields
      → Fields
      → Fields
      → List Candidate
      → List StepGeneration
      → List Attempt) where
  IsOnce-IsDraft :
      (call : Call) (lib : Library) (tables : Tables) (result : Outcome × Tables)
      → IsDraft parse_iso iso repr default_model ask call lib tables result
      → IsOnce tables.enrollments
      → IsOnce result.1.enrollments
  unfolding draft_row
  IsOnce-IsDraft call lib tables result draft once =
      let e = draft_row parse_iso iso repr default_model ask call draft.template draft.steps in
      subst IsOnce
        (sym (insert_draft-append e tables.enrollments result.1.enrollments draft.inserted))
        (IsOnce-append e tables.enrollments once (
          none_under_way call.agency_id call.talent_id call.contact_id tables.enrollments
            (not_active_of_eligible parse_iso call.now 14 _ _ call.talent_id _ draft.eligible)))

  -- A call that returns keeps this: of one talent and one contact of an agency, no two enrollments wait for
  -- their approval, run or pause.
  pub generate_enrollment-IsOnce :
      (call : Call) (lib : Library) (tables : Tables) (result : Outcome × Tables)
      → IsOnce tables.enrollments
      → generate_enrollment parse_iso iso repr default_model ask call lib tables ≡ ok result
      → IsOnce result.1.enrollments
  generate_enrollment-IsOnce call lib tables result once h =
      elim (generate_enrollment-Ending parse_iso iso repr default_model ask call lib tables result
        h) [
          | inl (b, stopped) ↦ subst IsOnce (ap (λ r. r.1.enrollments) (sym stopped)) once
          | inr draft ↦ IsOnce-IsDraft call lib tables result draft once
        ]
