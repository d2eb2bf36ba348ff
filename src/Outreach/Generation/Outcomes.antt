-- ===== src/Outreach/Generation/Outcomes.antt =====
-- How a call of `generate_enrollment` ends.
use nativ.Prelude.{
  ℕ, String, ◌≡◌, refl, ◌∙◌, sym, ap, Option, none, some, List, [], Result, ok, err, bind_returns,
  ok-injective, ◌⊎◌, inl, inr, Option-cases,
}
use nativ.Json.{Json, Items, Fields, nil, cons, get}
use nativ.Outreach.Rows.{Contact}
use nativ.Outreach.Contacts.{find_contact, record_pitch}
use nativ.Outreach.Enrollments.{find_active_for_contact}
use nativ.Outreach.Eligibility.{is_eligible}
use nativ.Outreach.Angles.{items_of}
use nativ.Outreach.AngleFilter.{Candidate, PitchTemplate}
use nativ.Outreach.Steps.{StepGeneration, Attempt}
use nativ.Outreach.DraftRows.{TalentRow, BrandRow, find_talent, find_brand}
use nativ.Outreach.Generation.{
  Library, Tables, Call, Block, EnrollmentDraft, Outcome, blocked, generated, template_for,
  warnings, insert_draft, generate_steps, draft_row, pitch_of, persist, with_steps, admitted,
  with_template, with_rows, generate_enrollment,
}

-- A call that is blocked leaves the tables.
abbrev pub IsBlocked : Tables → Outcome × Tables → Type 0
IsBlocked tables result = (block : Block) × (result ≡ (blocked block, tables))

module _ (parse_iso : String → Option ℕ) (iso : ℕ → String) (repr : Json → String)
    (default_model : String)
    (ask : Fields
      → Fields
      → Fields
      → Fields
      → Fields
      → List Candidate
      → List StepGeneration
      → List Attempt)
    (call : Call) (lib : Library) (tables : Tables) where
  -- What holds of a call that has made a draft.
  pub record IsDraft (result : Outcome × Tables) : Type 0 where
    pub talent : TalentRow
    pub contact : Contact
    pub brand : BrandRow
    pub template : PitchTemplate
    pub steps : List StepGeneration
    pub of_call :
        (find_talent call.agency_id call.talent_id lib.talents ≡ some talent)
        × (find_contact call.agency_id call.contact_id tables.contacts ≡ some contact)
        × (find_brand call.brand_id lib.brands ≡ some brand)
    pub chosen : template_for call lib.templates contact.decision_role ≡ ok template
    pub eligible :
        is_eligible parse_iso call.now 14 contact.do_not_contact contact.doc call.talent_id
          (find_active_for_contact call.agency_id call.contact_id tables.enrollments)
        ≡ none
    pub all_steps :
        generate_steps parse_iso iso repr default_model ask lib talent contact brand template
          (items_of (get "steps" template.doc))
          []
        ≡ ok steps
    pub inserted :
        insert_draft
          (draft_row parse_iso iso repr default_model ask call template steps)
          tables.enrollments
        ≡ ok result.1.enrollments
    pub recorded :
        result.1.contacts
        ≡ record_pitch call.agency_id call.contact_id
            (pitch_of parse_iso iso repr default_model ask call template)
            tables.contacts
    pub draft : EnrollmentDraft
    pub reported : (result.0 ≡ generated draft (warnings steps)) × (draft.steps ≡ steps)

  abbrev pub Ending : Outcome × Tables → Type 0
  Ending result = IsBlocked tables result ⊎ IsDraft result

  -- The facts that lead to the steps.
  abbrev IsAdmitted : TalentRow → Contact → BrandRow → PitchTemplate → Type 0
  IsAdmitted t c b template =
      ((find_talent call.agency_id call.talent_id lib.talents ≡ some t)
        × (find_contact call.agency_id call.contact_id tables.contacts ≡ some c)
        × (find_brand call.brand_id lib.brands ≡ some b))
      × (is_eligible parse_iso call.now 14 c.do_not_contact c.doc call.talent_id
            (find_active_for_contact call.agency_id call.contact_id tables.enrollments)
          ≡ none)
      × (template_for call lib.templates c.decision_role ≡ ok template)

  persist-Ending :
      (t : TalentRow) (c : Contact) (b : BrandRow) (template : PitchTemplate) (counts : List ℕ)
      (steps : List StepGeneration) (result : Outcome × Tables)
      → IsAdmitted t c b template
      → generate_steps parse_iso iso repr default_model ask lib t c b template
          (items_of (get "steps" template.doc))
          []
        ≡ ok steps
      → persist parse_iso iso repr default_model ask call lib tables template counts steps
        ≡ ok result
      → IsDraft result
  unfolding persist
  persist-Ending t c b template counts steps result fits made h =
      let (rows, done, fresh) =
        bind_returns _
          (insert_draft (draft_row parse_iso iso repr default_model ask call template steps)
            tables.enrollments)
          h in
      let same = ok-injective done in
      record {
        talent = t;
        contact = c;
        brand = b;
        template = template;
        steps = steps;
        of_call = fits.0;
        eligible = fits.1;
        chosen = fits.2;
        all_steps = made;
        inserted = fresh ∙ ap (λ r. ok r.1.enrollments) same;
        recorded = sym (ap (λ r. r.1.contacts) same);
        draft = _;
        reported = (sym (ap (λ r. r.0) same), refl);
      }

  with_steps-Ending :
      (t : TalentRow) (c : Contact) (b : BrandRow) (template : PitchTemplate) (items : Items)
      (result : Outcome × Tables)
      → IsAdmitted t c b template
      → items_of (get "steps" template.doc) ≡ items
      → with_steps parse_iso iso repr default_model ask call lib tables t c b template items
        ≡ ok result
      → Ending result
  unfolding with_steps
  with_steps-Ending t c b template nil result fits same h = inl (_, sym (ok-injective h))
  with_steps-Ending t c b template (cons x xs) result fits same h =
      let (steps, next, made) =
        bind_returns _
          (generate_steps parse_iso iso repr default_model ask lib t c b template (cons x xs) [])
          h in
      inr (
        persist-Ending t c b template _ steps result fits
          (ap (λ i. generate_steps parse_iso iso repr default_model ask lib t c b template i [])
              same
            ∙ made)
          next)

  with_template-Ending :
      (t : TalentRow) (c : Contact) (b : BrandRow) (choice : Result Block PitchTemplate)
      (result : Outcome × Tables)
      → (find_talent call.agency_id call.talent_id lib.talents ≡ some t)
        × (find_contact call.agency_id call.contact_id tables.contacts ≡ some c)
        × (find_brand call.brand_id lib.brands ≡ some b)
      → template_for call lib.templates c.decision_role ≡ choice
      → with_template parse_iso iso repr default_model ask call lib tables t c b choice ≡ ok result
      → Ending result
  unfolding with_template admitted
  with_template-Ending t c b (err block) result rows choose h = inl (block, sym (ok-injective h))
  with_template-Ending t c b (ok template) result rows choose h =
      elim (Option-cases (
        is_eligible parse_iso call.now 14 c.do_not_contact c.doc call.talent_id
          (find_active_for_contact call.agency_id call.contact_id tables.enrollments))) [
            | inl free ↦
                with_steps-Ending t c b template _ result (rows, free, choose) refl (rw free at h)
            | inr (why, refusal) ↦ inl (_, sym (ok-injective (rw refusal at h)))
          ]

  with_rows-Ending :
      (t : Option TalentRow) (c : Option Contact) (b : Option BrandRow) (result : Outcome × Tables)
      → find_talent call.agency_id call.talent_id lib.talents ≡ t
      → find_contact call.agency_id call.contact_id tables.contacts ≡ c
      → find_brand call.brand_id lib.brands ≡ b
      → with_rows parse_iso iso repr default_model ask call lib tables t c b ≡ ok result
      → Ending result
  unfolding with_rows
  with_rows-Ending (some t) (some c) (some b) result f g k h =
      with_template-Ending t c b (template_for call lib.templates c.decision_role) result (f, g, k)
        refl h
  with_rows-Ending none c b result f g k h = inl (_, sym (ok-injective h))
  with_rows-Ending (some t) none b result f g k h = inl (_, sym (ok-injective h))
  with_rows-Ending (some t) (some c) none result f g k h = inl (_, sym (ok-injective h))

  pub generate_enrollment-Ending :
      (result : Outcome × Tables)
      → generate_enrollment parse_iso iso repr default_model ask call lib tables ≡ ok result
      → Ending result
  unfolding generate_enrollment
  generate_enrollment-Ending result h = with_rows-Ending _ _ _ result refl refl refl h
