-- ===== src/Outreach/Generation.antt =====
-- `generate_enrollment` of app/services/outreach/orchestrator.py: one draft for a talent, a contact and a
-- brand. A row is found as `get_by_id` finds it; the angles are what `find_all` gives. The times are in
-- seconds, `iso` is `isoformat`, and `ask` is what the language model would answer, attempt by attempt, to the
-- prompt that is built of its arguments.
pub mod Outcomes
pub mod Once
pub mod Drafts
use Prim.Native.String.{◌++◌ as ◌++s◌}
use nativ.Prelude.{
  ℕ, String, Bool, true, false, not, ◌&&◌, Option, none, some, List, [], ◌∷◌, ◌++◌, Result, ok, err,
  ◌>>=◌, if◌then◌else◌, ◌=s◌, any, first, map, length,
}
use nativ.Slug.{decimal}
use nativ.Json.{Json, Items, Fields, null, num, str, arr, obj, nil, cons, end, field, get, put}
use nativ.Outreach.Rows.{awaiting_approval, Enrollment, Contact}
use nativ.Outreach.PitchHistory.{pitch_entry}
use nativ.Outreach.Contacts.{find_contact, record_pitch}
use nativ.Outreach.Enrollments.{find_active_for_contact}
use nativ.Outreach.Eligibility.{Refusal, is_eligible}
use nativ.Outreach.Angles.{items_of, texts_in}
use nativ.Outreach.AngleFilter.{
  PitchAngle, Candidate, filter_angles, PitchTemplate, select_template,
}
use nativ.Outreach.DraftRows.{
  TalentRow, BrandRow, talent_dict, contact_dict, brand_dict, step_items, engagement_summary,
  find_talent, find_brand,
}
use nativ.Outreach.Steps.{StepGeneration, StepError, Attempt, generate_step}

pub record Library : Type 0 where
  pub talents : List TalentRow
  pub brands : List BrandRow
  pub templates : List PitchTemplate
  pub angles : List PitchAngle

-- the tables that are written
pub record Tables : Type 0 where
  pub contacts : List Contact
  pub enrollments : List Enrollment

-- the arguments, and the identifiers and the time that the call makes
pub record Call : Type 0 where
  pub talent_id : String
  pub contact_id : String
  pub brand_id : String
  pub agency_id : String
  pub template_id : Option String
  pub run_id : String
  pub enrollment_id : String
  pub now : ℕ

pub data Block : Type 0 where
  missing : List String → Block
  unknown_template no_template_for_role : String → Block
  refused : Refusal → Block
  template_has_no_steps : Block

pub data GenerationError : Type 0 where
  of_step : StepError → GenerationError
  malformed_step : GenerationError
  taken_id : String → GenerationError

pub record EnrollmentDraft : Type 0 where
  pub enrollment_id : String
  pub template_id : String
  pub steps : List StepGeneration
  pub angle_count : ℕ
  pub candidate_count_per_step : List ℕ

pub data Outcome : Type 0 where
  blocked : Block → Outcome
  generated : EnrollmentDraft → List String → Outcome

find_template : String → String → List PitchTemplate → Option PitchTemplate
find_template agency pk =
    first λ t. t.agency_id =s agency && (not t.is_deleted && (t.template_id =s pk))

if_none {ℓ} : {A : Type ℓ} → String → Option A → List String → List String
if_none label none rest = label ∷ rest
if_none label (some x) rest = rest

or_block {ℓ} : {A : Type ℓ} → Block → Option A → Result Block A
or_block b none = err b
or_block b (some x) = ok x

-- the template that is named, or the one for the role
pub template_for : Call → List PitchTemplate → String → Result Block PitchTemplate
unfolding find_template or_block
template_for call templates role = elim call.template_id [
  | none ↦ or_block (no_template_for_role role) (select_template call.agency_id templates role)
  | some t ↦
      if t =s ""
      then or_block (no_template_for_role role) (select_template call.agency_id templates role)
      else or_block (unknown_template t) (find_template call.agency_id t templates)
]

of_step_result {ℓ} : {A : Type ℓ} → Result StepError A → Result GenerationError A
of_step_result (ok a) = ok a
of_step_result (err e) = err (of_step e)

pub number_in : Option Json → Result GenerationError ℕ
number_in (some (num n)) = ok n
number_in _ = err malformed_step

warnings_of : StepGeneration → List String → List String
warnings_of s [] = []
warnings_of s (w ∷ ws) = ((("step" ++s decimal s.step_number) ++s ":") ++s w) ∷ warnings_of s ws

unfoldable pub warnings : List StepGeneration → List String
unfolding warnings_of
warnings [] = []
warnings (s ∷ steps) = warnings_of s s.validation_warnings ++ warnings steps

-- the insert of `insert_draft`
unfoldable pub insert_draft :
    Enrollment → List Enrollment → Result GenerationError (List Enrollment)
insert_draft e rows =
    if any (λ (x : Enrollment). x.enrollment_id =s e.enrollment_id) rows
    then err (taken_id e.enrollment_id)
    else ok (rows ++ e ∷ [])

module _ (parse_iso : String → Option ℕ) (iso : ℕ → String) (repr : Json → String)
    (default_model : String)
    (ask : Fields
      → Fields
      → Fields
      → Fields
      → Fields
      → List Candidate
      → List StepGeneration
      → List Attempt) where
  unfoldable pub step_candidates : Library → Fields → Fields → String → Fields → ℕ → List Candidate
  step_candidates lib talent brand role step n =
      filter_angles talent brand n role
        (texts_in (items_of (get "preferred_angle_categories" step)))
        (texts_in (items_of (get "excluded_angle_categories" step))) 10 lib.angles

  generate_one :
      Library
      → TalentRow
      → Contact
      → BrandRow
      → PitchTemplate
      → Fields
      → List StepGeneration
      → Result GenerationError StepGeneration
  unfolding number_in of_step_result step_candidates
  generate_one lib t c b template step previous = do
    n ← number_in (get "step_number" step)
    let candidates = step_candidates lib (talent_dict t) (brand_dict b) c.decision_role step n
    let answers =
        ask (talent_dict t) (contact_dict c) (brand_dict b) step template.doc candidates previous
    of_step_result (generate_step repr default_model 3 template.doc step candidates answers)

  -- the loop over the steps, with those that are generated
  unfoldable pub generate_steps :
      Library
      → TalentRow
      → Contact
      → BrandRow
      → PitchTemplate
      → Items
      → List StepGeneration
      → Result GenerationError (List StepGeneration)
  unfolding generate_one contact_dict
  generate_steps lib t c b template nil generated_steps = ok generated_steps
  generate_steps lib t c b template (cons (obj step) steps) generated_steps =
      generate_one lib t c b template step generated_steps >>= λ gen.
      generate_steps lib t c b template steps (generated_steps ++ gen ∷ [])
  generate_steps lib t c b template (cons _ steps) generated_steps = err malformed_step

  candidate_counts : Library → Fields → Fields → String → Items → List ℕ
  unfolding step_candidates number_in
  candidate_counts lib talent brand role nil = []
  candidate_counts lib talent brand role (cons (obj step) steps) =
      elim (number_in (get "step_number" step)) [
        | ok n ↦
            length (step_candidates lib talent brand role step n)
            ∷ candidate_counts lib talent brand role steps
        | err e ↦ []
      ]
  candidate_counts lib talent brand role (cons _ steps) = []

  unfoldable pub draft_doc : Call → PitchTemplate → List StepGeneration → Fields
  unfolding step_items engagement_summary
  draft_doc call template steps = field "steps" (arr (step_items steps)) (
      field "generation_meta"
        (obj (
          field "run_id" (str call.run_id) (
            field "generated_at" (str (iso call.now)) (
              field "template_id" (str template.template_id) (
                field "talent_id" (str call.talent_id) (
                  field "brand_id" (str call.brand_id)
                    (field "contact_id" (str call.contact_id) end)))))))
        (field "engagement_summary" (obj engagement_summary) end))

  unfoldable pub draft_row : Call → PitchTemplate → List StepGeneration → Enrollment
  draft_row call template steps = record {
    enrollment_id = call.enrollment_id;
    agency_id = call.agency_id;
    talent_id = call.talent_id;
    contact_id = call.contact_id;
    brand_id = call.brand_id;
    template_id = template.template_id;
    state = awaiting_approval;
    created_deal_id = none;
    killed_at = none;
    is_deleted = false;
    doc = draft_doc call template steps;
  }

  unfoldable pub pitch_of : Call → PitchTemplate → Fields
  pitch_of call template =
      pitch_entry call.talent_id call.enrollment_id template.template_id "email" (iso call.now)

  module _ (call : Call) (lib : Library) (tables : Tables) where
    -- the writes, once the steps are generated
    unfoldable pub persist :
        PitchTemplate → List ℕ → List StepGeneration → Result GenerationError (Outcome × Tables)
    persist template counts steps = do
      rows ← insert_draft (draft_row call template steps) tables.enrollments
      ok (
        generated
            (record {
              enrollment_id = call.enrollment_id;
              template_id = template.template_id;
              steps = steps;
              angle_count = length lib.angles;
              candidate_count_per_step = counts;
            })
            (warnings steps),
        record {
          contacts =
              record_pitch call.agency_id call.contact_id (pitch_of call template) tables.contacts;
          enrollments = rows;
        },
      )

    with_steps :
        TalentRow
        → Contact
        → BrandRow
        → PitchTemplate
        → Items
        → Result GenerationError (Outcome × Tables)
    unfolding candidate_counts
    with_steps t c b template nil = ok (blocked template_has_no_steps, tables)
    with_steps t c b template steps =
        generate_steps lib t c b template steps []
        >>= persist template
            (candidate_counts lib (talent_dict t) (brand_dict b) c.decision_role steps)

    admitted :
        TalentRow
        → Contact
        → BrandRow
        → PitchTemplate
        → Option Refusal
        → Result GenerationError (Outcome × Tables)
    unfolding with_steps
    admitted t c b template (some reason) = ok (blocked (refused reason), tables)
    admitted t c b template none = with_steps t c b template (items_of (get "steps" template.doc))

    -- the policy filter
    with_template :
        TalentRow
        → Contact
        → BrandRow
        → Result Block PitchTemplate
        → Result GenerationError (Outcome × Tables)
    unfolding admitted
    with_template t c b (err block) = ok (blocked block, tables)
    with_template t c b (ok template) = admitted t c b template (
        is_eligible parse_iso call.now 14 c.do_not_contact c.doc call.talent_id
          (find_active_for_contact call.agency_id call.contact_id tables.enrollments))

    with_rows :
        Option TalentRow
        → Option Contact
        → Option BrandRow
        → Result GenerationError (Outcome × Tables)
    unfolding with_template template_for if_none
    with_rows (some t) (some c) (some b) =
        with_template t c b (template_for call lib.templates c.decision_role)
    with_rows t c b = ok (
      blocked (missing (if_none "talent" t (if_none "contact" c (if_none "brand" b [])))),
      tables,
    )

    unfoldable pub generate_enrollment : Result GenerationError (Outcome × Tables)
    unfolding with_rows
    generate_enrollment =
        with_rows (find_talent call.agency_id call.talent_id lib.talents)
          (find_contact call.agency_id call.contact_id tables.contacts)
          (find_brand call.brand_id lib.brands)
