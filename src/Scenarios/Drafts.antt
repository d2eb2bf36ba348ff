-- ===== src/Scenarios/Drafts.antt =====
-- Outreach: the angles of a step, the step that is written, and the draft.
use nativ.Prelude.{
  ℕ, String, ◌≡◌, refl, Bool, true, false, Option, none, some, List, [], ◌∷◌, Result, ok, err, All,
  map, count, ◌≤◌, arith,
}
use nativ.Json.{Json, Items, Fields, num, str, bool, arr, obj, nil, cons, end, field, get}
use nativ.Outreach.Rows.{Contact}
use nativ.Outreach.AngleFilter.{
  PitchAngle, Candidate, key, candidates, filter_angles, PitchTemplate,
}
use nativ.Outreach.AngleFilter.Best.{IsBest, filter_angles-IsBest}
use nativ.Outreach.AngleFilter.Unmet.{filter_angles_unmet}
use nativ.Outreach.Steps.{
  StepGeneration, StepError, Attempt, failed, answered, candidate_ids, generate_step,
}
use nativ.Outreach.Steps.Sendable.{IsSendable, generate_step-IsSendable}
use nativ.Outreach.DraftRows.{TalentRow, BrandRow}
use nativ.Outreach.Generation.{
  Library, Tables, Call, GenerationError, EnrollmentDraft, Outcome, blocked, generated,
  generate_enrollment,
}
use nativ.Outreach.Generation.Once.{IsOnce, generate_enrollment-IsOnce}
use nativ.Scenarios.Replies.{contact}

abbrev repr : Json → String
repr v = "value"

abbrev angle : String → ℕ → Items → PitchAngle
angle pk score needs = record {
  angle_id = pk;
  category = "warm";
  authored_strength_score = score;
  doc = field "applicable_to_steps" (arr (cons (num 1) nil)) (
      field "applicable_to_decision_roles" (arr (cons (str "buyer") nil)) (
        field "trigger" (obj (field "type" (str "always_for_buyer") end))
          (field "merge_fields_required" (arr needs) end)));
}

abbrev shipped : PitchAngle
shipped = angle "angle-9" 900 (cons (str "talent_name") nil)

abbrev angles : List PitchAngle
angles = angle "angle-1" 500 nil ∷ shipped ∷ angle "angle-2" 700 nil ∷ []

filter_angles-IsBest_example :
    (passed : List Candidate) × IsBest 1
      (candidates end end 1 (key "buyer") (map key []) (map key []) angles)
      (filter_angles end end 1 "buyer" [] [] 1 angles)
      passed
filter_angles-IsBest_example = filter_angles-IsBest end end 1 "buyer" [] [] 1 angles

filter_angles_unmet_example : filter_angles end end 1 "buyer" [] [] 10 (shipped ∷ []) ≡ []
unfolding nativ.Outreach.AngleFilter.has_text nativ.Outreach.Angles.items_of get
filter_angles_unmet_example =
    filter_angles_unmet end end 1 "buyer" [] [] 10 (shipped ∷ []) (refl, tt)

abbrev answer : Fields
answer = field "subject" (str "Hello") (
    field "body" (str "We would like to work with you.")
      (field "angles_used" (obj (field "primary" (str "angle-2") end)) end))

abbrev step : Fields
step = field "step_number" (num 1) (field "intent" (str "open") end)

abbrev template : PitchTemplate
template = record {
  template_id = "template-1";
  agency_id = "agency";
  target_decision_role = "buyer";
  is_deleted = false;
  doc = field "steps" (arr (cons (obj step) nil)) end;
}

abbrev buyer : Contact
buyer = record contact { decision_role = "buyer"; do_not_contact = false }

abbrev parse_iso : String → Option ℕ
parse_iso s = none

abbrev iso : ℕ → String
iso n = "2026-05-04"

-- The first answer is an error.
abbrev ask :
    Fields → Fields → Fields → Fields → Fields → List Candidate → List StepGeneration → List Attempt
ask t c b s m found previous = failed "timeout" ∷ answered answer ∷ []

abbrev library : Library
library = record {
  talents =
      (record {
        talent_id = "talent-1";
        agency_id = "agency";
        name = "Ana";
        is_deleted = false;
        doc = end;
      })
      ∷ [];
  brands =
      (record {
        brand_id = "brand-1";
        name = "Acme";
        industry_id = "fashion";
        domain = none;
        hq_country = none;
        company_stage = none;
        typical_campaign_tier = none;
        is_deleted = false;
        doc = end;
      })
      ∷ [];
  templates = template ∷ [];
  angles = angles;
}

abbrev call : Call
call = record {
  talent_id = "talent-1";
  contact_id = buyer.contact_id;
  brand_id = "brand-1";
  agency_id = "agency";
  template_id = none;
  run_id = "run-1";
  enrollment_id = "enr-1";
  now = 100000000;
}

abbrev tables : Tables
tables = record { contacts = buyer ∷ []; enrollments = [] }

result_of : Result GenerationError (Outcome × Tables) → Outcome × Tables
result_of (ok r) = r
result_of (err e) = (blocked (nativ.Outreach.Generation.missing []), tables)

abbrev result : Outcome × Tables
result = result_of (generate_enrollment parse_iso iso repr "model" ask call library tables)

draft_in : Outcome → EnrollmentDraft
draft_in (generated d ws) = d
draft_in (blocked b) = record {
  enrollment_id = "";
  template_id = "";
  steps = [];
  angle_count = 0;
  candidate_count_per_step = [];
}

-- The run ends in a draft without warnings.
drafted :
    generate_enrollment parse_iso iso repr "model" ask call library tables
    ≡ ok (generated (draft_in result.0) [], result.1)
unfolding generate_enrollment result_of draft_in nativ.Outreach.DraftRows.find_talent
    nativ.Prelude.first nativ.Outreach.Contacts.find_contact nativ.Outreach.Contacts.is_contact
    nativ.Outreach.DraftRows.find_brand nativ.Outreach.AngleFilter.select_template nativ.Text.lower
    nativ.Text.strip nativ.Prelude.any nativ.Outreach.AngleFilter.find_for_decision_role
    nativ.Outreach.Eligibility.is_eligible nativ.Outreach.Enrollments.find_active_for_contact
    nativ.Prelude.keep nativ.Outreach.Eligibility.any_item nativ.Outreach.PitchHistory.history_of
    get nativ.Outreach.Angles.items_of nativ.Outreach.Angles.fields_of nativ.Outreach.Angles.text_of
    nativ.Outreach.Angles.texts_in nativ.Outreach.Generation.generate_steps
    nativ.Outreach.Generation.persist nativ.Outreach.Generation.insert_draft
    nativ.Outreach.Generation.step_candidates nativ.Outreach.DraftRows.talent_dict
    nativ.Outreach.DraftRows.brand_dict filter_angles candidates
    nativ.Outreach.AngleFilter.candidate_of nativ.Outreach.AngleFilter.applies key
    nativ.Outreach.AngleFilter.has_text nativ.Outreach.AngleFilter.lacks_any
    nativ.Outreach.AngleFilter.is_missing nativ.Outreach.AngleFilter.is_better
    nativ.Prelude.Sorting.sort nativ.Outreach.Angles.evaluate_trigger
    nativ.Outreach.Angles.evaluators generate_step nativ.Outreach.Steps.attempt candidate_ids
    nativ.Outreach.Steps.validate nativ.Outreach.Steps.stripped nativ.Outreach.Steps.length_issues
    nativ.Outreach.Steps.text_length nativ.Outreach.Steps.max_subject_chars
    nativ.Outreach.Steps.max_body_chars nativ.Outreach.Steps.angle_issues
    nativ.Outreach.Steps.angle_used nativ.Outreach.Steps.is_in nativ.Outreach.Steps.banned_issues
    nativ.Text.is_substring nativ.Text.starts_with nativ.Outreach.Angles.value_of
    nativ.Outreach.Generation.warnings nativ.Json.truthy
drafted = refl

IsOnce-nil : IsOnce []
unfolding count
IsOnce-nil agency talent_id contact_id = omega arith

generate_enrollment-IsOnce_example : IsOnce result.1.enrollments
generate_enrollment-IsOnce_example =
    generate_enrollment-IsOnce parse_iso iso repr "model" ask call library tables
      (generated (draft_in result.0) [], result.1) IsOnce-nil drafted

abbrev two : List Candidate
two = filter_angles end end 1 "buyer" [] [] 10 angles

abbrev written : StepGeneration
written = record {
  step_number = 1;
  intent = "open";
  subject = "Hello";
  body = "We would like to work with you.";
  angles_used = field "primary" (str "angle-2") (field "supporting" nativ.Json.null end);
  personalization_fields_used = [];
  reasoning = "";
  model_used = "model";
  timing_offset_days = 0;
  validation_warnings = [];
}

step_written :
    generate_step repr "model" 3 template.doc step two (failed "timeout" ∷ answered answer ∷ [])
    ≡ ok written
unfolding generate_step nativ.Outreach.Steps.attempt candidate_ids nativ.Outreach.Steps.validate
    nativ.Outreach.Steps.stripped nativ.Outreach.Steps.length_issues
    nativ.Outreach.Steps.text_length nativ.Outreach.Steps.max_subject_chars
    nativ.Outreach.Steps.max_body_chars nativ.Outreach.Steps.angle_issues
    nativ.Outreach.Steps.angle_used nativ.Outreach.Steps.is_in nativ.Outreach.Steps.banned_issues
    nativ.Text.is_substring nativ.Text.starts_with nativ.Outreach.Angles.value_of nativ.Json.truthy
    nativ.Outreach.AngleFilter.select_template nativ.Text.lower nativ.Text.strip nativ.Prelude.any
    nativ.Outreach.AngleFilter.find_for_decision_role get nativ.Outreach.Angles.items_of
    nativ.Outreach.Angles.fields_of nativ.Outreach.Angles.text_of nativ.Outreach.Angles.texts_in
    filter_angles candidates nativ.Outreach.AngleFilter.candidate_of
    nativ.Outreach.AngleFilter.applies key nativ.Outreach.AngleFilter.has_text
    nativ.Outreach.AngleFilter.lacks_any nativ.Outreach.AngleFilter.is_missing
    nativ.Outreach.AngleFilter.is_better nativ.Prelude.Sorting.sort
    nativ.Outreach.Angles.evaluate_trigger nativ.Outreach.Angles.evaluators
step_written = refl

generate_step-IsSendable_example : IsSendable repr template.doc (candidate_ids two) written
generate_step-IsSendable_example =
    generate_step-IsSendable repr "model" 3 template.doc step two
      (failed "timeout" ∷ answered answer ∷ []) written step_written refl
