-- ===== src/Outreach/Generation/Drafts.antt =====
-- What a draft is made of.
use nativ.Prelude.{ℕ, String, ◌≡◌, false, Option, some, List, [], ◌∷◌, ◌++◌, ok}
use nativ.Json.{Json, Items, Fields, obj, nil, cons, get}
use nativ.Outreach.Rows.{Contact}
use nativ.Outreach.Contacts.{find_contact, record_pitch}
use nativ.Outreach.AngleFilter.{Candidate, PitchTemplate}
use nativ.Outreach.Steps.{StepGeneration, Attempt, candidate_ids}
use nativ.Outreach.Steps.Sendable.{IsSendable}
use nativ.Outreach.DraftRows.{TalentRow, BrandRow, talent_dict, brand_dict}
use nativ.Outreach.DraftRows.{find_talent, find_brand}
use nativ.Outreach.Angles.{items_of}
use nativ.Outreach.Generation.{
  template_for, Library, Tables, Call, number_in, EnrollmentDraft, warnings, step_candidates,
  draft_row, pitch_of,
}

module _ (parse_iso : String → Option ℕ) (iso : ℕ → String) (repr : Json → String)
    (default_model : String)
    (ask : Fields
      → Fields
      → Fields
      → Fields
      → Fields
      → List Candidate
      → List StepGeneration
      → List Attempt)
    (lib : Library) (t : TalentRow) (c : Contact) (b : BrandRow) (template : PitchTemplate) where
  -- What a step of the template gives: a step that can be sent, with angles among the candidates that the
  -- filter gives for the step of that number.
  abbrev pub IsReady : Fields → StepGeneration → Type 0
  IsReady step s =
      (n : ℕ) × (number_in (get "step_number" step) ≡ ok n)
      × IsSendable repr template.doc
          (candidate_ids (
            step_candidates parse_iso iso repr default_model ask lib (talent_dict t) (brand_dict b)
              c.decision_role step n))
          s

  -- One for each step of the template, in its order.
  abbrev pub AllReady : Items → List StepGeneration → Type 0
  AllReady nil [] = Unit
  AllReady (cons (obj step) items) (s ∷ steps) = IsReady step s × AllReady items steps
  AllReady _ _ = ⊥

  -- The loop appends its steps to those that are generated.
  abbrev Extends : Items → List StepGeneration → List StepGeneration → Type 0
  Extends items made steps =
      (new : List StepGeneration) × (steps ≡ made ++ new) × (warnings new ≡ [] → AllReady items new)

module _ (parse_iso : String → Option ℕ) (iso : ℕ → String) (repr : Json → String)
    (default_model : String)
    (ask : Fields
      → Fields
      → Fields
      → Fields
      → Fields
      → List Candidate
      → List StepGeneration
      → List Attempt)
    (call : Call) (lib : Library) (tables : Tables) where
  -- What a call that makes a draft finds and leaves.
  pub record IsPersisted (draft : EnrollmentDraft) (after : Tables) : Type 0 where
    talent : TalentRow
    contact : Contact
    brand : BrandRow
    template : PitchTemplate
    found :
        (find_talent call.agency_id call.talent_id lib.talents ≡ some talent)
        × (find_contact call.agency_id call.contact_id tables.contacts ≡ some contact)
        × (find_brand call.brand_id lib.brands ≡ some brand)
    chosen : template_for call lib.templates contact.decision_role ≡ ok template
    may_contact : contact.do_not_contact ≡ false
    one_more :
        after.enrollments
        ≡ tables.enrollments
          ++ draft_row parse_iso iso repr default_model ask call template draft.steps ∷ []
    pitched :
        after.contacts
        ≡ record_pitch call.agency_id call.contact_id
            (pitch_of parse_iso iso repr default_model ask call template)
            tables.contacts
    ready :
        AllReady parse_iso iso repr default_model ask lib talent contact brand template
          (items_of (get "steps" template.doc))
          draft.steps
