-- ===== src/Scenarios/Enrollments.antt =====
-- Outreach: the engagement events, the approval gate and the push.
use nativ.Prelude.{ℕ, String, ◌≡◌, refl, false, Option, none, some, List, [], ◌∷◌, ok}
use nativ.Json.{Json, Items, Fields, null, num, str, bool, arr, obj, nil, cons, end, field, get}
use nativ.Outreach.Rows.{awaiting_approval, Enrollment, Contact}
use nativ.Outreach.Enrollments.{find_enrollment}
use nativ.Outreach.Contacts.{find_contact}
use nativ.Outreach.Replies.{World}
use nativ.Outreach.Replies.Effects.{IsSilenced}
use nativ.Outreach.Webhook.{Inbox, enrollment_id_from}
use nativ.Outreach.EmailEvents.{
  processed, process_event, email_event, event_type_of, event_time, event_doc, step_of, is_bounce,
}
use nativ.Outreach.EmailEvents.Again.{email_event_again}
use nativ.Outreach.EmailEvents.Effects.{IsStored, process_event_unsubscribe}
use nativ.Outreach.SmartleadPush.{
  Recipient, Smartlead, lead_payload, campaign_name, create_campaign, add_leads, add_sequence,
}
use nativ.Outreach.SmartleadPush.ReadBack.{IsAnswered, enrollment_id_from-lead_payload}
use nativ.Outreach.EnrollmentApi.{Brand, find_brand, recipient, steps_in, approve_enrollment}
use nativ.Outreach.EnrollmentApi.Approvals.{IsApproved, approve_enrollment_activates}
use nativ.Scenarios.Replies.{enrollment, contact, world, first_enrollment}

abbrev repr : Json → String
repr v = "value"

abbrev digest : String → String
digest s = s

abbrev int_text : String → Option String
int_text s = none

abbrev event : String → Fields
event kind = field "event_type" (str kind) (
    field "seq_number" (num 2) (
      field "occurred_at" (str "2026-05-02")
        (field "custom_fields" (obj (field "enrollment_id" (str "enrollment-1") end)) end)))

abbrev inbox : Inbox
inbox = record { world = world; seen = [] }

email_event_again_example :
    email_event repr digest int_text "agency" "2026-05-04" 2000 false
      (event "Opened ")
      (email_event repr digest int_text "agency" "2026-05-03" 1000 false (event "Opened ") inbox).1
    ≡ (
      ok (processed "enrollment-1"),
      (email_event repr digest int_text "agency" "2026-05-03" 1000 false (event "Opened ") inbox).1,
    )
unfolding email_event get is_bounce event_type_of nativ.Text.lower nativ.Text.strip
    nativ.Outreach.EmailEvents.is_unsubscribe enrollment_id_from nativ.Outreach.Webhook.seen_before
    process_event step_of nativ.Outreach.PitchHistory.or_else nativ.Json.truthy
    nativ.Outreach.Enrollments.Changes.upsert_step_event find_enrollment
    nativ.Outreach.Enrollments.is_row
email_event_again_example =
    email_event_again repr digest int_text "agency" "2026-05-03" "2026-05-04" "enrollment-1" 1000
      2000 (event "Opened ") inbox ("2026-05-02", refl, refl) refl refl refl

abbrev event_stored : String → Fields
event_stored kind =
    event_doc (event_type_of repr digest int_text (event kind))
      (event_time "2026-05-03" (event kind)) (event kind)

stored :
    (kind : String)
    → IsStored repr digest int_text "agency" "2026-05-03" "enrollment-1"
        (event kind)
        world
        first_enrollment
unfolding step_of get find_enrollment nativ.Outreach.Enrollments.Changes.with_event nativ.Json.put
    nativ.Json.truthy nativ.Outreach.Enrollments.is_row nativ.Outreach.PitchHistory.or_else
    nativ.Json.append nativ.Slug.decimal nativ.Slug.digit
stored kind = record {
  step = "2";
  step_read = refl;
  found = refl;
  doc = field "events" (obj (field "2" (arr (cons (obj (event_stored kind)) nil)) end)) end;
  stored = refl;
}

process_event_unsubscribe_example :
    (w' : World) × (process_event repr digest int_text "agency" "2026-05-03" "enrollment-1"
        (event "unsubscribed")
        world
      ≡ ok w')
    × IsSilenced "agency" "contact-1" w'
    × (w'.deals ≡ world.deals)
unfolding event_type_of find_contact nativ.Outreach.Contacts.is_contact is_bounce nativ.Text.lower
    nativ.Text.strip get nativ.Outreach.EmailEvents.is_unsubscribe
process_event_unsubscribe_example =
    process_event_unsubscribe repr digest int_text "agency" "2026-05-03" "enrollment-1"
      (event "unsubscribed") world first_enrollment contact (stored "unsubscribed") refl refl refl
      (refl, (refl, tt))

abbrev buyer : Recipient
buyer = record {
  name = "Ada Byron King";
  email_address = some "ada@brand.com";
  decision_role = "buyer";
  company = "Brand";
}

enrollment_id_from-lead_payload_example :
    (enrollment_id_from (lead_payload "enrollment-1" buyer null) ≡ some "enrollment-1")
    × (enrollment_id_from (field "lead" (obj (lead_payload "enrollment-1" buyer null)) end)
        ≡ some "enrollment-1")
unfolding get
enrollment_id_from-lead_payload_example =
    enrollment_id_from-lead_payload "enrollment-1" buyer null
      (lead_payload "enrollment-1" buyer null)
      (field "lead" (obj (lead_payload "enrollment-1" buyer null)) end)
      (lead_payload "enrollment-1" buyer null) refl refl refl refl refl

abbrev always_one : Json → Option ℕ
always_one v = some 1

abbrev brand : Brand
brand = record { brand_id = "brand-1"; name = "Brand"; is_deleted = false }

abbrev reachable : Contact
reachable = record contact { email = some "ada@brand.com" }

abbrev api : Smartlead
api = record {
  on_create = λ name. ok (obj (field "id" (str "c-1") end));
  on_leads = λ id leads. ok (obj (field "lead_id" (str "l-1") end));
  on_sequence = λ id sequences. ok null;
}

abbrev waiting : Enrollment
waiting = enrollment "enrollment-2" "talent-2" awaiting_approval

answered :
    IsAnswered repr always_one api "enrollment-2" "talent-2" "tpl_buyer"
      (recipient reachable brand)
      (steps_in (get "steps" waiting.doc))
unfolding get nativ.Outreach.SmartleadPush.has_address recipient
    nativ.Outreach.SmartleadPush.campaign_id_of nativ.Outreach.SmartleadPush.steps_of steps_in
    nativ.Outreach.SmartleadPush.primary_of nativ.Outreach.SmartleadPush.lead_id_of
    nativ.Outreach.SmartleadPush.sequence_payloads nativ.Outreach.PitchHistory.or_else
    nativ.Json.truthy
answered = record {
  addressed = refl;
  created = obj (field "id" (str "c-1") end);
  on_create = refl;
  campaign_id = "c-1";
  campaign = refl;
  items = nil;
  steps_read = refl;
  primary_angle = null;
  angle_read = refl;
  added = obj (field "lead_id" (str "l-1") end);
  on_leads = refl;
  lead_id = str "l-1";
  lead = refl;
  sequences = nil;
  all_steps = refl;
  done = null;
  on_sequence = refl;
}

abbrev waiting_rows : List Enrollment
waiting_rows = first_enrollment ∷ waiting ∷ []

approve_enrollment_activates_example :
    (rows' : List Enrollment) × (approve_enrollment repr always_one api "agency" "2026-05-03"
        "enrollment-2"
        (brand ∷ [])
        (reachable ∷ [])
        waiting_rows
      ≡ (
        create_campaign (campaign_name "talent-2" "tpl_buyer")
            ∷ add_leads "c-1"
                (cons (obj (lead_payload "enrollment-2" (recipient reachable brand) null)) nil)
            ∷ add_sequence "c-1" nil
            ∷ [],
        ok rows',
      ))
    × IsApproved repr always_one "agency" "enrollment-2" waiting_rows rows'
unfolding find_enrollment find_contact find_brand answered nativ.Outreach.Enrollments.is_row
    nativ.Outreach.Contacts.is_contact
approve_enrollment_activates_example =
    approve_enrollment_activates repr always_one api "agency" "2026-05-03" "enrollment-2"
      (brand ∷ []) (reachable ∷ []) waiting_rows waiting reachable brand refl refl refl refl
      answered
