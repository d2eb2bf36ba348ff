-- ===== src/Scenarios/Replies.antt =====
-- Outreach: the cooldown and the replies.
use nativ.Prelude.{
  ℕ, ◌+◌, ◌*◌, ◌≤◌, String, ◌≡◌, ◌≢◌, refl, Bool, true, false, Option, none, some, List, [], ◌∷◌,
  ◌++◌, arith, Result, ok, err, ◌=s◌, if◌then◌else◌,
}
use nativ.Json.{Json, Items, Fields, num, str, bool, obj, end, field, get}
use nativ.Outreach.Rows.{EnrollmentState, active, awaiting_approval, Enrollment, Contact}
use nativ.Outreach.PitchHistory.{pitch_entry, append_pitch_history, history_of}
use nativ.Outreach.Eligibility.{is_eligible, has_recent_pitch, was_recently_pitched}
use nativ.Outreach.Eligibility.Cooldown.{cooldown_blind}
use nativ.Outreach.Enrollments.{is_row, find_enrollment}
use nativ.Outreach.Contacts.{
  find_contact, is_contact, write_contact, is_brand_contact, refreshed, upsert_run_batch,
  ContactError,
}
use nativ.Outreach.Contacts.{record_pitch}
use nativ.Outreach.Contacts.Pitches.{is_eligible-record_pitch}
use nativ.Outreach.Webhook.{Inbox, enrollment_id_from, reply}
use nativ.Outreach.Webhook.Redelivery.{IsRedelivered, reply_again}
use nativ.Outreach.Contacts.Runs.{StaysOut, upsert_run_batch-StaysOut}
use nativ.Json.{nil, arr, has}
use nativ.Outreach.Replies.{
  interested, unsubscribe_request, Outcome, OutcomeClassification, World, deal_created,
  cross_roster_killed, handle_reply,
}
use nativ.Outreach.Replies.Effects.{
  IsLinked, IsSilenced, handle_reply_interested, handle_reply_unsubscribe,
}

-- A reading of the one time that is used.
abbrev clock : String → Option ℕ
clock s = if s =s "2026-05-01" then some 100000 else none

abbrev pitched : Fields
pitched =
    append_pitch_history (pitch_entry "talent-1" "enrollment-1" "template-1" "email" "2026-05-01")
      end

cooldown_blind_example :
    (has_recent_pitch clock 100001 14 pitched "talent-1" ≡ false)
    × (was_recently_pitched clock 100001 pitched "talent-1" ≡ false)
unfolding append_pitch_history history_of get nativ.Json.put nativ.Json.append
cooldown_blind_example =
    cooldown_blind clock pitched "talent-1" 100001 14
      (("talent-1", "enrollment-1", "template-1", "email", "2026-05-01", refl), tt)

abbrev pub enrollment : String → String → EnrollmentState → Enrollment
enrollment pk talent state = record {
  enrollment_id = pk;
  agency_id = "agency";
  talent_id = talent;
  contact_id = "contact-1";
  brand_id = "brand-1";
  template_id = "tpl_buyer";
  state = state;
  created_deal_id = none;
  killed_at = none;
  is_deleted = false;
  doc = end;
}

abbrev pub contact : Contact
contact = record {
  contact_id = "contact-1";
  agency_id = "agency";
  brand_id = "brand-1";
  name = "Ada";
  email = none;
  decision_role = "decision_maker";
  do_not_contact = false;
  is_deleted = false;
  doc = end;
}

-- Two talents are in touch with one contact.
abbrev pub world : World
world = record {
  deals = [];
  enrollments =
      enrollment "enrollment-1" "talent-1" active
      ∷ enrollment "enrollment-2" "talent-2" awaiting_approval
      ∷ [];
  contacts = contact ∷ [];
}

abbrev answer : Outcome → OutcomeClassification
answer o = record {
  outcome = o;
  confidence = num 1;
  rationale = "";
  extracted_signals = field "asked_for_meeting" (bool true) end;
}

abbrev pub first_enrollment : Enrollment
first_enrollment = enrollment "enrollment-1" "talent-1" active

handle_reply_interested_example :
    (w' : World) × (handle_reply "agency" "deal-1" "2026-05-02" "2026-05-01" "enrollment-1"
        (answer interested)
        world
      ≡ ok (w', deal_created "deal-1"))
    × IsLinked "agency" (answer interested) first_enrollment world w'
unfolding find_enrollment is_row
handle_reply_interested_example =
    handle_reply_interested "agency" "deal-1" "2026-05-02" "2026-05-01" (answer interested)
      first_enrollment world refl refl

handle_reply_unsubscribe_example :
    (w' : World) × (names : List String) × (handle_reply "agency" "deal-1" "2026-05-02" "2026-05-01"
        "enrollment-1"
        (answer unsubscribe_request)
        world
      ≡ ok (w', cross_roster_killed names))
    × IsSilenced "agency" "contact-1" w'
    × (w'.deals ≡ [])
unfolding find_enrollment is_row find_contact is_contact
handle_reply_unsubscribe_example =
    handle_reply_unsubscribe "agency" "deal-1" "2026-05-02" "2026-05-01"
      (answer unsubscribe_request) first_enrollment world refl contact refl refl (refl, (refl, tt))

abbrev opted_contact : Contact
opted_contact = record contact {
  do_not_contact = true;
  doc = field "do_not_contact" (bool true) (field "pitch_history" (arr nil) end);
}

-- A payload that would clear the flag.
abbrev payload : Fields
payload =
    field "contact_id" (str "contact-1")
      (field "name" (str "Ada L") (field "do_not_contact" (bool false) end))

abbrev no_repr : Json → String
no_repr v = ""

abbrev run_rows : Result ContactError (List Contact) → List Contact
run_rows (ok rows) = rows
run_rows (err e) = []

abbrev after_run : List Contact
after_run =
    run_rows (upsert_run_batch no_repr "agency" "brand-1" (payload ∷ []) (opted_contact ∷ []))

run_returns :
    upsert_run_batch no_repr "agency" "brand-1" (payload ∷ []) (opted_contact ∷ []) ≡ ok after_run
unfolding upsert_run_batch nativ.Outreach.Contacts.upsert_one get nativ.Prelude.any is_brand_contact
run_returns = refl

opted_contact-StaysOut : StaysOut "agency" "contact-1" nil (opted_contact ∷ [])
unfolding find_contact is_contact get has
opted_contact-StaysOut = (
  opted_contact,
  refl,
  record { column = refl; flag = refl; history = refl; dict = (refl, (refl, tt)) },
)

upsert_run_batch-StaysOut_example : StaysOut "agency" "contact-1" nil after_run
unfolding has
upsert_run_batch-StaysOut_example =
    upsert_run_batch-StaysOut no_repr "agency" "brand-1" "contact-1" nil (payload ∷ [])
      (opted_contact ∷ []) after_run ((refl, (refl, (refl, tt))), tt) opted_contact-StaysOut
      run_returns

abbrev delivery : Fields
delivery =
    field "custom_fields" (obj (field "enrollment_id" (str "enrollment-1") end))
      (field "occurred_at" (str "2026-05-01") (field "reply_body" (str "Sounds good!") end))

abbrev inbox : Inbox
inbox = record { world = world; seen = [] }

abbrev no_digest : String → String
no_digest s = s

-- A day after the first delivery, less a second.
reply_again_example :
    IsRedelivered no_repr no_digest 1000 87399 "enrollment-1"
      (reply no_repr no_digest "agency" "deal-1" "2026-05-02" 1000
        (answer interested)
        true
        delivery
        inbox).1
      (reply no_repr no_digest "agency" "deal-2" "2026-05-03" 87399
        (answer interested)
        true
        delivery
        (reply no_repr no_digest "agency" "deal-1" "2026-05-02" 1000
          (answer interested)
          true
          delivery
          inbox).1)
unfolding get nativ.Prelude.any
reply_again_example =
    reply_again no_repr no_digest "agency" "deal-1" "deal-2" "2026-05-02" "2026-05-03" 1000 87399
      (answer interested) (answer interested) delivery inbox "enrollment-1"
      (unfold enrollment_id_from in refl) (unfold nativ.Outreach.Webhook.is_held in refl)

abbrev first_pitch : Fields
first_pitch = pitch_entry "talent-1" "enrollment-1" "template-1" "email" "2026-05-01"

is_eligible-record_pitch_example :
    (c' : Contact) × (find_contact "agency" "contact-1"
        (record_pitch "agency" "contact-1" first_pitch (contact ∷ []))
      ≡ some c')
    × (is_eligible clock 200000 14 c'.do_not_contact c'.doc "talent-1" [] ≢ none)
unfolding find_contact is_contact
is_eligible-record_pitch_example =
    is_eligible-record_pitch clock "agency" "contact-1" "talent-1" "enrollment-1" "template-1"
      "email" "2026-05-01" (contact ∷ []) contact [] 100000 200000 14 refl refl refl (omega arith)
