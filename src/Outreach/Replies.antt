-- ===== src/Outreach/Replies.antt =====
-- app/services/outreach_reply_handler.py (`handle_reply`) and app/services/outreach/deal_creator.py.
-- The classification of a reply is the answer of a language model: it is an argument. A call that
-- raises is rolled back by its caller.
pub mod Reads
pub mod Effects
pub mod Repeated
use nativ.Prelude.{
  String, Bool, true, false, not, ◌&&◌, Option, none, some, List, [], ◌∷◌, ◌++◌, map, if◌then◌else◌,
  Result, ok, err, ◌>>=◌, ◌=s◌,
}
use nativ.Json.{
  Json, Items, Fields, null, bool, str, arr, obj, nil, cons, end, field, get, put, truthy_at,
}
use nativ.Deal.Substage.{Substage, new_lead, initial_call_scheduled}
use nativ.Deal.Row.{Deal}
use nativ.Deal.Repository.{lead_row}
use nativ.Outreach.Rows.{EnrollmentState, completed, paused, state_name, Enrollment, Contact}
use nativ.Outreach.Enrollments.{
  find_enrollment, write_enrollment, patched, with_state, with_kill, find_active_for_contact,
  kill_each,
}
use nativ.Outreach.Contacts.{is_contact, find_contact, write_contact, opted_out}

-- `_ALLOWED_OUTCOMES` of app/services/outreach/reply_classifier.py
pub data Outcome : Type 0 where
  interested declined out_of_office unrelated unsubscribe_request needs_more_info
        wrong_person_routed :
      Outcome

unfoldable pub outcome_name : Outcome → String
outcome_name interested = "interested"
outcome_name declined = "declined"
outcome_name out_of_office = "out_of_office"
outcome_name unrelated = "unrelated"
outcome_name unsubscribe_request = "unsubscribe_request"
outcome_name needs_more_info = "needs_more_info"
outcome_name wrong_person_routed = "wrong_person_routed"

pub record OutcomeClassification : Type 0 where
  pub outcome : Outcome
  pub confidence : Json
  pub rationale : String
  pub extracted_signals : Fields

-- The three tables.
pub record World : Type 0 where
  pub deals : List Deal
  pub enrollments : List Enrollment
  pub contacts : List Contact

pub data Summary : Type 0 where
  enrollment_missing : Summary
  deal_created : String → Summary
  cross_roster_killed : List String → Summary
  enrollment_paused : Summary
  enrollment_killed : Summary

pub data ReplyError : Type 0 where
  contact_not_found : String → ReplyError
  -- `ValueError`
  wrong_outcome : Outcome → ReplyError

-- `_substage_from_signals`
unfoldable pub substage_from_signals : Fields → Substage
substage_from_signals signals =
    if truthy_at (get "asked_for_meeting" signals) then initial_call_scheduled else new_lead

classification_doc : OutcomeClassification → Fields → Fields
classification_doc c tail = field "outcome" (str (outcome_name c.outcome)) (
    field "confidence" c.confidence (
      field "rationale" (str c.rationale)
        (field "extracted_signals" (obj c.extracted_signals) tail)))

-- the record of the classification, which every outcome writes first
recorded : OutcomeClassification → String → Enrollment → Enrollment
unfolding classification_doc
recorded c occurred_at e =
    patched
      (field "last_reply_classification"
        (obj (classification_doc c (field "occurred_at" (str occurred_at) end))) end)
      e

-- the patch of `create_deal_from_interested_reply`: `created_deal_id` and the state, in the columns
-- and in the document
linked : String → Enrollment → Enrollment
linked deal_id e =
    let e' =
      patched
        (field "created_deal_id" (str deal_id) (field "state" (str (state_name completed)) end))
        e in
    record e' { state = completed; created_deal_id = some deal_id }

role_of : Option Contact → String
role_of none = "unknown"
role_of (some c) = c.decision_role

-- the insert of the deal and the update of the enrollment
deal_and_link : String → String → Enrollment → String → OutcomeClassification → World → World
unfolding linked classification_doc
deal_and_link agency fresh e role c w = record w {
  deals =
      w.deals
      ++ lead_row fresh agency e.enrollment_id e.talent_id e.brand_id e.contact_id role
          (substage_from_signals c.extracted_signals)
          (field "originating_classification" (obj (classification_doc c end)) end)
        ∷ [];
  enrollments = write_enrollment agency e.enrollment_id (linked fresh) w.enrollments;
}

-- the test of the outcome
deal_for :
    Outcome
    → String
    → String
    → Enrollment
    → String
    → OutcomeClassification
    → World
    → Result ReplyError World
unfolding deal_and_link
deal_for interested agency fresh e role c w = ok (deal_and_link agency fresh e role c w)
deal_for o agency fresh e role c w = err (wrong_outcome o)

unfoldable pub create_deal_from_interested_reply :
    String → String → Enrollment → String → OutcomeClassification → World → Result ReplyError World
unfolding deal_for
create_deal_from_interested_reply agency fresh e role c w =
    deal_for c.outcome agency fresh e role c w

-- `_KILL_REASONS.get(outcome, "reply_received")`, on the outcomes that reach it
unfoldable pub kill_reason : Outcome → String
kill_reason unsubscribe_request = "unsubscribed"
kill_reason _ = "reply_received"

-- the steps of an unsubscribe request, after the contact is found
unsubscribe :
    String
    → String
    → String
    → Enrollment
    → World
    → Option Contact
    → Result ReplyError (World × Summary)
unsubscribe agency at occurred_at e w none = err (contact_not_found e.contact_id)
unsubscribe agency at occurred_at e w (some c) =
    let actives = find_active_for_contact agency e.contact_id w.enrollments in
    ok (
      record w {
        contacts =
            write_contact (is_contact agency e.contact_id)
              (opted_out "outreach_reply_unsubscribe" occurred_at) w.contacts;
        enrollments = kill_each agency "unsubscribed" at actives w.enrollments;
      },
      cross_roster_killed (map (λ (x : Enrollment). x.enrollment_id) actives),
    )

or_null : Option Json → Json
or_null none = null
or_null (some v) = v

-- the branch on the outcome; `w` already holds the record of the classification
by_outcome :
    String
    → String
    → String
    → String
    → Enrollment
    → OutcomeClassification
    → Outcome
    → World
    → Result ReplyError (World × Summary)
unfolding unsubscribe role_of or_null kill_reason
by_outcome agency fresh at occurred_at e c interested w = do
  w' ←
      create_deal_from_interested_reply agency fresh e
        (role_of (find_contact agency e.contact_id w.contacts)) c w
  ok (w', deal_created fresh)
by_outcome agency fresh at occurred_at e c unsubscribe_request w =
    unsubscribe agency at occurred_at e w (find_contact agency e.contact_id w.contacts)
by_outcome agency fresh at occurred_at e c out_of_office w = ok (
  record w {
    enrollments =
        write_enrollment agency e.enrollment_id
          (with_state paused (
            field "paused_reason" (str "out_of_office")
              (field "ooo_until" (or_null (get "ooo_until" c.extracted_signals)) end)))
          w.enrollments;
  },
  enrollment_paused,
)
by_outcome agency fresh at occurred_at e c o w = ok (
  record w {
    enrollments =
        write_enrollment agency e.enrollment_id (with_kill (kill_reason o) at) w.enrollments;
  },
  enrollment_killed,
)

-- what follows the read of the enrollment
reply_to :
    String
    → String
    → String
    → String
    → OutcomeClassification
    → World
    → Option Enrollment
    → Result ReplyError (World × Summary)
unfolding by_outcome recorded
reply_to agency fresh at occurred_at c w none = ok (w, enrollment_missing)
reply_to agency fresh at occurred_at c w (some e) =
    by_outcome agency fresh at occurred_at e c c.outcome (record w {
      enrollments = write_enrollment agency e.enrollment_id (recorded c occurred_at) w.enrollments;
    })

-- `fresh` is the identifier that an insert draws, `at` the ISO text of the time.
unfoldable pub handle_reply :
    String
    → String
    → String
    → String
    → String
    → OutcomeClassification
    → World
    → Result ReplyError (World × Summary)
unfolding reply_to
handle_reply agency fresh at occurred_at enrollment_id c w =
    reply_to agency fresh at occurred_at c w (find_enrollment agency enrollment_id w.enrollments)
