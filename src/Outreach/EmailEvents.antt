-- ===== src/Outreach/EmailEvents.antt =====
-- app/api/webhooks/smartlead.py: a delivery to the endpoint `email_event`, from the parsed body on.
-- `repr` and `digest` are as in Webhook; `int_text` is `str(int(s))` on a text, none where `int` raises.
-- A call that raises is rolled back.
pub mod Again
pub mod Effects
use nativ.Prelude.{
  ℕ, String, Bool, true, false, ◌||◌, Option, none, some, List, [], ◌∷◌, Result, ok, err, ◌>>=◌,
  if◌then◌else◌, ◌=s◌,
}
use nativ.Text.{lower, strip}
use nativ.Json.{Json, Fields, null, bool, num, str, arr, obj, end, field, get, truthy}
use nativ.Slug.{decimal}
use nativ.Outreach.PitchHistory.{or_else}
use nativ.Outreach.Rows.{Enrollment, Contact}
use nativ.Outreach.Enrollments.{find_enrollment, find_active_for_contact, kill_each}
use nativ.Outreach.Enrollments.Changes.{EnrollmentError, upsert_step_event, set_killed}
use nativ.Outreach.Contacts.{is_contact, find_contact, write_contact, patched_contact}
use nativ.Outreach.Replies.{World}
use nativ.Outreach.Webhook.{Held, Inbox, seen_before, enrollment_id_from, dedupe_key, text_or_empty}

pub data EventError : Type 0 where
  of_row : EnrollmentError → EventError
  contact_not_found : String → EventError
  -- `int(...)` raises
  bad_step_number : EventError

pub data EventAnswer : Type 0 where
  no_enrollment_id : EventAnswer
  duplicate : String → EventAnswer
  processed : String → EventAnswer

from_row {ℓ} : {A : Type ℓ} → Result EnrollmentError A → Result EventError A
from_row (ok a) = ok a
from_row (err e) = err (of_row e)

-- `BrandContactRepository.patch_workflow_state`
contact_or_error :
    (Contact → Bool)
    → String
    → Fields
    → List Contact
    → Option Contact
    → Result EventError (List Contact)
contact_or_error p pk diff rows none = err (contact_not_found pk)
contact_or_error p pk diff rows (some c) = ok (write_contact p (patched_contact diff) rows)

unfoldable pub patch_contact :
    String → String → Fields → List Contact → Result EventError (List Contact)
unfolding contact_or_error
patch_contact agency pk diff rows =
    contact_or_error (is_contact agency pk) pk diff rows (find_contact agency pk rows)

-- the value that `occurred_at` is taken from, or the time of the call
value_or_text : Option Json → String → Json
value_or_text none now = str now
value_or_text (some v) now = if truthy v then v else str now

unfoldable pub event_time : String → Fields → Json
unfolding value_or_text
event_time now body =
    value_or_text (or_else (get "occurred_at" body) (get "event_timestamp" body)) now

module _ (int_text : String → Option String) where
  -- `str(int(v))`
  int_of : Json → Option String
  int_of (num n) = some (decimal n)
  int_of (bool true) = some "1"
  int_of (bool false) = some "0"
  int_of (str s) = int_text s
  int_of _ = none

  step_or_error : Option String → Result EventError String
  step_or_error none = err bad_step_number
  step_or_error (some s) = ok s

  int_or_one : Option Json → Result EventError String
  unfolding int_of step_or_error
  int_or_one none = ok "1"
  int_or_one (some v) = if truthy v then step_or_error (int_of v) else ok "1"

  unfoldable pub step_of : Fields → Result EventError String
  unfolding int_or_one
  step_of body = int_or_one (or_else (get "seq_number" body) (get "step_number" body))

-- the event that is stored
unfoldable pub event_doc : String → Json → Fields → Fields
event_doc event_type occurred_at body =
    field "event_type" (str event_type)
      (field "occurred_at" occurred_at (field "raw" (obj body) end))

unfoldable pub is_bounce : String → Bool
is_bounce t = t =s "email_bounced" || t =s "bounce"

unfoldable pub is_unsubscribe : String → Bool
is_unsubscribe t = t =s "email_unsubscribed" || t =s "unsubscribed"

unfoldable pub bounce_diff : Fields
bounce_diff = field "email" (obj (field "verification_status" (str "bounced") end)) end

unfoldable pub opt_out_diff : Json → Fields
opt_out_diff occurred_at = field "do_not_contact" (bool true) (
    field "do_not_contact_reason" (str "outreach_unsubscribe") (field "opt_out_at" occurred_at end))

-- what follows the read of the enrollment, in the two branches
mark_bounced : String → World → Option Enrollment → Result EventError World
unfolding bounce_diff
mark_bounced agency w none = ok w
mark_bounced agency w (some e) = do
  contacts ← patch_contact agency e.contact_id bounce_diff w.contacts
  ok (record w { contacts = contacts })

silence : String → String → Json → World → Option Enrollment → Result EventError World
unfolding opt_out_diff
silence agency at occurred_at w none = ok w
silence agency at occurred_at w (some e) = do
  contacts ← patch_contact agency e.contact_id (opt_out_diff occurred_at) w.contacts
  ok (record w {
    contacts = contacts;
    enrollments =
        kill_each agency "unsubscribed" at
          (find_active_for_contact agency e.contact_id w.enrollments) w.enrollments;
  })

bounce : String → String → String → World → Result EventError World
unfolding from_row mark_bounced
bounce agency at pk w = do
  rows ← from_row (set_killed agency pk "bounced" at w.enrollments)
  mark_bounced agency (record w { enrollments = rows }) (find_enrollment agency pk rows)

-- the branch on a terminal event
pub by_type : String → String → String → String → Json → World → Result EventError World
unfolding bounce silence is_bounce is_unsubscribe
by_type agency at pk event_type occurred_at w =
    if is_bounce event_type
    then bounce agency at pk w
    else if is_unsubscribe event_type
    then silence agency at occurred_at w (find_enrollment agency pk w.enrollments)
    else ok w

module _ (repr : Json → String) (digest : String → String) (int_text : String → Option String) where
  unfoldable pub event_type_of : Fields → String
  unfolding text_or_empty
  event_type_of body = lower (strip (text_or_empty repr digest (get "event_type" body)))

  -- from the step number to the commit
  unfoldable pub process_event : String → String → String → Fields → World → Result EventError World
  unfolding from_row by_type
  process_event agency at pk body w = do
    step ← step_of int_text body
    rows ← from_row (
        upsert_step_event agency pk step (event_doc (event_type_of body) (event_time at body) body)
          w.enrollments)
    by_type agency at pk (event_type_of body) (event_time at body) (record w { enrollments = rows })

  settle_event :
      String → World → List Held → Result EventError World → Result EventError EventAnswer × Inbox
  settle_event pk w seen (err e) = (err e, record { world = w; seen = seen })
  settle_event pk w seen (ok w') = (ok (processed pk), record { world = w'; seen = seen })

  event_seen :
      String
      → String
      → String
      → Fields
      → World
      → Bool × List Held
      → Result EventError EventAnswer × Inbox
  unfolding settle_event
  event_seen agency at pk body w (true, seen) =
      (ok (duplicate pk), record { world = w; seen = seen })
  event_seen agency at pk body w (false, seen) =
      settle_event pk w seen (process_event agency at pk body w)

  event_for :
      String
      → String
      → ℕ
      → Bool
      → Fields
      → Inbox
      → Option String
      → Result EventError EventAnswer × Inbox
  unfolding event_seen
  event_for agency at now up body inbox none = (ok no_enrollment_id, inbox)
  event_for agency at now up body inbox (some pk) =
      event_seen agency at pk body inbox.world
        (seen_before up now (dedupe_key repr digest body (event_type_of body)) inbox.seen)

  -- `email_event` at a time: `up` is whether Redis can be reached
  unfoldable pub email_event :
      String → String → ℕ → Bool → Fields → Inbox → Result EventError EventAnswer × Inbox
  unfolding event_for
  email_event agency at now up body inbox =
      event_for agency at now up body inbox (enrollment_id_from body)
