-- ===== src/Outreach/EmailEvents/Again.antt =====
-- An engagement event that is taken up again.
use nativ.Prelude.{
  ℕ, String, ◌≡◌, refl, ap, subst, sym, ◌∙◌, false, some, none, Option, List, Result, ok, err,
  bind_returns, ok-injective, ◌=s◌,
}
use nativ.Json.{Json, Fields, str, get, truthy}
use nativ.Outreach.PitchHistory.{or_else}
use nativ.Outreach.Rows.{Enrollment}
use nativ.Outreach.Enrollments.Changes.{EnrollmentError, upsert_step_event}
use nativ.Outreach.Enrollments.Changes.Events.{IsEvent, upsert_step_event_again}
use nativ.Outreach.Replies.{World}
use nativ.Outreach.Webhook.{Held, Inbox, seen_before, enrollment_id_from}
use nativ.Outreach.EmailEvents.{
  EventError, processed, from_row, value_or_text, event_time, step_of, event_doc, is_bounce,
  is_unsubscribe, by_type, event_type_of, process_event, settle_event, event_seen, event_for,
  email_event,
}

module _ (repr : Json → String) (digest : String → String) (int_text : String → Option String) where
  -- The deliveries whose time is a text that is not empty.
  abbrev pub HasTime : Fields → Type 0
  HasTime body = (s : String) × (get "occurred_at" body ≡ some (str s)) × ((s =s "") ≡ false)

  event_time_of :
      (at s : String) (body : Fields)
      → get "occurred_at" body ≡ some (str s)
      → (s =s "") ≡ false
      → event_time at body ≡ str s
  unfolding event_time value_or_text or_else truthy
  event_time_of at s body h full = rw (h, full, full) refl

  abbrev pub type_of : Fields → String
  type_of = event_type_of repr digest int_text

  event_doc-IsEvent :
      (event_type s : String) (body : Fields) → IsEvent (event_doc event_type (str s) body)
  unfolding event_doc get
  event_doc-IsEvent event_type s body = record {
    kind = event_type;
    time = s;
    has_kind = refl;
    has_time = refl;
  }

  from_row-ok :
      (r : Result EnrollmentError (List Enrollment)) (rows : List Enrollment)
      → from_row r ≡ ok rows
      → r ≡ ok rows
  unfolding from_row
  from_row-ok (ok a) rows h = ap ok (ok-injective h)
  from_row-ok (err e) rows h = cc

  by_type_quiet :
      (agency at pk t : String) (time : Json) (w : World)
      → is_bounce t ≡ false
      → is_unsubscribe t ≡ false
      → by_type agency at pk t time w ≡ ok w
  unfolding by_type
  by_type_quiet agency at pk t time w b u = rw (b, u) refl

  pub taken_up :
      (agency at pk step : String) (time : Json) (body : Fields) (w : World)
      (rows : List Enrollment)
      → step_of int_text body ≡ ok step
      → event_time at body ≡ time
      → upsert_step_event agency pk step (event_doc (type_of body) time body) w.enrollments
        ≡ ok rows
      → process_event repr digest int_text agency at pk body w
        ≡ by_type agency at pk (type_of body) time (record w { enrollments = rows })
  unfolding process_event from_row
  taken_up agency at pk step time body w rows h t u = rw (h, t, u) refl

  again :
      (agency at' pk step s : String) (body : Fields) (w : World) (rows : List Enrollment)
      → (s =s "") ≡ false
      → get "occurred_at" body ≡ some (str s)
      → is_bounce (type_of body) ≡ false
      → is_unsubscribe (type_of body) ≡ false
      → step_of int_text body ≡ ok step
      → upsert_step_event agency pk step (event_doc (type_of body) (str s) body) w.enrollments
        ≡ ok rows
      → process_event repr digest int_text agency at' pk body (record w { enrollments = rows })
        ≡ ok (record w { enrollments = rows })
  again agency at' pk step s body w rows full timed no_bounce no_opt_out h u =
      taken_up agency at' pk step (str s) body (record w { enrollments = rows }) rows h
        (event_time_of at' s body timed full)
        (upsert_step_event_again (event_doc (type_of body) (str s) body)
          (event_doc-IsEvent (type_of body) s body) agency pk step w.enrollments rows u)
      ∙ by_type_quiet agency at' pk (type_of body) (str s) (record w { enrollments = rows })
          no_bounce no_opt_out

  process_event_again :
      (agency at at' pk : String) (body : Fields) (w w' : World)
      → HasTime body
      → is_bounce (type_of body) ≡ false
      → is_unsubscribe (type_of body) ≡ false
      → process_event repr digest int_text agency at pk body w ≡ ok w'
      → process_event repr digest int_text agency at' pk body w' ≡ ok w'
  unfolding process_event
  process_event_again agency at at' pk body w w' (s, timed, full) no_bounce no_opt_out h =
      let (step, h₁, e₁) = bind_returns _ (step_of int_text body) h in
      let (rows, h₂, e₂) =
        bind_returns _
          (from_row (
            upsert_step_event agency pk step (event_doc (type_of body) (event_time at body) body)
              w.enrollments))
          h₁ in
      let stored =
        subst
          (λ t.
            upsert_step_event agency pk step (event_doc (type_of body) t body) w.enrollments
            ≡ ok rows)
          (event_time_of at s body timed full) (from_row-ok _ rows e₂) in
      subst (λ v. process_event repr digest int_text agency at' pk body v ≡ ok v)
        (ok-injective (
          sym (
            by_type_quiet agency at pk (type_of body) (event_time at body)
              (record w { enrollments = rows }) no_bounce no_opt_out)
          ∙ h₂))
        (again agency at' pk step s body w rows full timed no_bounce no_opt_out e₁ stored)

  settled :
      (pk pk' : String) (w : World) (seen : List Held) (r : Result EventError World)
      → (settle_event repr digest int_text pk' w seen r).0 ≡ ok (processed pk)
      → (w' : World) × (r ≡ ok w') × (pk' ≡ pk)
  unfolding settle_event
  settled pk pk' w seen (ok w') h = (w', refl, cc)
  settled pk pk' w seen (err e) h = cc

  event_for_again :
      (agency at at' pk : String) (now now' : ℕ) (body : Fields) (inbox : Inbox)
      → HasTime body
      → is_bounce (type_of body) ≡ false
      → is_unsubscribe (type_of body) ≡ false
      → (o : Option String)
      → (event_for repr digest int_text agency at now false body inbox o).0 ≡ ok (processed pk)
      → event_for repr digest int_text agency at' now' false body
          (event_for repr digest int_text agency at now false body inbox o).1
          o
        ≡ (ok (processed pk), (event_for repr digest int_text agency at now false body inbox o).1)
  unfolding event_for event_seen seen_before settle_event
  event_for_again agency at at' pk now now' body inbox timed no_bounce no_opt_out none h = cc
  event_for_again agency at at' pk now now' body inbox timed no_bounce no_opt_out (some pk') h =
      let (w', returned, same) = settled pk pk' inbox.world inbox.seen _ h in
      subst
        (λ r.
          let first = settle_event repr digest int_text pk' inbox.world inbox.seen r in
          settle_event repr digest int_text pk' first.1.world first.1.seen
            (process_event repr digest int_text agency at' pk' body first.1.world)
          ≡ (ok (processed pk), first.1))
        (sym returned)
        (rw
          (
            process_event_again agency at at' pk' body inbox.world w' timed no_bounce no_opt_out
                returned,
            same,
          )
          refl)

  -- While Redis cannot be reached, a delivery that is processed, and whose event is neither a bounce
  -- nor an unsubscription, is processed again with the same answer when it comes again, and changes
  -- nothing: its time being a text that is not empty.
  pub email_event_again :
      (agency at at' pk : String) (now now' : ℕ) (body : Fields) (inbox : Inbox)
      → HasTime body
      → is_bounce (type_of body) ≡ false
      → is_unsubscribe (type_of body) ≡ false
      → (email_event repr digest int_text agency at now false body inbox).0 ≡ ok (processed pk)
      → email_event repr digest int_text agency at' now' false body
          (email_event repr digest int_text agency at now false body inbox).1
        ≡ (ok (processed pk), (email_event repr digest int_text agency at now false body inbox).1)
  unfolding email_event
  email_event_again agency at at' pk now now' body inbox timed no_bounce no_opt_out =
      event_for_again agency at at' pk now now' body inbox timed no_bounce no_opt_out
        (enrollment_id_from body)
