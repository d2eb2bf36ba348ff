-- ===== src/Outreach/Enrollments/Changes/Events.antt =====
-- The engagement events of an enrollment, which app/repositories/pitch_enrollment.py keeps once each.
use nativ.Prelude.{
  String, ◌≡◌, refl, ap, subst, ◌∙◌, Bool, true, false, ◌&&◌, some, List, arith, ok, ok-injective,
  bind_returns, if◌then◌else◌,
}
use nativ.Json.{Json, Items, Fields, str, arr, obj, nil, cons, get, put, append}
use nativ.Json.Dict.{get-put_self, put-put}
use nativ.Json.Equal.{same_at, same_at-str}
use nativ.Outreach.Rows.{Enrollment}
use nativ.Outreach.Enrollments.{is_row, find_enrollment, write_enrollment}
use nativ.Outreach.Enrollments.Written.{find-key, find-write, write-write}
use nativ.Outreach.Enrollments.Changes.{
  fetch, as_dict, as_list, recorded_before, with_event, upsert_step_event,
}

-- The type and the time of an event are texts.
pub record IsEvent (event : Fields) : Type 0 where
  pub kind : String
  pub time : String
  pub has_kind : get "event_type" event ≡ some (str kind)
  pub has_time : get "occurred_at" event ≡ some (str time)

module _ (event : Fields) (shape : IsEvent event) where
  same_event :
      same_at (get "event_type" event) (get "event_type" event)
        && same_at (get "occurred_at" event) (get "occurred_at" event)
      ≡ true
  same_event = rw (shape.has_kind, shape.has_time, same_at-str, same_at-str) refl

  recorded_before-append :
      (bucket : Items)
      → recorded_before event bucket ≡ ok false
      → recorded_before event (append bucket (cons (obj event) nil)) ≡ ok true
  unfolding recorded_before append
  recorded_before-append nil h = rw same_event refl
  recorded_before-append (cons (obj e) es) h = ground (arith, recorded_before-append es)
  recorded_before-append (cons Json.null es) h = cc
  recorded_before-append (cons (Json.bool b) es) h = cc
  recorded_before-append (cons (Json.num n) es) h = cc
  recorded_before-append (cons (str s) es) h = cc
  recorded_before-append (cons (arr xs) es) h = cc

  -- the bucket after an event
  abbrev extended : Bool → Items → Items
  extended there bucket = if there then bucket else append bucket (cons (obj event) nil)

  recorded_before-extended :
      (there : Bool) (bucket : Items)
      → recorded_before event bucket ≡ ok there
      → recorded_before event (extended there bucket) ≡ ok true
  recorded_before-extended true bucket h = h
  recorded_before-extended false bucket h = recorded_before-append bucket h

  with_event_settled :
      (step : String) (bucket : Items) (events doc : Fields)
      → recorded_before event bucket ≡ ok true
      → with_event step event (put "events" (obj (put step (arr bucket) events)) doc)
        ≡ ok (put "events" (obj (put step (arr bucket) events)) doc)
  unfolding with_event as_dict as_list
  with_event_settled step bucket events doc h =
      rw (get-put_self, get-put_self, h, put-put, put-put) refl

  with_event_again :
      (step : String) (doc doc' : Fields)
      → with_event step event doc ≡ ok doc'
      → with_event step event doc' ≡ ok doc'
  unfolding with_event
  with_event_again step doc doc' h =
      let (events, h₁, e₁) = bind_returns _ (as_dict (get "events" doc)) h in
      let (bucket, h₂, e₂) = bind_returns _ (as_list (get step events)) h₁ in
      let (there, h₃, e₃) = bind_returns _ (recorded_before event bucket) h₂ in
      subst (λ d. with_event step event d ≡ ok d) (ok-injective h₃)
        (with_event_settled step (extended there bucket) events doc
          (recorded_before-extended there bucket e₃))

  pub fetch-found :
      (agency pk : String) (rows : List Enrollment) (e : Enrollment)
      → fetch agency pk rows ≡ ok e
      → find_enrollment agency pk rows ≡ some e
  unfolding fetch
  fetch-found agency pk rows e h = ground arith

  upsert_settled :
      (agency pk step : String) (rows : List Enrollment) (e : Enrollment)
      → find_enrollment agency pk rows ≡ some e
      → with_event step event e.doc ≡ ok e.doc
      → upsert_step_event agency pk step event rows ≡ ok (write_enrollment agency pk (λ _. e) rows)
  unfolding upsert_step_event fetch
  upsert_settled agency pk step rows e found settled = rw (found, settled) refl

  event_settled :
      (agency pk step : String) (rows : List Enrollment) (e : Enrollment) (doc : Fields)
      → find_enrollment agency pk rows ≡ some e
      → with_event step event doc ≡ ok doc
      → let rows' = write_enrollment agency pk (λ _. record e { doc = doc }) rows in
        upsert_step_event agency pk step event rows' ≡ ok rows'
  unfolding is_row
  event_settled agency pk step rows e doc found settled =
      let e' : Enrollment = record e { doc = doc } in
      upsert_settled agency pk step (write_enrollment agency pk (λ _. e') rows) e'
        (find-write agency pk rows e e' found refl) settled
      ∙ ap ok (write-write agency pk rows e' (find-key agency pk rows e found))

  -- An event that the repository takes up, and takes up again, leaves the rows of the first time: the
  -- type and the time of the event being texts.
  pub upsert_step_event_again :
      (agency pk step : String) (rows rows' : List Enrollment)
      → upsert_step_event agency pk step event rows ≡ ok rows'
      → upsert_step_event agency pk step event rows' ≡ ok rows'
  unfolding upsert_step_event
  upsert_step_event_again agency pk step rows rows' h =
      let (e, h₁, e₁) = bind_returns _ (fetch agency pk rows) h in
      let (doc, h₂, e₂) = bind_returns _ (with_event step event e.doc) h₁ in
      subst (λ l. upsert_step_event agency pk step event l ≡ ok l) (ok-injective h₂)
        (event_settled agency pk step rows e doc (fetch-found agency pk rows e e₁)
          (with_event_again step e.doc doc e₂))
