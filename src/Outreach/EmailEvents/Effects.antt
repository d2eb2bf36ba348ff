-- ===== src/Outreach/EmailEvents/Effects.antt =====
-- What a terminal engagement event, a bounce or an unsubscription, leaves in the tables.
use nativ.Prelude.{
  String, ◌≡◌, refl, ap, ◌∙◌, true, false, some, none, Option, List, [], ◌∷◌, arith, ok, Bool-cases,
  inl, inr,
}
use nativ.Json.{Json, Fields, str, obj, field, end, get, has}
use nativ.Json.Merge.{get-deep_merge, merge_value}
use nativ.Outreach.Rows.{killed, Enrollment, Contact}
use nativ.Outreach.Enrollments.{
  find_enrollment, find_active_for_contact, kill_each, write_enrollment, with_kill, is_row,
}
use nativ.Outreach.Enrollments.Kills.{KeyIsUnique, kill_all-none_active}
use nativ.Outreach.Enrollments.Written.{find-write, find-key}
use nativ.Outreach.Enrollments.Unique.{KeyIsUnique-written}
use nativ.Outreach.Enrollments.Changes.{upsert_step_event, set_killed, fetch, with_event}
use nativ.Outreach.Contacts.{
  is_contact, find_contact, write_contact, patched_contact, set_scalar_columns, sync_flag,
  sync_email,
}
use nativ.Outreach.Contacts.Runs.{merge_value-flag}
use nativ.Outreach.Replies.{World}
use nativ.Outreach.Replies.Reads.{Keeps, find_enrollment-write}
use nativ.Outreach.Replies.Effects.{IsSilenced}
use nativ.Outreach.EmailEvents.{
  from_row, patch_contact, contact_or_error, event_time, step_of, event_doc, is_bounce,
  is_unsubscribe, bounce_diff, opt_out_diff, mark_bounced, silence, bounce, by_type, process_event,
}
use nativ.Outreach.EmailEvents.Again.{type_of, taken_up}

-- A patch of a contact keeps what a read by key looks at.
patched_key :
    (agency pk : String) (diff : Fields) (c : Contact)
    → is_contact agency pk (patched_contact diff c) ≡ is_contact agency pk c
unfolding patched_contact set_scalar_columns is_contact
patched_key agency pk diff c = refl

find_contact-patched :
    (agency pk : String) (diff : Fields) (rows : List Contact) (c : Contact)
    → find_contact agency pk rows ≡ some c
    → find_contact agency pk (write_contact (is_contact agency pk) (patched_contact diff) rows)
      ≡ some (patched_contact diff c)
unfolding find_contact write_contact
find_contact-patched agency pk diff [] c h = cc
find_contact-patched agency pk diff (x ∷ rows) c h = elim (Bool-cases (is_contact agency pk x)) [
  | inl hit ↦ ground (arith, hit, h, patched_key agency pk diff x)
  | inr miss ↦ ground (arith, find_contact-patched agency pk diff rows c, miss, h)
]

opt_out_column :
    (time : Json) (c : Contact) → (patched_contact (opt_out_diff time) c).do_not_contact ≡ true
unfolding patched_contact set_scalar_columns sync_flag get has opt_out_diff
opt_out_column time c =
    ap (λ o. sync_flag o c.do_not_contact)
      (get-deep_merge "do_not_contact" c.doc _ (refl, (refl, (refl, tt)))
        ∙ ap some (merge_value-flag (get "do_not_contact" c.doc) true))

bounced_email :
    (c : Contact)
    → get "email" (patched_contact bounce_diff c).doc
      ≡ some
          (merge_value (get "email" c.doc) (obj (field "verification_status" (str "bounced") end)))
unfolding patched_contact set_scalar_columns bounce_diff has get
bounced_email c = get-deep_merge "email" c.doc _ (refl, tt)

bounced_text_email :
    (c : Contact) (s : String)
    → get "email" c.doc ≡ some (str s)
    → (patched_contact bounce_diff c).email ≡ none
unfolding patched_contact set_scalar_columns bounce_diff sync_email merge_value has get
bounced_text_email c s h =
    ap (λ o. sync_email o c.email)
      (get-deep_merge "email" c.doc bounce_diff (refl, tt)
        ∙ ap (λ o. some (merge_value o (obj (field "verification_status" (str "bounced") end)))) h)

with_kill-Keeps : (reason at : String) → Keeps (with_kill reason at)
unfolding with_kill
with_kill-Keeps reason at e = (refl, refl, refl)

with_kill-state : (reason at : String) (e : Enrollment) → (with_kill reason at e).state ≡ killed
unfolding with_kill
with_kill-state reason at e = refl

-- The enrollment and the contact after a bounce.
pub record IsBounced (agency pk : String) (e : Enrollment) (k : Contact) (w' : World) : Type 0 where
  pub enrollment : Enrollment
  pub found : find_enrollment agency pk w'.enrollments ≡ some enrollment
  pub stopped : enrollment.state ≡ killed
  pub contact : Contact
  pub known : find_contact agency e.contact_id w'.contacts ≡ some contact
  pub marked :
      get "email" contact.doc
      ≡ some
          (merge_value (get "email" k.doc) (obj (field "verification_status" (str "bounced") end)))
  pub lost : (s : String) → get "email" k.doc ≡ some (str s) → contact.email ≡ none

module _ (repr : Json → String) (digest : String → String) (int_text : String → Option String) where
  -- A delivery of an enrollment that is found, whose step number is a number, and for which the
  -- enrollment's events can be read.
  pub record IsStored (agency at pk : String) (body : Fields) (w : World) (e : Enrollment)
      : Type 0 where
    pub step : String
    pub step_read : step_of int_text body ≡ ok step
    pub found : find_enrollment agency pk w.enrollments ≡ some e
    pub doc : Fields
    pub stored :
        with_event step
          (event_doc (type_of repr digest int_text body) (event_time at body) body)
          e.doc
        ≡ ok doc

  module _ (agency at pk : String) (body : Fields) (w : World) (e : Enrollment) (k : Contact)
      (s : IsStored agency at pk body w e)
      (known : find_contact agency e.contact_id w.contacts ≡ some k) where
    abbrev stored_row : Enrollment
    stored_row = record e { doc = s.doc }

    abbrev stored_rows : List Enrollment
    stored_rows = write_enrollment agency pk (λ _. stored_row) w.enrollments

    found_stored : find_enrollment agency pk stored_rows ≡ some stored_row
    unfolding is_row
    found_stored = find-write agency pk w.enrollments e stored_row s.found refl

    stored_key : is_row agency pk stored_row ≡ true
    unfolding is_row
    stored_key = find-key agency pk w.enrollments e s.found

    upserted :
        upsert_step_event agency pk s.step
          (event_doc (type_of repr digest int_text body) (event_time at body) body)
          w.enrollments
        ≡ ok stored_rows
    unfolding upsert_step_event fetch
    upserted = rw (s.found, s.stored) refl

    reached :
        process_event repr digest int_text agency at pk body w
        ≡ by_type agency at pk
            (type_of repr digest int_text body)
            (event_time at body)
            (record w { enrollments = stored_rows })
    reached =
        taken_up repr digest int_text agency at pk s.step (event_time at body) body w stored_rows
          s.step_read refl upserted

    -- An unsubscription returns whose enrollment and contact are found, whose step number is left out or can be read,
    -- and for which the events that the enrollment holds can be read. It silences the contact: the contact
    -- may not be written to, and none of its enrollments, of whatever talent, is awaiting approval, active
    -- or paused. The identifiers of the enrollments are unique, as the primary key makes them.
    pub process_event_unsubscribe :
        is_bounce (type_of repr digest int_text body) ≡ false
        → is_unsubscribe (type_of repr digest int_text body) ≡ true
        → KeyIsUnique w.enrollments
        → (w' : World) × (process_event repr digest int_text agency at pk body w ≡ ok w')
          × IsSilenced agency e.contact_id w'
          × (w'.deals ≡ w.deals)
    unfolding by_type silence patch_contact contact_or_error
    process_event_unsubscribe no_bounce opt_out unique =
        let diff : Fields = opt_out_diff (event_time at body) in
        let w' : World = record w {
          contacts =
              write_contact (is_contact agency e.contact_id) (patched_contact diff) w.contacts;
          enrollments =
              kill_each agency "unsubscribed" at
                (find_active_for_contact agency e.contact_id stored_rows) stored_rows;
        } in
        (
          w',
          reached ∙ rw (no_bounce, opt_out, found_stored, known) refl,
          record {
            none_runs =
                kill_all-none_active agency e.contact_id "unsubscribed" at stored_rows
                  (KeyIsUnique-written agency pk stored_row stored_key w.enrollments unique);
            contact = patched_contact diff k;
            found = find_contact-patched agency e.contact_id diff w.contacts k known;
            opted = opt_out_column (event_time at body) k;
          },
          refl,
        )

    -- A bounce, under the same conditions, returns. It kills the enrollment, and marks the email address of
    -- the contact's document as bounced; an address that the document holds as a text is lost there,
    -- and the column of the address is emptied.
    process_event_bounce :
        is_bounce (type_of repr digest int_text body) ≡ true
        → (w' : World) × (process_event repr digest int_text agency at pk body w ≡ ok w')
          × IsBounced agency pk e k w'
          × (w'.deals ≡ w.deals)
    unfolding by_type bounce mark_bounced patch_contact contact_or_error set_killed fetch from_row
        with_kill
    process_event_bounce bounces =
        let dead : Enrollment = with_kill "bounced" at stored_row in
        let rows : List Enrollment =
          write_enrollment agency pk (with_kill "bounced" at) stored_rows in
        let found_dead : find_enrollment agency pk rows ≡ some dead =
          find_enrollment-write agency pk (with_kill "bounced" at) stored_rows stored_row
            (with_kill-Keeps "bounced" at) found_stored in
        (
          record w {
            contacts =
                write_contact (is_contact agency e.contact_id) (patched_contact bounce_diff)
                  w.contacts;
            enrollments = rows;
          },
          reached ∙ rw (bounces, found_stored, found_dead, known) refl,
          record {
            enrollment = dead;
            found = found_dead;
            stopped = with_kill-state "bounced" at stored_row;
            contact = patched_contact bounce_diff k;
            known = find_contact-patched agency e.contact_id bounce_diff w.contacts k known;
            marked = bounced_email k;
            lost = bounced_text_email k;
          },
          refl,
        )
