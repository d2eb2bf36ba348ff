-- ===== src/Outreach/Replies/Effects.antt =====
-- What a reply leaves in the three tables.
use nativ.Prelude.{
  String, ◌≡◌, ◌⊎◌, refl, ap, ◌∙◌, true, some, List, [], ◌∷◌, ◌++◌, ok, ◌>>=◌, Bool-cases, inl, inr,
  map,
}
use nativ.Json.{Fields, get, truthy_at, obj, field, end}
use nativ.Deal.Substage.{Substage, new_lead, initial_call_scheduled}
use nativ.Deal.Row.{Deal}
use nativ.Deal.Transitions.{auto_advance, member, stage_by_substage}
use nativ.Deal.Substage.{same}
use nativ.Deal.Repository.{lead_row}
use nativ.Deal.Orchestrator.Lives.{IsConsistent}
use nativ.Outreach.Rows.{completed, Enrollment, Contact}
use nativ.Outreach.Enrollments.{
  find_enrollment, write_enrollment, patched, find_active_for_contact, kill_each,
}
use nativ.Outreach.Contacts.{is_contact, find_contact, write_contact, opted_out}
use nativ.Outreach.Enrollments.Kills.{KeyIsUnique, KeyIsUnique-write, kill_all-none_active}
use nativ.Outreach.Replies.Reads.{
  Keeps, find_enrollment-write, find_contact-opted_out, opted_out_column,
}
use nativ.Outreach.Replies.{
  interested, unsubscribe_request, OutcomeClassification, World, cross_roster_killed, deal_created,
  substage_from_signals, classification_doc, recorded, linked, role_of, deal_and_link, deal_for,
  create_deal_from_interested_reply, unsubscribe, by_outcome, reply_to, handle_reply,
}

recorded-Keeps : (c : OutcomeClassification) (occurred_at : String) → Keeps (recorded c occurred_at)
unfolding recorded patched
recorded-Keeps c occurred_at e = (refl, refl, refl)

linked-Keeps : (fresh : String) → Keeps (linked fresh)
unfolding linked patched
linked-Keeps fresh e = (refl, refl, refl)

-- No enrollment of the contact runs any more, and the contact may not be written to.
pub record IsSilenced (agency contact_id : String) (w : World) : Type 0 where
  pub none_runs : find_active_for_contact agency contact_id w.enrollments ≡ []
  pub contact : Contact
  pub found : find_contact agency contact_id w.contacts ≡ some contact
  pub opted : contact.do_not_contact ≡ true

-- The deal of an interested reply: the row is added, it starts in the substage that the signals
-- name, it is consistent, and it and the enrollment point at each other.
pub record IsLinked (agency : String) (c : OutcomeClassification) (e : Enrollment) (w w' : World)
    : Type 0 where
  pub deal : Deal
  pub added : w'.deals ≡ w.deals ++ deal ∷ []
  pub opens : deal.substage ≡ substage_from_signals c.extracted_signals
  pub consistent : IsConsistent deal
  pub origin : deal.originating_enrollment_id ≡ some e.enrollment_id
  pub enrollment : Enrollment
  pub found : find_enrollment agency e.enrollment_id w'.enrollments ≡ some enrollment
  pub done : enrollment.state ≡ completed
  pub forward : enrollment.created_deal_id ≡ some deal.deal_id
  pub contacts_kept : w'.contacts ≡ w.contacts

opening_substage :
    (m : Fields)
    → (substage_from_signals m ≡ initial_call_scheduled) ⊎ (substage_from_signals m ≡ new_lead)
unfolding substage_from_signals
opening_substage m = elim (Bool-cases (truthy_at (get "asked_for_meeting" m))) [
  | inl asked ↦ inl (rw asked refl)
  | inr not_asked ↦ inr (rw not_asked refl)
]

module _ (fresh agency enrollment_id talent brand contact role : String) (extra : Fields) where
  lead_row-IsConsistent :
      (s : Substage)
      → (s ≡ initial_call_scheduled) ⊎ (s ≡ new_lead)
      → IsConsistent (lead_row fresh agency enrollment_id talent brand contact role s extra)
  unfolding lead_row auto_advance member same stage_by_substage
  lead_row-IsConsistent s (inl call) =
      rw call record { fits = λ x e. cc; terminal = refl; won = refl; at_rest = refl }
  lead_row-IsConsistent s (inr fresh_lead) =
      rw fresh_lead record { fits = λ x e. cc; terminal = refl; won = refl; at_rest = refl }

module _ (agency fresh at occurred_at : String) (c : OutcomeClassification) (e : Enrollment)
    (w : World) (held : find_enrollment agency e.enrollment_id w.enrollments ≡ some e) where
  -- The tables after the record of the classification.
  after_record : World
  after_record = record w {
    enrollments = write_enrollment agency e.enrollment_id (recorded c occurred_at) w.enrollments;
  }

  handled :
      handle_reply agency fresh at occurred_at e.enrollment_id c w
      ≡ by_outcome agency fresh at occurred_at e c c.outcome after_record
  unfolding handle_reply reply_to after_record
  handled = rw held refl

  found_again :
      find_enrollment agency e.enrollment_id after_record.enrollments
      ≡ some (recorded c occurred_at e)
  unfolding after_record
  found_again =
      find_enrollment-write agency e.enrollment_id (recorded c occurred_at) w.enrollments e
        (recorded-Keeps c occurred_at) held

  -- A reply of a found enrollment that is classified as interested adds one deal, which opens in the substage that the signals name and
  -- is consistent; the deal names the enrollment, and the enrollment, completed, names the deal.
  pub handle_reply_interested :
      c.outcome ≡ interested
      → (w' : World) × (handle_reply agency fresh at occurred_at e.enrollment_id c w
          ≡ ok (w', deal_created fresh))
        × IsLinked agency c e w w'
  unfolding by_outcome create_deal_from_interested_reply deal_for deal_and_link lead_row
      after_record linked
  handle_reply_interested h =
      let role : String = role_of (find_contact agency e.contact_id after_record.contacts) in
      let extra : Fields =
        field "originating_classification" (obj (classification_doc c end)) end in
      let w' : World = deal_and_link agency fresh e role c after_record in
      (
        w',
        handled
            ∙ ap (λ o. by_outcome agency fresh at occurred_at e c o after_record) h
            ∙ ap
                (λ o.
                  deal_for o agency fresh e role c after_record >>= λ v. ok (v, deal_created fresh))
                h,
        record {
          deal = _;
          added = refl;
          opens = refl;
          consistent =
              lead_row-IsConsistent _ _ _ _ _ _ role extra _ (opening_substage c.extracted_signals);
          origin = refl;
          enrollment = linked fresh (recorded c occurred_at e);
          found =
              find_enrollment-write agency e.enrollment_id (linked fresh) after_record.enrollments
                (recorded c occurred_at e) (linked-Keeps fresh) found_again;
          done = refl;
          forward = refl;
          contacts_kept = refl;
        },
      )

  -- An unsubscribe request whose contact is found marks the contact and stops each of its
  -- enrollments, of every talent, that was awaiting approval, active or paused. The identifiers of the
  -- enrollments must be unique, as the primary key makes them.
  pub handle_reply_unsubscribe :
      (k : Contact)
      → c.outcome ≡ unsubscribe_request
      → find_contact agency e.contact_id w.contacts ≡ some k
      → KeyIsUnique w.enrollments
      → (w' : World) × (names : List String) × (handle_reply agency fresh at occurred_at
            e.enrollment_id c w
          ≡ ok (w', cross_roster_killed names))
        × IsSilenced agency e.contact_id w'
        × (w'.deals ≡ w.deals)
  unfolding by_outcome unsubscribe after_record
  handle_reply_unsubscribe k h known u =
      let rows : List Enrollment = after_record.enrollments in
      let actives : List Enrollment = find_active_for_contact agency e.contact_id rows in
      let w' : World = record after_record {
        contacts =
            write_contact (is_contact agency e.contact_id)
              (opted_out "outreach_reply_unsubscribe" occurred_at) w.contacts;
        enrollments = kill_each agency "unsubscribed" at actives rows;
      } in
      (
        w',
        map (λ (x : Enrollment). x.enrollment_id) actives,
        handled
            ∙ ap (λ o. by_outcome agency fresh at occurred_at e c o after_record) h
            ∙ ap (unsubscribe agency at occurred_at e after_record) known,
        record {
          none_runs = kill_all-none_active agency e.contact_id "unsubscribed" at rows (
              KeyIsUnique-write agency (recorded c occurred_at)
                (λ x. (recorded-Keeps c occurred_at x).0) e.enrollment_id w.enrollments u);
          contact = opted_out "outreach_reply_unsubscribe" occurred_at k;
          found =
              find_contact-opted_out "outreach_reply_unsubscribe" occurred_at agency e.contact_id
                w.contacts k known;
          opted = opted_out_column "outreach_reply_unsubscribe" occurred_at k;
        },
        refl,
      )
