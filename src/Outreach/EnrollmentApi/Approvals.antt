-- ===== src/Outreach/EnrollmentApi/Approvals.antt =====
-- What the approval gate of app/api/enrollments.py lets through.
use nativ.Prelude.{ℕ, String, ◌≡◌, refl, ap, ◌∙◌, false, Option, some, List, [], ◌∷◌, ok, err, ◌=s◌}
use nativ.Json.{Json, Fields, str, obj, nil, cons, end, field, get}
use nativ.Json.Merge.{deep_merge}
use nativ.Outreach.Rows.{awaiting_approval, active, state_name, Enrollment, Contact}
use nativ.Outreach.Enrollments.{is_row, find_enrollment, write_enrollment}
use nativ.Outreach.Enrollments.Written.{find-key, find-write, find-write_other, is_row-id}
use nativ.Outreach.Enrollments.Changes.{fetch, patched_row, patch_workflow_state}
use nativ.Outreach.Contacts.{find_contact}
use nativ.Outreach.SmartleadPush.{
  VendorCall, create_campaign, add_leads, add_sequence, Smartlead, campaign_name, lead_payload,
  push_meta,
}
use nativ.Outreach.SmartleadPush.ReadBack.{IsAnswered, push_to_smartlead_sends}
use nativ.Outreach.EnrollmentApi.{
  Brand, find_brand, wrong_state, of_rows, steps_in, recipient, approval, store_approval, push_for,
  approve_row, approve_enrollment, patch_enrollment, patch_diff,
}

module _ (repr : Json → String) (agency now pk : String) (meta : Fields) (rows : List Enrollment)
    (e : Enrollment) (found : find_enrollment agency pk rows ≡ some e) where
  -- the row after an approval
  abbrev approved : Enrollment
  approved = record e { state = active; doc = deep_merge e.doc (approval now meta) }

  approval_patched : patched_row repr (approval now meta) e ≡ ok approved
  unfolding patched_row approval get
  approval_patched = refl

  approval_stored :
      patch_workflow_state repr agency pk (approval now meta) rows
      ≡ ok (write_enrollment agency pk (λ _. approved) rows)
  unfolding patch_workflow_state fetch
  approval_stored = rw (found, approval_patched) refl

  found_approved :
      find_enrollment agency pk (write_enrollment agency pk (λ _. approved) rows) ≡ some approved
  unfolding is_row
  found_approved = find-write agency pk rows e approved found refl

  other_rows :
      (other : String)
      → (pk =s other) ≡ false
      → find_enrollment agency other (write_enrollment agency pk (λ _. approved) rows)
        ≡ find_enrollment agency other rows
  other_rows other ne =
      find-write_other agency pk other rows approved ne
        (is_row-id agency pk e (find-key agency pk rows e found))

-- An approval of a row: the row is active, every other row is as it was, and a second approval of it
-- is refused without a call.
pub record IsApproved (repr : Json → String) (int_of : Json → Option ℕ) (agency pk : String)
    (rows rows' : List Enrollment) : Type 0 where
  pub enrollment : Enrollment
  pub found : find_enrollment agency pk rows' ≡ some enrollment
  pub runs : enrollment.state ≡ active
  pub others :
      (other : String)
      → (pk =s other) ≡ false
      → find_enrollment agency other rows' ≡ find_enrollment agency other rows
  pub once :
      (api : Smartlead) (later : String) (brands : List Brand) (contacts : List Contact)
      → approve_enrollment repr int_of api agency later pk brands contacts rows'
        ≡ ([], err (wrong_state active))

module _ (repr : Json → String) (int_of : Json → Option ℕ) where
  approve-refused :
      (api : Smartlead) (agency now pk : String) (brands : List Brand) (contacts : List Contact)
      (rows : List Enrollment) (e : Enrollment)
      → find_enrollment agency pk rows ≡ some e
      → (state_name e.state =s "awaiting_approval") ≡ false
      → approve_enrollment repr int_of api agency now pk brands contacts rows
        ≡ ([], err (wrong_state e.state))
  unfolding approve_enrollment approve_row
  approve-refused api agency now pk brands contacts rows e found waits = rw (found, waits) refl

  module _ (api : Smartlead) (agency now pk : String) (brands : List Brand)
      (contacts : List Contact) (rows : List Enrollment) (e : Enrollment) (c : Contact) (b : Brand)
      (found : find_enrollment agency pk rows ≡ some e) (waits : e.state ≡ awaiting_approval)
      (known : find_contact agency e.contact_id contacts ≡ some c)
      (branded : find_brand e.brand_id brands ≡ some b)
      (a : IsAnswered repr int_of api pk e.talent_id e.template_id
        (recipient c b)
        (steps_in (get "steps" e.doc))) where
    abbrev campaign : String
    campaign = campaign_name e.talent_id e.template_id

    abbrev calls : List VendorCall
    calls =
        create_campaign campaign
        ∷ add_leads a.campaign_id (cons (obj (lead_payload pk (recipient c b) a.primary_angle)) nil)
        ∷ add_sequence a.campaign_id a.sequences
        ∷ []

    abbrev meta : Fields
    meta = push_meta repr a.campaign_id a.lead_id campaign

    stored :
        store_approval repr int_of api agency now pk rows (ok meta)
        ≡ ok (write_enrollment agency pk (λ _. approved repr agency now pk meta rows e found) rows)
    unfolding store_approval of_rows
    stored = rw (approval_stored repr agency now pk meta rows e found) refl

    pushed :
        push_for repr int_of api agency now pk rows e (some c) (some b)
        ≡ (calls, store_approval repr int_of api agency now pk rows (ok meta))
    unfolding push_for
    pushed =
        ap (λ p. (p.0, store_approval repr int_of api agency now pk rows p.1))
          (push_to_smartlead_sends repr int_of api pk e.talent_id e.template_id (recipient c b)
            (steps_in (get "steps" e.doc)) a)

    -- An enrollment that awaits approval, whose contact has an address and is found with the brand, and
    -- whose push Smartlead answers, is approved: its campaign is created, its lead and its steps are
    -- sent, it becomes active, no other enrollment changes, and it cannot be approved again.
    pub approve_enrollment_activates :
        (rows' : List Enrollment) × (approve_enrollment repr int_of api agency now pk brands
            contacts rows
          ≡ (calls, ok rows'))
        × IsApproved repr int_of agency pk rows rows'
    unfolding approve_enrollment approve_row
    approve_enrollment_activates =
        let rows' : List Enrollment =
          write_enrollment agency pk (λ _. approved repr agency now pk meta rows e found) rows in
        (
          rows',
          rw (found, waits, known, branded) (pushed ∙ ap (λ r. (calls, r)) stored),
          record {
            enrollment = approved repr agency now pk meta rows e found;
            found = found_approved repr agency now pk meta rows e found;
            runs = refl;
            others = other_rows repr agency now pk meta rows e found;
            once = λ api' later brands' contacts'.
                approve-refused api' agency later pk brands' contacts' rows' _
                  (found_approved repr agency now pk meta rows e found) refl;
          },
        )

-- Whatever state an enrollment is in, a PATCH that names `active` makes it active: nothing asks for an
-- approval, and nothing is sent.
patch_enrollment_activates :
    (repr : Json → String) (agency pk : String) (rows : List Enrollment) (e : Enrollment)
    → find_enrollment agency pk rows ≡ some e
    → (rows' : List Enrollment) × (e' : Enrollment) × (patch_enrollment repr agency pk
          (field "state" (str "active") end)
          rows
        ≡ ok rows')
      × (find_enrollment agency pk rows' ≡ some e')
      × (e'.state ≡ active)
unfolding patch_enrollment patch_diff get patch_workflow_state patched_row fetch of_rows is_row
patch_enrollment_activates repr agency pk rows e found =
    let e' : Enrollment = record e {
      state = active;
      doc = deep_merge e.doc (field "state" (str "active") end);
    } in
    (
      write_enrollment agency pk (λ _. e') rows,
      e',
      rw found refl,
      find-write agency pk rows e e' found refl,
      refl,
    )
