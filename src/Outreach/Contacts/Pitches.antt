-- ===== src/Outreach/Contacts/Pitches.antt =====
-- A pitch that is recorded in the table of contacts.
use nativ.Prelude.{
  ℕ, ◌+◌, ◌*◌, ◌≤◌, String, ◌≡◌, ◌≢◌, refl, sym, ap, subst, false, Option, none, some, List, [],
  ◌∷◌, arith, ◌=s◌, Bool-cases, inl, inr,
}
use nativ.Json.{Fields, arr, obj, nil, cons, end, field, get, put, append}
use nativ.Json.Merge.{deep_merge}
use nativ.Outreach.Rows.{Enrollment, Contact}
use nativ.Outreach.PitchHistory.{pitch_entry, history_of, append_pitch_history}
use nativ.Outreach.Eligibility.{day, is_eligible}
use nativ.Outreach.Eligibility.Cooldown.{is_eligible-after_pitch}
use nativ.Outreach.Contacts.{
  is_contact, find_contact, write_contact, set_scalar_columns, patched_contact, with_pitch,
  record_pitch,
}
use nativ.Outreach.Contacts.Runs.{merge_value-list}

-- The merge of the one key is the change of that key.
deep_merge-pitch :
    (entry m : Fields)
    → deep_merge m (field "pitch_history" (arr (append (history_of m) (cons (obj entry) nil))) end)
      ≡ append_pitch_history entry m
unfolding deep_merge append_pitch_history
deep_merge-pitch entry m =
    ap (λ v. put "pitch_history" v m) (merge_value-list (get "pitch_history" m) _)

with_pitch_key :
    (agency pk : String) (entry : Fields) (c : Contact)
    → is_contact agency pk (with_pitch entry c) ≡ is_contact agency pk c
unfolding with_pitch patched_contact set_scalar_columns is_contact
with_pitch_key agency pk entry c = refl

with_pitch_doc :
    (entry : Fields) (c : Contact) → (with_pitch entry c).doc ≡ append_pitch_history entry c.doc
unfolding with_pitch patched_contact set_scalar_columns
with_pitch_doc entry c = deep_merge-pitch entry c.doc

find_contact-record_pitch :
    (agency pk : String) (entry : Fields) (rows : List Contact) (c : Contact)
    → find_contact agency pk rows ≡ some c
    → find_contact agency pk (record_pitch agency pk entry rows) ≡ some (with_pitch entry c)
unfolding find_contact record_pitch write_contact
find_contact-record_pitch agency pk entry [] c h = cc
find_contact-record_pitch agency pk entry (x ∷ rows) c h =
    elim (Bool-cases (is_contact agency pk x)) [
      | inl hit ↦ ground (arith, hit, h, with_pitch_key agency pk entry x)
      | inr miss ↦ ground (arith, find_contact-record_pitch agency pk entry rows c, miss, h)
    ]

module _ (parse_iso : String → Option ℕ) where
  -- After a pitch to a contact of the table, whose time is a text that can be read, the contact is found,
  -- and until the cooldown has run out the outreach filter refuses it to the talent who pitched.
  pub is_eligible-record_pitch :
      (agency pk talent enrollment template channel when_iso : String) (rows : List Contact)
      (c : Contact) (running : List Enrollment) (t now days : ℕ)
      → find_contact agency pk rows ≡ some c
      → parse_iso when_iso ≡ some t
      → (when_iso =s "") ≡ false
      → now ≤ t + days * day
      → (c' : Contact) × (find_contact agency pk
            (record_pitch agency pk (pitch_entry talent enrollment template channel when_iso) rows)
          ≡ some c')
        × (is_eligible parse_iso now days c'.do_not_contact c'.doc talent running ≢ none)
  is_eligible-record_pitch agency pk talent enrollment template channel when_iso rows c running t
        now days known e b h =
      let entry : Fields = pitch_entry talent enrollment template channel when_iso in
      let c' : Contact = with_pitch entry c in
      (
        c',
        find_contact-record_pitch agency pk entry rows c known,
        subst (λ m. is_eligible parse_iso now days c'.do_not_contact m talent running ≢ none)
            (sym (with_pitch_doc entry c))
            (is_eligible-after_pitch parse_iso talent enrollment template channel when_iso c.doc
              c'.do_not_contact running t now days e b h),
      )
