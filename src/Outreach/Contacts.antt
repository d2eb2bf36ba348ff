-- ===== src/Outreach/Contacts.antt =====
-- app/repositories/brand_contact.py: the columns that mirror the document, the workflow patch, and the
-- batch of an enrichment run. The table is the list of its rows; a primary key that is taken makes the
-- insert raise. `repr` is `str` on a name that is no text. An identifier in a payload is a text.
pub mod Runs
pub mod Pitches
use Prim.Native.String
use nativ.Prelude.{
  ℕ, zero, suc, String, Bool, true, false, not, ◌&&◌, ◌||◌, Option, none, some, List, [], ◌∷◌, ◌++◌,
  any, keep, Result, ok, err, ◌>>=◌, if◌then◌else◌, ◌=s◌,
}
use nativ.Text.{lower, strip, is_empty}
use nativ.Json.{Json, Fields, bool, str, obj, end, field, get, truthy}
use nativ.Json.Merge.{deep_merge}
use nativ.Json.{arr, nil, cons, append}
use nativ.Outreach.PitchHistory.{history_of}
use nativ.Outreach.Rows.{Contact}
use nativ.Outreach.Eligibility.{was_recently_pitched}

unfoldable pub is_contact : String → String → Contact → Bool
is_contact agency pk c = c.agency_id =s agency && (not c.is_deleted && (c.contact_id =s pk))

unfoldable pub find_contact : String → String → List Contact → Option Contact
find_contact agency pk [] = none
find_contact agency pk (c ∷ cs) =
    if is_contact agency pk c then some c else find_contact agency pk cs

-- a write to the first row that passes a test, and to no other
unfoldable pub write_contact : (Contact → Bool) → (Contact → Contact) → List Contact → List Contact
write_contact p f [] = []
write_contact p f (c ∷ cs) = if p c then f c ∷ cs else c ∷ write_contact p f cs

-- the branches of `set_scalar_columns`
unfoldable pub sync_role : Option Json → String → String
unfolding lower strip
sync_role (some (str s)) old = if is_empty (strip s) then old else lower (strip s)
sync_role _ old = old

address_of : Option Json → Option String
unfolding strip
address_of (some (str s)) = if is_empty (strip s) then none else some s
address_of _ = none

unfoldable pub sync_email : Option Json → Option String → Option String
unfolding address_of strip
sync_email (some (obj e)) old = address_of (get "address" e)
sync_email (some (str s)) old = if is_empty (strip s) then none else some (strip s)
sync_email _ old = old

unfoldable pub sync_flag : Option Json → Bool → Bool
sync_flag (some (bool b)) old = b
sync_flag _ old = old

unfoldable pub set_scalar_columns : Fields → Contact → Contact
set_scalar_columns m c = record c {
  decision_role = sync_role (get "decision_role" m) c.decision_role;
  email = sync_email (get "email" m) c.email;
  do_not_contact = sync_flag (get "do_not_contact" m) c.do_not_contact;
}

-- the row after `patch_workflow_state`
unfoldable pub patched_contact : Fields → Contact → Contact
patched_contact diff c =
    let m = deep_merge c.doc diff in set_scalar_columns m (record c { doc = m })

-- the row after a patch with the opt-out diff of the reply handler
unfoldable pub opted_out : String → String → Contact → Contact
opted_out reason at = patched_contact (
    field "do_not_contact" (bool true)
      (field "do_not_contact_reason" (str reason) (field "opt_out_at" (str at) end)))

-- `_WORKFLOW_STATE_KEYS`
unfoldable pub workflow_key : String → Bool
workflow_key k =
    k =s "do_not_contact"
    || k =s "do_not_contact_reason"
    || k =s "opt_out_at"
    || k =s "pitch_history"
    || k =s "tags"
    || k =s "notes"
    || k =s "champion_for_talents"
    || k =s "first_discovered_at"

-- a dict comprehension over the items of a dict
unfoldable pub select : (String → Bool) → Fields → Fields
select p end = end
select p (field k v m) = let rest = select p m in if p k then field k v rest else rest

abbrev pub enrichment_key : String → Bool
enrichment_key k = not (k =s "contact_id" || k =s "brand_id")

unfoldable pub truncate : ℕ → String → String
truncate zero s = String.[]
truncate (suc n) String.[] = String.[]
truncate (suc n) (String.◌∷◌ c s) = String.◌∷◌ c (truncate n s)

-- the row of `get_by_brand_and_contact`
unfoldable pub is_brand_contact : String → String → String → Contact → Bool
unfolding is_contact
is_brand_contact agency brand pk c = is_contact agency pk c && (c.brand_id =s brand)

pub data ContactError : Type 0 where
  duplicate_key : String → ContactError

-- `payload.get("contact_id")`, where it is truthy
key_of : Option Json → Option String
key_of (some (str s)) = if s =s "" then none else some s
key_of _ = none

module _ (repr : Json → String) where
  -- `str(payload.get("name") or "Unknown")[:200]`
  unfoldable pub name_of : Option Json → String
  unfolding truncate truthy
  name_of none = "Unknown"
  name_of (some (str s)) = if s =s "" then "Unknown" else truncate 200 s
  name_of (some v) = if truthy v then truncate 200 (repr v) else "Unknown"

  -- the row that is inserted
  unfoldable pub fresh_contact : String → String → String → Fields → Contact
  fresh_contact agency brand pk payload =
      let m = select enrichment_key payload in
      set_scalar_columns m (record {
        contact_id = pk;
        agency_id = agency;
        brand_id = brand;
        name = name_of (get "name" payload);
        decision_role = "unknown";
        email = none;
        do_not_contact = false;
        is_deleted = false;
        doc = m;
      })

  -- the row that is updated: the preserved workflow state is merged over the new document
  unfoldable pub refreshed : Fields → Contact → Contact
  refreshed payload c =
      let m = deep_merge (select enrichment_key payload) (select workflow_key c.doc) in
      set_scalar_columns m (record c { name = name_of (get "name" payload); doc = m })

  insert_contact : Bool → Contact → List Contact → Result ContactError (List Contact)
  insert_contact true c rows = err (duplicate_key c.contact_id)
  insert_contact false c rows = ok (rows ++ c ∷ [])

  -- one payload, by whether the row is there
  upsert_found :
      String → String → String → Fields → List Contact → Bool → Result ContactError (List Contact)
  unfolding insert_contact
  upsert_found agency brand pk payload rows true =
      ok (write_contact (is_brand_contact agency brand pk) (refreshed payload) rows)
  upsert_found agency brand pk payload rows false =
      insert_contact (any (λ (c : Contact). c.contact_id =s pk) rows)
        (fresh_contact agency brand pk payload) rows

  unfoldable pub upsert_one :
      String → String → Fields → List Contact → Result ContactError (List Contact)
  unfolding upsert_found key_of
  upsert_one agency brand payload rows = elim (key_of (get "contact_id" payload)) [
    | none ↦ ok rows
    | some pk ↦
        upsert_found agency brand pk payload rows (any (is_brand_contact agency brand pk) rows)
  ]

  unfoldable pub upsert_run_batch :
      String → String → List Fields → List Contact → Result ContactError (List Contact)
  upsert_run_batch agency brand [] rows = ok rows
  upsert_run_batch agency brand (payload ∷ payloads) rows =
      upsert_one agency brand payload rows >>= upsert_run_batch agency brand payloads

-- `find_pitchable_for_talent`; its order, by the time of the last update, is left out
unfoldable pub find_pitchable_for_talent :
    (String → Option ℕ) → ℕ → String → String → String → List Contact → List Contact
find_pitchable_for_talent parse_iso now agency talent_id brand = keep λ (c : Contact).
    c.agency_id =s agency
    && not c.is_deleted
    && (c.brand_id =s brand)
    && not c.do_not_contact
    && not (was_recently_pitched parse_iso now c.doc talent_id)

-- the patch of `append_pitch_history` of app/services/outreach/loopback_writers.py
unfoldable pub with_pitch : Fields → Contact → Contact
with_pitch entry c =
    patched_contact
      (field "pitch_history" (arr (append (history_of c.doc) (cons (obj entry) nil))) end) c

-- `append_pitch_history`, which passes over a contact that is not found
unfoldable pub record_pitch : String → String → Fields → List Contact → List Contact
record_pitch agency pk entry = write_contact (is_contact agency pk) (with_pitch entry)
