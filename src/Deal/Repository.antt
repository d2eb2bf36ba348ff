-- ===== src/Deal/Repository.antt =====
-- app/repositories/deal.py over app/repositories/base.py. The table is the list of its rows in the
-- order of creation; a query that orders by `created_at` returns its rows in that order.
pub mod Table
pub mod Patch
pub mod Scanners
pub mod Finders
use nativ.Prelude.{
  ℕ, ◌+◌, String, Bool, true, false, not, ◌&&◌, ◌||◌, Option, none, some, List, [], ◌∷◌, ◌++◌,
  Result, ok, err, ◌>>=◌, ◌>>◌, guard, if◌then◌else◌, ◌=s◌, take, keep, any, ltb,
}
use nativ.Json.{
  Json, Items, Fields, null, bool, num, str, arr, obj, nil, cons, end, field, get, put, has, truthy,
  truthy_at, append,
}
use nativ.Json.Merge.{deep_merge}
use nativ.Deal.Errors.{DealError, forbidden, not_found, not_iterable}
use nativ.Deal.Substage.{
  Stage, lead, Substage, new_lead, initial_call_scheduled, post_campaign_reporting, same,
}
use nativ.Deal.Row.{Deal}
use nativ.Deal.Orchestrator.{list_of, put_text, history_entry}

-- `_base_filter`: the agency's rows that are not deleted
unfoldable pub base_filter : String → Deal → Bool
base_filter agency d = d.agency_id =s agency && not d.is_deleted

-- `get_by_id`
unfoldable pub get_by_id : String → String → List Deal → Option Deal
get_by_id agency pk [] = none
get_by_id agency pk (d ∷ ds) =
    if base_filter agency d && (d.deal_id =s pk) then some d else get_by_id agency pk ds

-- the write of a changed row, at a flush
unfoldable pub save : String → String → Deal → List Deal → List Deal
save agency pk d' [] = []
save agency pk d' (d ∷ ds) =
    if base_filter agency d && (d.deal_id =s pk) then d' ∷ ds else d ∷ save agency pk d' ds

-- `d.get(k) is not None`
not_none : Option Json → Bool
not_none none = false
not_none (some null) = false
not_none (some v) = true

-- `_ALLOWED_DATA_KEYS`
unfoldable pub allowed_data_key : String → Bool
allowed_data_key k =
    k =s "user_notes"
    || k =s "lead"
    || k =s "proposal"
    || k =s "contract"
    || k =s "delivery"
    || k =s "close"
    || k =s "attachments"
    || k =s "notes"
    || k =s "next_action"

-- the checks on `diff["data"]`, where it is a dict
validate_data : Option Json → Result DealError (Unit {0})
unfolding not_none
validate_data (some (obj m)) = do
  guard (not (not_none (get "loss" m))) (forbidden "data.loss")
  guard (not (has "stage_history" m)) (forbidden "data.stage_history")
validate_data _ = ok tt

unfoldable pub validate_workflow_diff : Fields → Result DealError (Unit {0})
unfolding validate_data
validate_workflow_diff diff = do
  guard (not (has "stage" diff)) (forbidden "stage")
  guard (not (has "substage" diff)) (forbidden "substage")
  guard (not (has "is_terminal" diff || has "is_won" diff)) (forbidden "is_terminal/is_won")
  validate_data (get "data" diff)

-- `{k: v for k, v in m.items() if k in _ALLOWED_DATA_KEYS}`
unfoldable pub allowed_fields : Fields → Fields
allowed_fields end = end
allowed_fields (field k v m) =
    let rest = allowed_fields m in if allowed_data_key k then field k v rest else rest

-- `data_diff`, empty where the diff has no dict under `data`
unfoldable pub data_diff : Option Json → Fields
data_diff (some (obj m)) = allowed_fields m
data_diff _ = end

-- `setattr(instance, key, diff[key])` where the diff has the key
abbrev pub assigned : Option Json → Json → Json
assigned none old = old
assigned (some v) old = v

-- the writes of `patch_workflow_state`
unfoldable pub patch_row : Fields → Deal → Deal
unfolding data_diff
patch_row diff d = record d {
  next_action_due_at = assigned (get "next_action_due_at" diff) d.next_action_due_at;
  expected_value_usd = assigned (get "expected_value_usd" diff) d.expected_value_usd;
  expected_close_date = assigned (get "expected_close_date" diff) d.expected_close_date;
  primary_contact_id = assigned (get "primary_contact_id" diff) d.primary_contact_id;
  doc = deep_merge d.doc (data_diff (get "data" diff));
}

-- what follows the check of the diff
patch_valid :
    String
    → String
    → Fields
    → List Deal
    → Deal
    → Result DealError (Unit {0})
    → Result DealError Deal × List Deal
patch_valid agency pk diff rows d (err e) = (err e, rows)
patch_valid agency pk diff rows d (ok done) =
    (ok (patch_row diff d), save agency pk (patch_row diff d) rows)

patch_found : String → String → Fields → List Deal → Option Deal → Result DealError Deal × List Deal
unfolding patch_valid
patch_found agency pk diff rows none = (err (not_found pk), rows)
patch_found agency pk diff rows (some d) =
    patch_valid agency pk diff rows d (validate_workflow_diff diff)

unfoldable pub patch_workflow_state :
    String → String → Fields → List Deal → Result DealError Deal × List Deal
unfolding patch_found
patch_workflow_state agency pk diff rows =
    patch_found agency pk diff rows (get_by_id agency pk rows)

-- `data.update(extra)`
update : Fields → Fields → Fields
update m end = m
update m (field k v rest) = update (put k v m) rest

-- The row that `insert_lead_from_enrollment` adds; `fresh` is the identifier that it draws.
unfoldable pub lead_row :
    String → String → String → String → String → String → String → Substage → Fields → Deal
unfolding update
lead_row fresh agency enrollment_id talent_id brand_id contact_id role substage extra_data =
    record {
      deal_id = fresh;
      agency_id = agency;
      talent_id = talent_id;
      brand_id = brand_id;
      primary_contact_id = str contact_id;
      originating_enrollment_id = some enrollment_id;
      stage = lead;
      substage = substage;
      is_terminal = false;
      is_won = false;
      expected_value_usd = null;
      expected_close_date = null;
      next_action_due_at = null;
      latest_prep_pack_id = none;
      is_deleted = false;
      doc =
          update
            (field "originating_enrollment_id" (str enrollment_id)
              (field "originating_decision_role_at_pitch" (str role) end))
            extra_data;
    }

opening : Option String → String
opening none = "manual creation"
opening (some s) = if s =s "" then "manual creation" else s

-- The row that `insert_manual_deal` adds.
unfoldable pub manual_row :
    String → String → String → String → Json → String → Option String → String → Deal
unfolding opening
manual_row fresh agency talent_id brand_id contact by_agent_id opening_note at = record {
  deal_id = fresh;
  agency_id = agency;
  talent_id = talent_id;
  brand_id = brand_id;
  primary_contact_id = contact;
  originating_enrollment_id = none;
  stage = lead;
  substage = new_lead;
  is_terminal = false;
  is_won = false;
  expected_value_usd = null;
  expected_close_date = null;
  next_action_due_at = null;
  latest_prep_pack_id = none;
  is_deleted = false;
  doc =
      field "stage_history"
        (arr (
          cons (obj (history_entry lead new_lead by_agent_id at (some (opening opening_note))))
            nil))
        end;
}

-- `dict(data.get(k) or {})`. Any truthy value but a dict is refused here; the source would also take
-- a list of pairs.
dict_of : Option Json → Result DealError Fields
dict_of none = ok end
dict_of (some (obj m)) = ok m
dict_of (some v) = if truthy v then err not_iterable else ok end

-- `x in xs`, for a text and a list
contains : String → Items → Bool
contains s nil = false
contains s (cons (str x) xs) = if x =s s then true else contains s xs
contains s (cons v xs) = contains s xs

-- the part of `set_latest_prep_pack_id` that writes `data.lead`
lead_with_pack : String → Fields → Items → Fields
unfolding contains
lead_with_pack pack lead_doc ids =
    put "discovery_prep_pack_ids"
      (arr (if contains pack ids then ids else append ids (cons (str pack) nil)))
      (put "latest_prep_pack_id" (str pack) lead_doc)

unfoldable pub set_latest_prep_pack_id : String → Deal → Result DealError Deal
unfolding dict_of lead_with_pack
set_latest_prep_pack_id pack d = do
  lead_doc ← dict_of (get "lead" d.doc)
  ids ← list_of (get "discovery_prep_pack_ids" lead_doc)
  ok (record d {
    latest_prep_pack_id = some pack;
    doc = put "lead" (obj (lead_with_pack pack lead_doc ids)) d.doc;
  })
