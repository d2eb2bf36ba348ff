-- ===== src/Outreach/EnrollmentApi.antt =====
-- app/api/enrollments.py: the endpoints that change an enrollment, from the validated request on, and
-- app/services/enrollment_state_sync.py. A call that raises is rolled back: its error is the result.
pub mod Approvals
use nativ.Prelude.{
  ℕ, suc, String, Bool, true, false, not, ◌&&◌, ◌||◌, Option, none, some, List, [], ◌∷◌, ◌++◌,
  Result, ok, err, ◌>>=◌, if◌then◌else◌, ◌=s◌,
}
use nativ.Json.{
  Json, Items, Fields, null, bool, num, str, arr, obj, nil, cons, end, field, get, truthy,
}
use nativ.Outreach.Rows.{EnrollmentState, state_name, Enrollment, Contact}
use nativ.Outreach.Enrollments.{find_enrollment}
use nativ.Outreach.Enrollments.Changes.{
  EnrollmentError, wrong_type, patch_workflow_state, set_killed, set_state, find_by_state,
}
use nativ.Outreach.Contacts.{find_contact}
use nativ.Outreach.SmartleadPush.{VendorCall, PushError, Recipient, Smartlead, push_to_smartlead}

-- app/models/sqla/brand.py: the columns that an approval reads. A brand belongs to no agency.
pub record Brand : Type 0 where
  pub brand_id : String
  pub name : String
  pub is_deleted : Bool

unfoldable pub find_brand : String → List Brand → Option Brand
find_brand pk [] = none
find_brand pk (b ∷ bs) = if not b.is_deleted && (b.brand_id =s pk) then some b else find_brand pk bs

pub data ApiError : Type 0 where
  of_repository : EnrollmentError → ApiError
  no_enrollment : String → ApiError
  wrong_state : EnrollmentState → ApiError
  -- whether the contact and whether the brand was found
  missing_reference : Bool → Bool → ApiError
  push_failed : PushError → ApiError
  invalid_body : ApiError

of_rows {ℓ} : {A : Type ℓ} → Result EnrollmentError A → Result ApiError A
of_rows (ok a) = ok a
of_rows (err e) = err (of_repository e)

-- `(enrollment.data or {}).get("steps") or []`
unfoldable pub steps_in : Option Json → Json
steps_in none = arr nil
steps_in (some v) = if truthy v then v else arr nil

unfoldable pub recipient : Contact → Brand → Recipient
recipient c b = record {
  name = c.name;
  email_address = c.email;
  decision_role = c.decision_role;
  company = b.name;
}

unfoldable pub approval : String → Fields → Fields
approval now meta =
    field "state" (str "active")
      (field "approved_at" (str now) (field "smartlead_meta" (obj meta) end))

module _ (repr : Json → String) (int_of : Json → Option ℕ) (api : Smartlead) where
  -- after the push
  store_approval :
      String
      → String
      → String
      → List Enrollment
      → Result PushError Fields
      → Result ApiError (List Enrollment)
  unfolding of_rows approval
  store_approval agency now pk rows (err e) = err (push_failed e)
  store_approval agency now pk rows (ok meta) =
      of_rows (patch_workflow_state repr agency pk (approval now meta) rows)

  push_for :
      String
      → String
      → String
      → List Enrollment
      → Enrollment
      → Option Contact
      → Option Brand
      → List VendorCall × Result ApiError (List Enrollment)
  unfolding store_approval recipient steps_in
  push_for agency now pk rows e (some c) (some b) =
      let pushed =
        push_to_smartlead repr int_of api pk e.talent_id e.template_id (recipient c b)
          (steps_in (get "steps" e.doc)) none in
      (pushed.0, store_approval agency now pk rows pushed.1)
  push_for agency now pk rows e (some c) none = ([], err (missing_reference true false))
  push_for agency now pk rows e none (some b) = ([], err (missing_reference false true))
  push_for agency now pk rows e none none = ([], err (missing_reference false false))

  approve_row :
      String
      → String
      → String
      → List Brand
      → List Contact
      → List Enrollment
      → Option Enrollment
      → List VendorCall × Result ApiError (List Enrollment)
  unfolding push_for state_name
  approve_row agency now pk brands contacts rows none = ([], err (no_enrollment pk))
  approve_row agency now pk brands contacts rows (some e) =
      if state_name e.state =s "awaiting_approval"
      then push_for agency now pk rows e (find_contact agency e.contact_id contacts)
          (find_brand e.brand_id brands)
      else ([], err (wrong_state e.state))

  -- `approve_enrollment`: the calls that were sent to Smartlead, and the rows; `now` is the ISO text
  -- of the time
  unfoldable pub approve_enrollment :
      String
      → String
      → String
      → List Brand
      → List Contact
      → List Enrollment
      → List VendorCall × Result ApiError (List Enrollment)
  unfolding approve_row
  approve_enrollment agency now pk brands contacts rows =
      approve_row agency now pk brands contacts rows (find_enrollment agency pk rows)

-- `_STATE_PATTERN`, which the text `drafted` does not match
patch_state : String → Bool
patch_state s =
    s =s "awaiting_approval" || s =s "active" || s =s "paused" || s =s "completed" || s =s "killed"

-- the declared fields of `EnrollmentPatch`
valid_state : Option Json → Bool
unfolding patch_state
valid_state none = true
valid_state (some null) = true
valid_state (some (str s)) = patch_state s
valid_state _ = false

valid_notes : Option Json → Bool
valid_notes none = true
valid_notes (some null) = true
valid_notes (some (str s)) = true
valid_notes _ = false

declared : String → Option Json → Fields → Fields
declared k none m = m
declared k (some null) m = m
declared k (some v) m = field k v m

-- the keys that `EnrollmentPatch` does not declare, and whose value is not None
extras : Fields → Fields
extras end = end
extras (field k v m) =
    let rest = extras m in
    if k =s "user_notes" || k =s "state" then rest else declared k (some v) rest

-- `payload.model_dump(exclude_none=True, exclude_unset=True)`
unfoldable pub patch_diff : Fields → Fields
unfolding declared extras
patch_diff body =
    declared "user_notes" (get "user_notes" body)
      (declared "state" (get "state" body) (extras body))

-- `patch_enrollment`
unfoldable pub patch_enrollment :
    (Json → String) → String → String → Fields → List Enrollment → Result ApiError (List Enrollment)
unfolding patch_diff of_rows valid_state valid_notes
patch_enrollment repr agency pk body rows =
    if valid_state (get "state" body) && valid_notes (get "user_notes" body)
    then of_rows (patch_workflow_state repr agency pk (patch_diff body) rows)
    else err invalid_body

-- `kill_enrollment`, for a reason of at most 120 characters
unfoldable pub kill_enrollment :
    String → String → String → String → List Enrollment → Result ApiError (List Enrollment)
unfolding of_rows
kill_enrollment agency now pk reason rows = of_rows (set_killed agency pk reason now rows)

-- `meta.get("campaign_id")`, of the dict under `smartlead_meta`
campaign_in : Option Json → Result EnrollmentError (Option Json)
campaign_in none = ok none
campaign_in (some (obj m)) = ok (get "campaign_id" m)
campaign_in (some v) = if truthy v then err (wrong_type "smartlead_meta") else ok none

state_for : Option Json → Option String
state_for (some (str s)) =
    if s =s "COMPLETED" then some "completed" else if s =s "PAUSED" then some "paused" else none
state_for _ = none

-- `status` is what `get_campaign_status` answers under `status`; none where the call raises
module _ (repr : Json → String) (status : Json → Option (Option Json)) where
  answered_state : Option (Option Json) → Option String
  unfolding state_for
  answered_state none = none
  answered_state (some current) = state_for current

  wanted_state : Option Json → Option String
  unfolding answered_state
  wanted_state none = none
  wanted_state (some id) = if truthy id then answered_state (status id) else none

  move_to :
      String → String → List Enrollment → Option String → Result EnrollmentError (List Enrollment)
  move_to agency pk rows none = ok rows
  move_to agency pk rows (some s) = set_state repr agency pk s rows

  -- the loop over the listed enrollments
  sync_each : String → List Enrollment → List Enrollment → Result EnrollmentError (List Enrollment)
  unfolding wanted_state campaign_in move_to
  sync_each agency [] rows = ok rows
  sync_each agency (e ∷ es) rows = do
    id ← campaign_in (get "smartlead_meta" e.doc)
    rows' ← move_to agency e.enrollment_id rows (wanted_state id)
    sync_each agency es rows'

  -- `_sync_async`
  unfoldable pub enrollment_state_sync :
      String → List Enrollment → Result EnrollmentError (List Enrollment)
  unfolding sync_each
  enrollment_state_sync agency rows = sync_each agency (find_by_state agency "active" rows) rows
