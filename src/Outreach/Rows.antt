-- ===== src/Outreach/Rows.antt =====
-- app/models/sqla/pitch_enrollment.py and app/models/sqla/brand_contact.py: the columns that the
-- services read or write. `doc` is the column `data`.
use nativ.Prelude.{String, Bool, true, false, Option, if◌then◌else◌, ◌=s◌}
use nativ.Json.{Fields}

-- The column `state`: `State` of app/models/pydantic/pitch_enrollment_schema.py, and `other` for any
-- other text that the column can hold.
pub data EnrollmentState : Type 0 where
  drafted awaiting_approval active paused completed killed : EnrollmentState
  other : String → EnrollmentState

unfoldable pub state_name : EnrollmentState → String
state_name drafted = "drafted"
state_name awaiting_approval = "awaiting_approval"
state_name active = "active"
state_name paused = "paused"
state_name completed = "completed"
state_name killed = "killed"
state_name (other s) = s

unfoldable pub state_of : String → EnrollmentState
state_of s =
    if s =s "drafted"
    then drafted
    else if s =s "awaiting_approval"
    then awaiting_approval
    else if s =s "active"
    then active
    else if s =s "paused"
    then paused
    else if s =s "completed"
    then completed
    else if s =s "killed"
    then killed
    else other s

-- `_BLOCKING_STATES` of the outreach filter, and `_ACTIVE_STATES` of the enrollment repository
unfoldable pub is_blocking : EnrollmentState → Bool
is_blocking awaiting_approval = true
is_blocking active = true
is_blocking paused = true
is_blocking _ = false

pub record Enrollment : Type 0 where
  pub enrollment_id : String
  pub agency_id : String
  pub talent_id : String
  pub contact_id : String
  pub brand_id : String
  pub template_id : String
  pub state : EnrollmentState
  pub created_deal_id : Option String
  pub killed_at : Option String
  pub is_deleted : Bool
  pub doc : Fields

pub record Contact : Type 0 where
  pub contact_id : String
  pub agency_id : String
  pub brand_id : String
  pub name : String
  pub decision_role : String
  pub email : Option String
  pub do_not_contact : Bool
  pub is_deleted : Bool
  pub doc : Fields
