-- ===== src/Outreach/Enrollments.antt =====
-- app/repositories/pitch_enrollment.py, the calls of the reply handler. A table is the list of its rows in the order of creation.
pub mod Kills
pub mod Written
pub mod Unique
pub mod Changes
use nativ.Prelude.{
  String, Bool, true, false, not, ◌&&◌, Option, none, some, List, [], ◌∷◌, if◌then◌else◌, ◌=s◌,
  keep,
}
use nativ.Json.{Json, Fields, bool, str, end, field, get, put}
use nativ.Json.Merge.{deep_merge}
use nativ.Outreach.Rows.{EnrollmentState, killed, is_blocking, state_name, Enrollment}

-- the row that `get_by_id` finds
unfoldable pub is_row : String → String → Enrollment → Bool
is_row agency pk e = e.agency_id =s agency && (not e.is_deleted && (e.enrollment_id =s pk))

unfoldable pub find_enrollment : String → String → List Enrollment → Option Enrollment
find_enrollment agency pk [] = none
find_enrollment agency pk (e ∷ es) =
    if is_row agency pk e then some e else find_enrollment agency pk es

-- a write to the row of that key, and to no other
unfoldable pub write_enrollment :
    String → String → (Enrollment → Enrollment) → List Enrollment → List Enrollment
write_enrollment agency pk f [] = []
write_enrollment agency pk f (e ∷ es) =
    if is_row agency pk e then f e ∷ es else e ∷ write_enrollment agency pk f es

-- `patch_workflow_state`, for a diff that names no column
unfoldable pub patched : Fields → Enrollment → Enrollment
patched diff e = record e { doc = deep_merge e.doc diff }

-- `set_state(id, new_state, extra=...)`
unfoldable pub with_state : EnrollmentState → Fields → Enrollment → Enrollment
with_state s extra e = record e {
  state = s;
  doc = deep_merge e.doc (field "state" (str (state_name s)) extra);
}

-- `set_killed(id, kill_reason=...)`
unfoldable pub with_kill : String → String → Enrollment → Enrollment
with_kill reason at e = record e {
  state = killed;
  killed_at = some at;
  doc = deep_merge e.doc (field "kill_reason" (str reason) (field "killed_at" (str at) end));
}

-- the WHERE clause of `find_active_for_contact`
unfoldable pub is_active_for : String → String → Enrollment → Bool
is_active_for agency contact_id e =
    e.agency_id =s agency
    && (not e.is_deleted && ((e.contact_id =s contact_id) && is_blocking e.state))

unfoldable pub find_active_for_contact : String → String → List Enrollment → List Enrollment
find_active_for_contact agency contact_id = keep (is_active_for agency contact_id)

-- `for e in actives: await repo.set_killed(e.enrollment_id, ...)`
unfoldable pub kill_each :
    String → String → String → List Enrollment → List Enrollment → List Enrollment
kill_each agency reason at [] rows = rows
kill_each agency reason at (e ∷ es) rows =
    kill_each agency reason at es
      (write_enrollment agency e.enrollment_id (with_kill reason at) rows)
