-- ===== src/Outreach/Enrollments/Changes.antt =====
-- app/repositories/pitch_enrollment.py: the calls that change a row and can be refused, the finders and
-- the insert. `repr` is `str` on a value that is no text. A call that raises is rolled back by its caller.
pub mod Events
use nativ.Prelude.{
  ℕ, suc, zero, String, Bool, true, false, not, ◌&&◌, ◌||◌, Option, none, some, List, [], ◌∷◌, ◌++◌,
  any, if◌then◌else◌, ◌=s◌, keep, take, Result, ok, err, ◌>>=◌,
}
use nativ.Json.{
  Json, Items, Fields, null, str, arr, obj, nil, cons, end, field, get, put, truthy, append,
}
use nativ.Json.Equal.{same_at}
use nativ.Json.Merge.{deep_merge}
use nativ.Outreach.Rows.{EnrollmentState, awaiting_approval, state_name, state_of, Enrollment}
use nativ.Outreach.Enrollments.{find_enrollment, write_enrollment, with_kill}

pub data EnrollmentError : Type 0 where
  not_found : String → EnrollmentError
  -- an `AttributeError` or a `TypeError`, on a value of another type than the code takes it for
  wrong_type : String → EnrollmentError
  duplicate_key : String → EnrollmentError

-- `get_by_id`, and the error where there is no row
row_or_error : String → Option Enrollment → Result EnrollmentError Enrollment
row_or_error pk none = err (not_found pk)
row_or_error pk (some e) = ok e

unfoldable pub fetch : String → String → List Enrollment → Result EnrollmentError Enrollment
unfolding row_or_error
fetch agency pk rows = row_or_error pk (find_enrollment agency pk rows)

module _ (repr : Json → String) where
  -- `str(v)`
  unfoldable pub text_of : Json → String
  text_of (str s) = s
  text_of v = repr v

  -- the assignments to the two columns
  state_column : Option Json → EnrollmentState → EnrollmentState
  unfolding text_of state_of
  state_column none old = old
  state_column (some v) old = state_of (text_of v)

  deal_column : Option Json → Option String → Result EnrollmentError (Option String)
  deal_column none old = ok old
  deal_column (some null) old = ok none
  deal_column (some (str s)) old = ok (some s)
  deal_column (some v) old = err (wrong_type "created_deal_id")

  -- `patch_workflow_state`, on the row that it found
  unfoldable pub patched_row : Fields → Enrollment → Result EnrollmentError Enrollment
  unfolding state_column deal_column
  patched_row diff e = do
    deal ← deal_column (get "created_deal_id" diff) e.created_deal_id
    ok (record e {
      state = state_column (get "state" diff) e.state;
      created_deal_id = deal;
      doc = deep_merge e.doc diff;
    })

  unfoldable pub patch_workflow_state :
      String → String → Fields → List Enrollment → Result EnrollmentError (List Enrollment)
  unfolding fetch patched_row
  patch_workflow_state agency pk diff rows = do
    e ← fetch agency pk rows
    e' ← patched_row diff e
    ok (write_enrollment agency pk (λ _. e') rows)

  -- `set_state` without `extra`
  unfoldable pub set_state :
      String → String → String → List Enrollment → Result EnrollmentError (List Enrollment)
  unfolding patch_workflow_state
  set_state agency pk s rows = patch_workflow_state agency pk (field "state" (str s) end) rows

-- `set_killed`
unfoldable pub set_killed :
    String → String → String → String → List Enrollment → Result EnrollmentError (List Enrollment)
unfolding fetch
set_killed agency pk reason at rows = do
  e ← fetch agency pk rows
  ok (write_enrollment agency pk (with_kill reason at) rows)

-- `dict(v or {})` and `list(v or [])`
as_dict : Option Json → Result EnrollmentError Fields
as_dict none = ok end
as_dict (some (obj m)) = ok m
as_dict (some v) = if truthy v then err (wrong_type "events") else ok end

as_list : Option Json → Result EnrollmentError Items
as_list none = ok nil
as_list (some (arr xs)) = ok xs
as_list (some v) = if truthy v then err (wrong_type "events") else ok nil

-- the test for a duplicate, in the order of the bucket
unfoldable pub recorded_before : Fields → Items → Result EnrollmentError Bool
recorded_before event nil = ok false
recorded_before event (cons (obj e) es) =
    let rest = recorded_before event es in
    if same_at (get "event_type" e) (get "event_type" event)
      && same_at (get "occurred_at" e) (get "occurred_at" event)
    then ok true
    else rest
recorded_before event (cons v es) = err (wrong_type "events")

-- the new document; `step` is `str(step_number)`
unfoldable pub with_event : String → Fields → Fields → Result EnrollmentError Fields
unfolding as_dict as_list recorded_before
with_event step event doc = do
  events ← as_dict (get "events" doc)
  bucket ← as_list (get step events)
  there ← recorded_before event bucket
  let bucket' = if there then bucket else append bucket (cons (obj event) nil)
  ok (put "events" (obj (put step (arr bucket') events)) doc)

unfoldable pub upsert_step_event :
    String → String → String → Fields → List Enrollment → Result EnrollmentError (List Enrollment)
unfolding fetch with_event
upsert_step_event agency pk step event rows = do
  e ← fetch agency pk rows
  doc ← with_event step event e.doc
  ok (write_enrollment agency pk (λ _. record e { doc = doc }) rows)

-- `insert_draft`
unfoldable pub insert_draft :
    String
    → String
    → String
    → String
    → String
    → String
    → Fields
    → List Enrollment
    → Result EnrollmentError (List Enrollment)
insert_draft agency pk talent_id contact_id brand_id template_id doc rows =
    if any (λ (e : Enrollment). e.enrollment_id =s pk) rows
    then err (duplicate_key pk)
    else ok (
        rows
        ++ record {
          enrollment_id = pk;
          agency_id = agency;
          talent_id = talent_id;
          contact_id = contact_id;
          brand_id = brand_id;
          template_id = template_id;
          state = awaiting_approval;
          created_deal_id = none;
          killed_at = none;
          is_deleted = false;
          doc = doc;
        }
          ∷ [])

-- `find_by_talent`, `find_by_brand` and `find_by_state`, before their order and their limit
unfoldable pub find_by_talent : String → String → Option String → List Enrollment → List Enrollment
unfolding state_name
find_by_talent agency talent_id wanted = keep λ (e : Enrollment).
    e.agency_id =s agency
    && not e.is_deleted
    && (e.talent_id =s talent_id)
    && elim wanted [ none ↦ true | some s ↦ (s =s "") || (state_name e.state =s s) ]

unfoldable pub find_by_brand : String → String → List Enrollment → List Enrollment
find_by_brand agency brand_id =
    keep λ (e : Enrollment). e.agency_id =s agency && not e.is_deleted && (e.brand_id =s brand_id)

unfoldable pub find_by_state : String → String → List Enrollment → List Enrollment
unfolding state_name
find_by_state agency s =
    keep λ (e : Enrollment). e.agency_id =s agency && not e.is_deleted && (state_name e.state =s s)
