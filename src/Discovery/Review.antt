-- ===== src/Discovery/Review.antt =====
-- app/repositories/industry_review.py and the writing handlers of app/api/industry_review.py. The table is
-- the list of its rows in the order of creation. A call that raises is rolled back.
--
-- `patch_items` changes the dicts of the stored list in place, then assigns a list of them. What a flush
-- writes is SQLAlchemy's to say, and a parameter.
pub mod Changes
pub mod Pending
pub mod Immutable
pub mod Flush
pub mod Refines
use nativ.Prelude.{
  String, Bool, true, false, not, ◌&&◌, Option, none, some, List, [], ◌∷◌, ◌++◌, Result, ok, err,
  ◌>>=◌, ◌>>◌, guard, if◌then◌else◌, ◌=s◌, ◌≡◌, first, replace_first, latest, update_latest, any,
}
use nativ.Text.{lower, strip}
use nativ.Json.{
  Json, Items, Fields, null, bool, str, arr, obj, nil, cons, end, field, get, put, truthy, append,
}
use nativ.Json.Equal.{equals}

-- The column `status`, and `other` for any other text.
pub data Status : Type 0 where
  pending approved rejected : Status
  other : String → Status

unfoldable pub is_pending : Status → Bool
is_pending pending = true
is_pending _ = false

pub record IndustryReview : Type 0 where
  pub review_id : String
  pub agency_id : String
  pub talent_id : String
  pub status : Status
  pub items : Items
  pub approved_at : Option String
  pub is_deleted : Bool

pub data ReviewError : Type 0 where
  not_found : ReviewError
  not_pending : Status → ReviewError
  -- `.get` of what is no dict, or `.strip` of what is no text
  attribute_error : ReviewError

-- `_base_filter`, with the key
unfoldable pub is_review : String → String → IndustryReview → Bool
is_review agency pk r = r.agency_id =s agency && not r.is_deleted && (r.review_id =s pk)

unfoldable pub is_pending_for : String → String → IndustryReview → Bool
is_pending_for agency talent r =
    r.agency_id =s agency && not r.is_deleted && (r.talent_id =s talent) && is_pending r.status

unfoldable pub get_pending : String → String → List IndustryReview → Option IndustryReview
unfolding is_pending_for
get_pending agency talent rows = latest (is_pending_for agency talent) rows

unfoldable pub get_by_id : String → String → List IndustryReview → Option IndustryReview
unfolding is_review
get_by_id agency pk rows = first (is_review agency pk) rows

unfoldable pub reject : IndustryReview → IndustryReview
reject r = record r { status = rejected; is_deleted = true }

unfoldable pub create_pending :
    String → String → String → Items → List IndustryReview → List IndustryReview
unfolding reject is_pending_for
create_pending agency fresh talent items rows =
    update_latest (is_pending_for agency talent) reject rows
    ++ (record {
      review_id = fresh;
      agency_id = agency;
      talent_id = talent;
      status = pending;
      items = items;
      approved_at = none;
      is_deleted = false;
    })
      ∷ []

-- `(x or "").strip()`
stripped : Option Json → Result ReviewError String
stripped none = ok ""
stripped (some (str s)) = ok (strip s)
stripped (some v) = if truthy v then err attribute_error else ok ""

industry_key : Json → Result ReviewError String
unfolding stripped
industry_key (obj entry) = stripped (get "industry_id" entry)
industry_key _ = err attribute_error

is_in : String → List String → Bool
is_in x xs = any (λ s. s =s x) xs

-- `{r.strip().lower() for r in removed if r}`
removed_keys : List String → List String
removed_keys [] = []
removed_keys (r ∷ rs) = if r =s "" then removed_keys rs else lower (strip r) ∷ removed_keys rs

deselect : Bool → Json → Json
deselect true (obj entry) = obj (put "approved" (bool false) entry)
deselect _ entry = entry

-- the loop over the items, which changes the dicts
unfoldable pub deselected : List String → Items → Result ReviewError Items
unfolding industry_key is_in deselect
deselected keys nil = ok nil
deselected keys (cons x xs) = do
  key ← industry_key x
  rest ← deselected keys xs
  ok (cons (deselect (is_in (lower key) keys) x) rest)

-- `if removed:`
unfoldable pub after_removed : List String → Items → Result ReviewError Items
unfolding deselected removed_keys
after_removed [] items = ok items
after_removed (r ∷ rs) items = deselected (removed_keys (r ∷ rs)) items

keys_of : Items → Result ReviewError (List String)
unfolding industry_key
keys_of nil = ok []
keys_of (cons x xs) = do key ← industry_key x; rest ← keys_of xs; ok (lower key ∷ rest)

-- What a flush stores in a column, of the value that an assignment replaces, the value assigned, and
-- the value stored. SQLAlchemy compares the first two, and does not see a change inside a value.
pub record Session : Type 0 where
  pub flush : Items → Items → Items → Items
  pub flush_same :
      (old new stored : Items) → equals (arr new) (arr old) ≡ true → flush old new stored ≡ stored
  pub flush_changed :
      (old new stored : Items) → equals (arr new) (arr old) ≡ false → flush old new stored ≡ new

module _ (repr : Json → String) where
  -- `str(new.get("rationale") or "Manually added by agency operator")`
  rationale_of : Option Json → String
  rationale_of none = "Manually added by agency operator"
  rationale_of (some (str s)) = if s =s "" then "Manually added by agency operator" else s
  rationale_of (some v) = if truthy v then repr v else "Manually added by agency operator"

  manual_item : String → Fields → Json
  unfolding rationale_of
  manual_item iid new = obj (
      field "industry_id" (str iid) (
        field "rationale" (str (rationale_of (get "rationale" new))) (
          field "source" (str "manual")
            (field "approved" (bool true) (field "alternate_rationales" (arr nil) end)))))

  -- the loop over the additions, with the identifiers that are there
  with_added : List Fields → List String → Items → Result ReviewError Items
  unfolding manual_item stripped is_in
  with_added [] known items = ok items
  with_added (end ∷ news) known items = with_added news known items
  with_added (field k v m ∷ news) known items = do
    iid ← stripped (get "industry_id" (field k v m))
    let kept = with_added news known items
    let grown =
        with_added news (lower iid ∷ known)
          (append items (cons (manual_item iid (field k v m)) nil))
    if iid =s "" then kept else if is_in (lower iid) known then kept else grown

  -- `if added:`
  after_added : List Fields → Items → Result ReviewError Items
  unfolding with_added keys_of
  after_added [] items = ok items
  after_added (new ∷ news) items = do known ← keys_of items; with_added (new ∷ news) known items

  module _ (session : Session) where
    -- the items of `patch_items` as they are stored, and read again by the refresh
    unfoldable pub patched_items : List Fields → List String → Items → Result ReviewError Items
    unfolding after_removed after_added
    patched_items added removed stored = do
      old ← after_removed removed stored
      new ← after_added added old
      ok (session.flush old new stored)

    patch_found :
        String
        → String
        → List Fields
        → List String
        → List IndustryReview
        → Option IndustryReview
        → Result ReviewError (List IndustryReview)
    unfolding patched_items is_review
    patch_found agency pk added removed rows none = err not_found
    patch_found agency pk added removed rows (some r) = do
      guard (is_pending r.status) (not_pending r.status)
      items ← patched_items added removed r.items
      ok (replace_first (is_review agency pk) (record r { items = items }) rows)

    unfoldable pub patch_items :
        String
        → String
        → List Fields
        → List String
        → List IndustryReview
        → Result ReviewError (List IndustryReview)
    unfolding patch_found
    patch_items agency pk added removed rows =
        patch_found agency pk added removed rows (get_by_id agency pk rows)

unfoldable pub approve : String → IndustryReview → IndustryReview
approve at r = record r { status = approved; approved_at = some at }

approve_found :
    String
    → String
    → String
    → List IndustryReview
    → Option IndustryReview
    → Result ReviewError (List IndustryReview)
unfolding approve is_review
approve_found agency pk at rows none = err not_found
approve_found agency pk at rows (some r) = do
  guard (is_pending r.status) (not_pending r.status)
  ok (replace_first (is_review agency pk) (approve at r) rows)

unfoldable pub mark_approved :
    String → String → String → List IndustryReview → Result ReviewError (List IndustryReview)
unfolding approve_found
mark_approved agency pk at rows = approve_found agency pk at rows (get_by_id agency pk rows)

-- what is committed: nothing, by a call that raises
unfoldable pub committed :
    List IndustryReview → Result ReviewError (List IndustryReview) → List IndustryReview
committed rows (ok new) = new
committed rows (err e) = rows

-- The requests: the end of the first phase, which creates a review, and the two handlers.
pub data Request : Type 0 where
  propose : String → String → Items → Request
  patch : String → List Fields → List String → Request
  accept : String → String → Request

module _ (repr : Json → String) (session : Session) (agency : String) where
  -- the identifier of the pending review, or the 404
  pending_id : Option IndustryReview → Result ReviewError String
  pending_id none = err not_found
  pending_id (some r) = ok r.review_id

  unfoldable pub handle : Request → List IndustryReview → Result ReviewError (List IndustryReview)
  unfolding pending_id
  handle (propose talent fresh items) rows = ok (create_pending agency fresh talent items rows)
  handle (patch talent added removed) rows = do
    pk ← pending_id (get_pending agency talent rows)
    patch_items repr session agency pk added removed rows
  handle (accept talent at) rows = do
    pk ← pending_id (get_pending agency talent rows)
    mark_approved agency pk at rows

  unfoldable pub serve : List Request → List IndustryReview → List IndustryReview
  unfolding handle committed
  serve [] rows = rows
  serve (q ∷ qs) rows = serve qs (committed rows (handle q rows))
