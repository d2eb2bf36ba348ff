-- ===== src/Discovery/Review/Flush.antt =====
-- What a patch stores.
use nativ.Prelude.{String, ◌≡◌, ap, true, List, [], some, ok}
use nativ.Prelude.Positions.{replace_first_same}
use nativ.Json.{Json, Items, arr}
use nativ.Json.Equal.{equals}
use nativ.Discovery.Review.{
  IndustryReview, is_pending, is_review, get_by_id, Session, after_removed, after_added,
  patched_items, patch_found, patch_items,
}

-- A patch of a pending review that only deselects industries returns, and leaves the table as it was: the
-- list that it assigns is equal to the one it replaces, whose dicts it has changed in place, so the flush
-- writes nothing and the refresh reads the old items. The condition is that the changed items are equal to
-- themselves, as documents without a repeated key are.
pub patch_items_lost :
    (repr : Json → String) (session : Session) (agency pk : String) (removed : List String)
    (rows : List IndustryReview) (r : IndustryReview) (old : Items)
    → get_by_id agency pk rows ≡ some r
    → is_pending r.status ≡ true
    → after_removed removed r.items ≡ ok old
    → equals (arr old) (arr old) ≡ true
    → patch_items repr session agency pk [] removed rows ≡ ok rows
unfolding patch_items patch_found patched_items after_added get_by_id
patch_items_lost repr session agency pk removed rows r old found waits gone same =
    rw (found, waits, gone, session.flush_same old old r.items same)
      (ap ok (replace_first_same (is_review agency pk) r rows found))
