-- ===== src/Discovery/Review/Refines.antt =====
-- The table of reviews, as the queue that an operator sees: of each talent the items that wait, if any do.
pub mod Served
use mathlib.Core.Path.{fun_ext}
use nativ.Prelude.{
  ℕ, String, ◌≡◌, ◌≤◌, refl, sym, ap, ◌∙◌, subst, Bool, true, false, not, ◌&&◌, Option, none, some,
  List, [], ◌∷◌, ◌++◌, Result, ok, err, ◌>>=◌, ◌>>◌, guard, Result-cases, Option-cases, Bool-cases,
  inl, inr, arith, ◌=s◌, eq_iff, eq_refl, if◌then◌else◌, latest, first, replace_first,
  update_latest, count, any,
}
use nativ.Prelude.Latest.{
  latest-append_one, latest-passes, latest-update_latest, latest-replace_first_other,
  latest-replace_first, first_of_latest,
}
use nativ.Json.{Json, Items, Fields}
use nativ.Discovery.Review.{
  IndustryReview, ReviewError, not_found, not_pending, is_pending, is_review, is_pending_for,
  get_pending, get_by_id, reject, create_pending, Session, patched_items, patch_found, patch_items,
  approve, approve_found, mark_approved, pending_id, Request, propose, patch, accept, handle,
}
use nativ.Discovery.Review.Pending.{IsLone, rejected-out, new_review}

-- The abstract state, and what each request does to it.
abbrev pub Queue : Type 0
Queue = String → Option Items

unfoldable pub assign : String → Option Items → Queue → Queue
assign talent v queue t = if talent =s t then v else queue t

module _ (repr : Json → String) (session : Session) where
  patched_queue :
      String → List Fields → List String → Queue → Option Items → Result ReviewError Queue
  patched_queue talent added removed queue none = err not_found
  patched_queue talent added removed queue (some items) =
      patched_items repr session added removed items >>= λ new. ok (assign talent (some new) queue)

  accepted_queue : String → Queue → Option Items → Result ReviewError Queue
  accepted_queue talent queue none = err not_found
  accepted_queue talent queue (some items) = ok (assign talent none queue)

  unfoldable pub handle_queue : Request → Queue → Result ReviewError Queue
  unfolding patched_queue accepted_queue
  handle_queue (propose talent fresh items) queue = ok (assign talent (some items) queue)
  handle_queue (patch talent added removed) queue =
      patched_queue talent added removed queue (queue talent)
  handle_queue (accept talent at) queue = accepted_queue talent queue (queue talent)

-- What a table shows.
items_in : Option IndustryReview → Option Items
items_in none = none
items_in (some r) = some r.items

unfoldable pub queue_of : String → List IndustryReview → Queue
unfolding items_in
queue_of agency rows talent = items_in (get_pending agency talent rows)

unfoldable pub observed :
    String → Result ReviewError (List IndustryReview) → Result ReviewError Queue
observed agency (ok rows) = ok (queue_of agency rows)
observed agency (err e) = err e

-- What the table keeps: one pending review of a talent at most, and one review of an identifier.
pub record IsTable (agency : String) (rows : List IndustryReview) : Type 0 where
  pub lone : IsLone agency rows
  pub keyed : (pk : String) → count (is_review agency pk) rows ≤ 1

pending-talent :
    (agency t : String) (r : IndustryReview) → is_pending_for agency t r ≡ true → r.talent_id ≡ t
unfolding is_pending_for
pending-talent agency t r h = (eq_iff r.talent_id t).0 (ground (arith, h))

pending-is_review :
    (agency t : String) (r : IndustryReview)
    → is_pending_for agency t r ≡ true
    → is_review agency r.review_id r ≡ true
unfolding is_pending_for is_review
pending-is_review agency t r h = rw eq_refl (ground (arith, h))

other-out :
    (agency t u : String) (r : IndustryReview)
    → r.talent_id ≡ t
    → (t =s u) ≡ false
    → is_pending_for agency u r ≡ false
unfolding is_pending_for
other-out agency t u r same other = rw (same, other) (ground arith)

new-waits :
    (agency talent fresh u : String) (items : Items)
    → (talent =s u) ≡ true
    → is_pending_for agency u (new_review agency fresh talent items) ≡ true
unfolding is_pending_for is_pending
new-waits agency talent fresh u items same = rw (eq_refl, same) refl

queue_of-create_pending :
    (agency talent fresh : String) (items : Items) (rows : List IndustryReview) (u : String)
    → queue_of agency (create_pending agency fresh talent items rows) u
      ≡ assign talent (some items) (queue_of agency rows) u
unfolding queue_of get_pending create_pending assign items_in
queue_of-create_pending agency talent fresh items rows u =
    let new = new_review agency fresh talent items in
    let old = update_latest (is_pending_for agency talent) reject rows in
    elim (Bool-cases (talent =s u)) [
      | inl same ↦
          rw
            (
              latest-append_one (is_pending_for agency u) old new,
              new-waits agency talent fresh u items same,
              same,
            )
            refl
      | inr other ↦
          rw
            (
              latest-append_one (is_pending_for agency u) old new,
              other-out agency talent u new refl other,
              latest-update_latest (is_pending_for agency u) (is_pending_for agency talent) reject
                  rows
                  (λ x waits.
                    other-out agency talent u x (pending-talent agency talent x waits) other)
                  (rejected-out agency u),
              other,
            )
            refl
    ]

module _ (agency : String) (rows : List IndustryReview) (table : IsTable agency rows) (t : String)
    (r : IndustryReview) (found : get_pending agency t rows ≡ some r) where
  waits_for : is_pending_for agency t r ≡ true
  unfolding get_pending
  waits_for = latest-passes (is_pending_for agency t) rows r found

  found_by_id : first (is_review agency r.review_id) rows ≡ some r
  unfolding get_pending
  found_by_id =
      first_of_latest (is_pending_for agency t) (is_review agency r.review_id) rows r found
        (pending-is_review agency t r waits_for) (table.keyed r.review_id)

  shown :
      (new : Items)
      → items_in (
          if is_pending_for agency t (record r { items = new })
          then some (record r { items = new })
          else none)
        ≡ some new
  unfolding items_in is_pending_for
  shown new = ground (arith, waits_for)

  gone :
      (at : String)
      → items_in (if is_pending_for agency t (approve at r) then some (approve at r) else none)
        ≡ none
  unfolding items_in is_pending_for approve is_pending
  gone at = ground arith

  queue_of-replaced :
      (row : IndustryReview) (v : Option Items) (u : String)
      → items_in (if is_pending_for agency t row then some row else none) ≡ v
      → row.talent_id ≡ r.talent_id
      → queue_of agency (replace_first (is_review agency r.review_id) row rows) u
        ≡ assign t v (queue_of agency rows) u
  unfolding queue_of get_pending assign
  queue_of-replaced row v u shows same = elim (Bool-cases (t =s u)) [
    | inl here ↦
        rw (here, sym ((eq_iff t u).0 here))
          (ap items_in (
              latest-replace_first (is_pending_for agency t) (is_review agency r.review_id) row r
                rows found_by_id waits_for (table.lone t))
            ∙ shows)
    | inr other ↦
        let owner : r.talent_id ≡ t = pending-talent agency t r waits_for in
        rw other (
          ap items_in (
            latest-replace_first_other (is_pending_for agency u) (is_review agency r.review_id) row
              r rows found_by_id (other-out agency t u r owner other)
              (other-out agency t u row (same ∙ owner) other)))
  ]

module _ (repr : Json → String) (session : Session) (agency : String) (rows : List IndustryReview)
    (table : IsTable agency rows) where
  handle_patch :
      (t : String) (added : List Fields) (removed : List String) (r : IndustryReview)
      → get_pending agency t rows ≡ some r
      → observed agency (patch_items repr session agency r.review_id added removed rows)
        ≡ patched_queue repr session t added removed (queue_of agency rows) (some r.items)
  unfolding patch_items patch_found get_by_id observed patched_queue is_pending_for
  handle_patch t added removed r found =
      let waits : is_pending r.status ≡ true =
        ground (arith, waits_for agency rows table t r found) in
      elim (Result-cases (patched_items repr session added removed r.items)) [
        | inl (e, raised) ↦ rw (found_by_id agency rows table t r found, waits, raised) refl
        | inr (new, made) ↦
            rw (found_by_id agency rows table t r found, waits, made)
              (ap ok (
                fun_ext λ u.
                  queue_of-replaced agency rows table t r found (record r { items = new })
                    (some new) u (shown agency rows table t r found new) refl))
      ]

  handle_accept :
      (t at : String) (r : IndustryReview)
      → get_pending agency t rows ≡ some r
      → observed agency (mark_approved agency r.review_id at rows)
        ≡ accepted_queue repr session t (queue_of agency rows) (some r.items)
  unfolding mark_approved approve_found get_by_id observed accepted_queue is_pending_for
  handle_accept t at r found =
      let waits : is_pending r.status ≡ true =
        ground (arith, waits_for agency rows table t r found) in
      rw (found_by_id agency rows table t r found, waits)
        (ap ok (
          fun_ext λ u.
            queue_of-replaced agency rows table t r found (approve at r) none u
              (gone agency rows table t r found at) refl))

  -- A request does to the queue what the abstract queue does, and is refused with the same error.
  pub handle-handle_queue :
      (q : Request)
      → observed agency (handle repr session agency q rows)
        ≡ handle_queue repr session q (queue_of agency rows)
  unfolding handle pending_id handle_queue observed queue_of items_in patched_queue accepted_queue
  handle-handle_queue (propose talent fresh items) =
      ap ok (fun_ext (queue_of-create_pending agency talent fresh items rows))
  handle-handle_queue (patch talent added removed) =
      elim (Option-cases (get_pending agency talent rows)) [
        | inl nothing ↦ rw nothing refl
        | inr (r, found) ↦ rw found (handle_patch talent added removed r found)
      ]
  handle-handle_queue (accept talent at) = elim (Option-cases (get_pending agency talent rows)) [
    | inl nothing ↦ rw nothing refl
    | inr (r, found) ↦ rw found (handle_accept talent at r found)
  ]
