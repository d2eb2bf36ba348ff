-- ===== src/Discovery/Review/Refines/Served.antt =====
-- A sequence of requests, on the table and on the queue that it shows.
use nativ.Prelude.{
  String, ◌≡◌, ◌≤◌, refl, ap, ◌∙◌, subst, true, false, List, [], ◌∷◌, Result, ok, err, some, arith,
  Bool-cases, inl, inr, count, any, first, replace_first, update_latest, ◌=s◌, eq_iff,
}
use nativ.Prelude.Counting.{
  count-append, any_of_count, count-replace_first-le, count-update_latest-le,
}
use nativ.Json.{Json, Items}
use nativ.Discovery.Review.{
  IndustryReview, ReviewError, is_pending, is_review, is_pending_for, reject, create_pending,
  Session, Request, propose, patch, accept, handle, committed, serve,
}
use nativ.Discovery.Review.Changes.{Follows, Ensures-handle, committed-Ensures}
use nativ.Discovery.Review.Pending.{new_review, IsLone-create_pending, IsLone-replaced}
use nativ.Discovery.Review.Refines.{
  Queue, handle_queue, queue_of, observed, IsTable, handle-handle_queue,
}

-- a queue that refuses a request stays
unfoldable pub settled : Queue → Result ReviewError Queue → Queue
settled queue (ok new) = new
settled queue (err e) = queue

unfoldable pub serve_queue : (Json → String) → Session → List Request → Queue → Queue
unfolding settled
serve_queue repr session [] queue = queue
serve_queue repr session (q ∷ qs) queue =
    serve_queue repr session qs (settled queue (handle_queue repr session q queue))

-- An identifier that a request brings is of no review of the table.
abbrev pub IsFresh : String → List IndustryReview → Request → Type 0
IsFresh agency rows (propose talent fresh items) = any (is_review agency fresh) rows ≡ false
IsFresh agency rows (patch talent added removed) = Unit
IsFresh agency rows (accept talent at) = Unit

abbrev pub AllFresh :
    (Json → String) → Session → String → List Request → List IndustryReview → Type 0
AllFresh repr session agency [] rows = Unit
AllFresh repr session agency (q ∷ qs) rows =
    IsFresh agency rows q
    × AllFresh repr session agency qs (committed rows (handle repr session agency q rows))

rejected-no_review :
    (agency pk : String) (r : IndustryReview) → is_review agency pk (reject r) ≡ false
unfolding is_review reject
rejected-no_review agency pk r = ground arith

count-one : (agency pk : String) (r : IndustryReview) → count (is_review agency pk) (r ∷ []) ≤ 1
unfolding count
count-one agency pk r = ground arith

count-new :
    (agency fresh talent pk : String) (items : Items)
    → (fresh =s pk) ≡ false
    → count (is_review agency pk) (new_review agency fresh talent items ∷ []) ≡ 0
unfolding count is_review
count-new agency fresh talent pk items other = ground (arith, other)

module _ (agency : String) (rows : List IndustryReview) (table : IsTable agency rows) where
  keyed-create_pending :
      (talent fresh : String) (items : Items)
      → any (is_review agency fresh) rows ≡ false
      → (pk : String)
      → count (is_review agency pk) (create_pending agency fresh talent items rows) ≤ 1
  unfolding create_pending
  keyed-create_pending talent fresh items new_id pk =
      let old = update_latest (is_pending_for agency talent) reject rows in
      let new = new_review agency fresh talent items in
      let sum = count-append (is_review agency pk) old (new ∷ []) in
      let fewer =
        count-update_latest-le (is_review agency pk) (is_pending_for agency talent) reject rows
          (rejected-no_review agency pk) in
      elim (Bool-cases (fresh =s pk)) [
        | inl same ↦ omega (
          arith,
          sum,
          fewer,
          count-one agency pk new,
          any_of_count (is_review agency pk) rows (
              subst (λ k. any (is_review agency k) rows ≡ false) ((eq_iff fresh pk).0 same) new_id),
        )
        | inr other ↦
            omega (arith, sum, fewer, count-new agency fresh talent pk items other, table.keyed pk)
      ]

  IsTable-replaced :
      (pk : String) (r row : IndustryReview)
      → first (is_review agency pk) rows ≡ some r
      → is_pending r.status ≡ true
      → Follows agency r row
      → IsTable agency (replace_first (is_review agency pk) row rows)
  IsTable-replaced pk r row found waits follows = record {
    lone = IsLone-replaced agency rows table.lone pk r row found waits follows;
    keyed = λ k. omega (
      arith,
      count-replace_first-le (is_review agency k) (is_review agency pk) row r rows found
          (follows.1 k),
      table.keyed k,
    );
  }

  IsTable-create_pending :
      (talent fresh : String) (items : Items)
      → any (is_review agency fresh) rows ≡ false
      → IsTable agency (create_pending agency fresh talent items rows)
  IsTable-create_pending talent fresh items new_id = record {
    lone = IsLone-create_pending agency rows table.lone talent fresh items;
    keyed = keyed-create_pending talent fresh items new_id;
  }

module _ (repr : Json → String) (session : Session) (agency : String) where
  IsTable-committed :
      (rows : List IndustryReview) (q : Request)
      → IsTable agency rows
      → IsFresh agency rows q
      → IsTable agency (committed rows (handle repr session agency q rows))
  IsTable-committed rows q table new_id =
      committed-Ensures (IsTable agency) rows (handle repr session agency q rows) table (
        Ensures-handle repr session agency rows (IsTable agency)
          (IsTable-replaced agency rows table) q
          λ talent fresh items same.
            IsTable-create_pending agency rows table talent fresh items
              (subst (IsFresh agency rows) same new_id))

  queue_of-committed :
      (rows : List IndustryReview) (m : Result ReviewError (List IndustryReview))
      → queue_of agency (committed rows m) ≡ settled (queue_of agency rows) (observed agency m)
  unfolding committed observed settled queue_of
  queue_of-committed rows (ok new) = refl
  queue_of-committed rows (err e) = refl

  -- What is proposed, patched and approved, in whatever order, does to the table what it does to a queue of
  -- items for each talent: a proposal fills the talent's queue, a patch changes its items, an approval empties
  -- it, both are refused where nothing waits, and no other talent's queue changes. At first, no talent has two
  -- pending reviews of the agency and no identifier has two reviews; the identifier of a new review is of no
  -- review of the table then.
  pub queue_of-serve :
      (requests : List Request) (rows : List IndustryReview)
      → IsTable agency rows
      → AllFresh repr session agency requests rows
      → queue_of agency (serve repr session agency requests rows)
        ≡ serve_queue repr session requests (queue_of agency rows)
  unfolding serve serve_queue
  queue_of-serve [] rows table fresh = refl
  queue_of-serve (q ∷ qs) rows table fresh =
      queue_of-serve qs (committed rows (handle repr session agency q rows))
        (IsTable-committed rows q table fresh.0) fresh.1
      ∙ ap (serve_queue repr session qs) (
          queue_of-committed rows (handle repr session agency q rows)
          ∙ ap (settled (queue_of agency rows))
              (handle-handle_queue repr session agency rows table q))
