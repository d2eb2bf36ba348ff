-- ===== src/Discovery/Review/Pending.antt =====
-- One talent has one pending review at most.
use nativ.Prelude.{
  some, none, String, ◌≡◌, ◌≤◌, refl, subst, true, false, List, [], ◌∷◌, arith, count, first,
  replace_first, update_latest, Bool-cases, inl, inr, ◌=s◌, eq_iff, eq_refl,
}
use nativ.Prelude.Counting.{
  count-append, count-replace_first-le, count-update_latest-le, count-update_latest,
}
use nativ.Json.{Json, Items}
use nativ.Discovery.Review.{
  IndustryReview, is_pending, is_review, is_pending_for, reject, create_pending, Session, Request,
  handle, serve, pending, committed,
}
use nativ.Discovery.Review.Changes.{Follows, Ensures-handle, committed-Ensures}

-- Of each talent, at most one review of the agency is pending.
abbrev pub IsLone : String → List IndustryReview → Type 0
IsLone agency rows = (t : String) → count (is_pending_for agency t) rows ≤ 1

pub rejected-out :
    (agency t : String) (r : IndustryReview) → is_pending_for agency t (reject r) ≡ false
unfolding is_pending_for reject is_pending
rejected-out agency t r = ground arith

abbrev pub new_review : String → String → String → Items → IndustryReview
new_review agency fresh talent items = record {
  review_id = fresh;
  agency_id = agency;
  talent_id = talent;
  status = pending;
  items = items;
  approved_at = none;
  is_deleted = false;
}

count-one-le :
    (agency t : String) (r : IndustryReview) → count (is_pending_for agency t) (r ∷ []) ≤ 1
unfolding count
count-one-le agency t r = ground arith

count-other :
    (agency fresh talent t : String) (items : Items)
    → (talent =s t) ≡ false
    → count (is_pending_for agency t) (new_review agency fresh talent items ∷ []) ≡ 0
unfolding count is_pending_for
count-other agency fresh talent t items other = rw (eq_refl, other) refl

module _ (agency : String) (rows : List IndustryReview) (lone : IsLone agency rows) where
  pub IsLone-create_pending :
      (talent fresh : String) (items : Items)
      → IsLone agency (create_pending agency fresh talent items rows)
  unfolding create_pending
  IsLone-create_pending talent fresh items t =
      let old = update_latest (is_pending_for agency talent) reject rows in
      let new = new_review agency fresh talent items in
      elim (Bool-cases (talent =s t)) [
        | inl same ↦ omega (
          arith,
          count-append (is_pending_for agency t) old (new ∷ []),
          count-one-le agency t new,
          subst (λ u. count (is_pending_for agency u) old ≡ 0) ((eq_iff talent t).0 same)
              (count-update_latest (is_pending_for agency talent) reject rows
                (rejected-out agency talent) (lone talent)),
        )
        | inr other ↦ omega (
          arith,
          count-append (is_pending_for agency t) old (new ∷ []),
          count-other agency fresh talent t items other,
          count-update_latest-le (is_pending_for agency t) (is_pending_for agency talent) reject
              rows (rejected-out agency t),
          lone t,
        )
      ]

  pub IsLone-replaced :
      (pk : String) (r row : IndustryReview)
      → first (is_review agency pk) rows ≡ some r
      → is_pending r.status ≡ true
      → Follows agency r row
      → IsLone agency (replace_first (is_review agency pk) row rows)
  IsLone-replaced pk r row found waits follows t = omega (
    arith,
    count-replace_first-le (is_pending_for agency t) (is_review agency pk) row r rows found
        (follows.0 t),
    lone t,
  )

-- Whatever is proposed, patched and approved, in whatever order: if no talent has two pending reviews of
-- the agency at first, none has at the end.
serve-IsLone :
    (repr : Json → String) (session : Session) (agency : String) (requests : List Request)
    (rows : List IndustryReview)
    → IsLone agency rows
    → IsLone agency (serve repr session agency requests rows)
unfolding serve
serve-IsLone repr session agency [] rows lone = lone
serve-IsLone repr session agency (q ∷ qs) rows lone =
    serve-IsLone repr session agency qs (committed rows (handle repr session agency q rows)) (
      committed-Ensures (IsLone agency) rows (handle repr session agency q rows) lone (
        Ensures-handle repr session agency rows (IsLone agency) (IsLone-replaced agency rows lone) q
          (λ talent fresh items same. IsLone-create_pending agency rows lone talent fresh items)))
