-- ===== src/Discovery/Review/Immutable.antt =====
-- A review that is not pending does not change again.
use nativ.Prelude.{
  ℕ, String, ◌≡◌, ap, true, false, List, [], ◌∷◌, some, arith, first, replace_first, update_latest,
  get_elem?,
}
use nativ.Prelude.Positions.{get_elem?-append, get_elem?-update_latest, get_elem?-replace_first}
use nativ.Json.{Json, Items}
use nativ.Discovery.Review.{
  IndustryReview, is_pending, is_review, is_pending_for, reject, create_pending, Session, Request,
  handle, serve, committed,
}
use nativ.Discovery.Review.Changes.{Follows, Ensures-handle, committed-Ensures}

settled-out :
    (agency t : String) (d : IndustryReview)
    → is_pending d.status ≡ false
    → is_pending_for agency t d ≡ false
unfolding is_pending_for
settled-out agency t d h = ground (arith, h)

-- A position holds a row.
abbrev pub Holds : ℕ → IndustryReview → List IndustryReview → Type 0
Holds n d rows = get_elem? rows n ≡ some d

module _ (agency : String) (rows : List IndustryReview) (n : ℕ) (d : IndustryReview)
    (settled : is_pending d.status ≡ false) (at_n : Holds n d rows) where
  Holds-create_pending :
      (talent fresh : String) (items : Items)
      → Holds n d (create_pending agency fresh talent items rows)
  unfolding create_pending
  Holds-create_pending talent fresh items =
      get_elem?-append (update_latest (is_pending_for agency talent) reject rows) _ n d (
        get_elem?-update_latest (is_pending_for agency talent) reject rows n d at_n
          (settled-out agency talent d settled))

  Holds-replaced :
      (pk : String) (r row : IndustryReview)
      → first (is_review agency pk) rows ≡ some r
      → is_pending r.status ≡ true
      → Follows agency r row
      → Holds n d (replace_first (is_review agency pk) row rows)
  Holds-replaced pk r row found waits follows =
      get_elem?-replace_first (is_review agency pk) row rows n d r at_n found
        λ same. cc (waits, settled, ap (λ (x : IndustryReview). is_pending x.status) same)

-- A review that is not pending, so approved or rejected, stays as it is, whatever is proposed, patched and
-- approved afterwards, in whatever order.
pub serve-Holds :
    (repr : Json → String) (session : Session) (agency : String) (requests : List Request)
    (rows : List IndustryReview) (n : ℕ) (d : IndustryReview)
    → is_pending d.status ≡ false
    → Holds n d rows
    → Holds n d (serve repr session agency requests rows)
unfolding serve
serve-Holds repr session agency [] rows n d settled at_n = at_n
serve-Holds repr session agency (q ∷ qs) rows n d settled at_n =
    serve-Holds repr session agency qs (committed rows (handle repr session agency q rows)) n d
      settled
      (committed-Ensures (Holds n d) rows (handle repr session agency q rows) at_n (
        Ensures-handle repr session agency rows (Holds n d)
          (Holds-replaced agency rows n d settled at_n) q
          (λ talent fresh items same.
            Holds-create_pending agency rows n d settled at_n talent fresh items)))
