-- ===== src/Discovery/Review/Changes.antt =====
-- What a patch and an approval can do to the table: one pending row is replaced, or nothing changes.
use nativ.Prelude.{
  String, ◌≡◌, refl, Bool, true, false, Option, none, some, List, Result, ok, err, ◌>>=◌, ◌>>◌,
  guard, first, replace_first, arith,
}
use nativ.Json.{Json, Items, Fields}
use nativ.Discovery.Review.{
  IndustryReview, ReviewError, not_pending, is_pending, is_review, is_pending_for, get_by_id,
  get_pending, Session, patched_items, patch_found, patch_items, approve, approve_found,
  mark_approved, pending_id, committed, Request, propose, patch, accept, handle, create_pending,
}

-- A row that may take a pending row's place: it is pending only where that one is, and found by no other key.
abbrev pub Follows : String → IndustryReview → IndustryReview → Type 0
Follows agency r row =
    ((t : String) → is_pending_for agency t row ≡ true → is_pending_for agency t r ≡ true)
    × ((pk : String) → is_review agency pk row ≡ true → is_review agency pk r ≡ true)

-- A table that a call returns is as it should be.
pub Ensures : (List IndustryReview → Type 0) → Result ReviewError (List IndustryReview) → Type 0
Ensures P (ok rows) = P rows
Ensures P (err e) = Unit

module _ (P : List IndustryReview → Type 0) where
  Ensures-bind :
      {A : Type 0} (m : Result ReviewError A) (f : A → Result ReviewError (List IndustryReview))
      → ((x : A) → Ensures P (f x))
      → Ensures P (m >>= f)
  unfolding Ensures
  Ensures-bind (ok x) f h = h x
  Ensures-bind (err e) f h = tt

  Ensures-guard :
      (b : Bool) (e : ReviewError) (m : Result ReviewError (List IndustryReview))
      → (b ≡ true → Ensures P m)
      → Ensures P (guard b e >> m)
  unfolding Ensures
  Ensures-guard true e m h = h refl
  Ensures-guard false e m h = tt

  pub committed-Ensures :
      (rows : List IndustryReview) (m : Result ReviewError (List IndustryReview))
      → P rows
      → Ensures P m
      → P (committed rows m)
  unfolding committed Ensures
  committed-Ensures rows (ok new) old h = h
  committed-Ensures rows (err e) old h = old

approve-out :
    (at : String) (r : IndustryReview) (agency t : String)
    → is_pending_for agency t (approve at r) ≡ true
    → ⊥
unfolding approve is_pending_for is_pending
approve-out at r agency t h = ground (arith, h)

module _ (repr : Json → String) (session : Session) (agency : String) (rows : List IndustryReview)
    (P : List IndustryReview → Type 0)
    (step : (pk : String) (r row : IndustryReview)
      → first (is_review agency pk) rows ≡ some r
      → is_pending r.status ≡ true
      → Follows agency r row
      → P (replace_first (is_review agency pk) row rows)) where
  Ensures-patch_found :
      (pk : String) (added : List Fields) (removed : List String) (o : Option IndustryReview)
      → first (is_review agency pk) rows ≡ o
      → Ensures P (patch_found repr session agency pk added removed rows o)
  unfolding patch_found Ensures is_pending_for is_review
  Ensures-patch_found pk added removed none found = tt
  Ensures-patch_found pk added removed (some r) found =
      Ensures-guard P (is_pending r.status) (not_pending r.status)
        (patched_items repr session added removed r.items >>= λ items.
          ok (replace_first (is_review agency pk) (record r { items = items }) rows))
        λ waits.
          Ensures-bind P (patched_items repr session added removed r.items)
            (λ items. ok (replace_first (is_review agency pk) (record r { items = items }) rows))
            λ items. step pk r (record r { items = items }) found waits (λ t h. h, λ pk h. h)

  Ensures-approve_found :
      (pk at : String) (o : Option IndustryReview)
      → first (is_review agency pk) rows ≡ o
      → Ensures P (approve_found agency pk at rows o)
  unfolding approve_found Ensures is_pending_for is_pending approve is_review
  Ensures-approve_found pk at none found = tt
  Ensures-approve_found pk at (some r) found =
      Ensures-guard P (is_pending r.status) (not_pending r.status)
        (ok (replace_first (is_review agency pk) (approve at r) rows))
        λ waits.
          step pk r (approve at r) found waits
            (λ t h. absurd (approve-out at r agency t h), λ pk h. h)

  -- What holds of the table before a request, and after each change that it can make, holds after it.
  pub Ensures-handle :
      (q : Request)
      → ((talent fresh : String) (items : Items)
          → q ≡ propose talent fresh items
          → P (create_pending agency fresh talent items rows))
      → Ensures P (handle repr session agency q rows)
  unfolding handle patch_items mark_approved get_by_id Ensures
  Ensures-handle (propose talent fresh items) created = created talent fresh items refl
  Ensures-handle (patch talent added removed) created =
      Ensures-bind P (pending_id repr session agency (get_pending agency talent rows))
        (λ pk. patch_items repr session agency pk added removed rows)
        λ pk. Ensures-patch_found pk added removed (get_by_id agency pk rows) refl
  Ensures-handle (accept talent at) created =
      Ensures-bind P (pending_id repr session agency (get_pending agency talent rows))
        (λ pk. mark_approved agency pk at rows)
        λ pk. Ensures-approve_found pk at (get_by_id agency pk rows) refl
