-- ===== src/Scenarios/Reviews.antt =====
-- Discovery: industry reviews, the proposals of the first phase.
use nativ.Prelude.{
  ℕ, String, ◌≡◌, ◌≤◌, refl, Bool, true, false, not, ◌&&◌, Option, none, some, List, [], ◌∷◌, ok,
  arith, count, keep, first, Bool-cases, inl, inr, if◌then◌else◌,
}
use nativ.Json.{Json, Items, Fields, str, bool, arr, obj, nil, cons, end, field, get, put}
use nativ.Json.Equal.{equals}
use nativ.Discovery.Review.{
  IndustryReview, pending, approved, is_review, is_pending_for, get_by_id, Session, Request,
  propose, patch, accept, serve, after_removed, patch_items,
}
use nativ.Discovery.Review.Pending.{IsLone}
use nativ.Discovery.Review.Immutable.{Holds, serve-Holds}
use nativ.Discovery.Review.Flush.{patch_items_lost}
use nativ.Discovery.Review.Refines.{queue_of, IsTable}
use nativ.Discovery.Review.Refines.Served.{AllFresh, serve_queue, queue_of-serve}
use nativ.Discovery.Proposals.{
  IndustryProposal, Ranked, dedup_with_alternates, Removal, filter_irrelevant_proposals,
}
use nativ.Discovery.Proposals.Winners.{IsRanking, dedup_with_alternates-IsRanking}
use nativ.Discovery.Proposals.Relevance.{is_removed, filter_irrelevant_proposals-keep}

abbrev repr : Json → String
repr v = "value"

flushed : Items → Items → Items → Items
flushed old new stored = if equals (arr new) (arr old) then stored else new

flushed_same :
    (old new stored : Items) → equals (arr new) (arr old) ≡ true → flushed old new stored ≡ stored
unfolding flushed
flushed_same old new stored h = rw h refl

flushed_changed :
    (old new stored : Items) → equals (arr new) (arr old) ≡ false → flushed old new stored ≡ new
unfolding flushed
flushed_changed old new stored h = rw h refl

abbrev session : Session
session = record { flush = flushed; flush_same = flushed_same; flush_changed = flushed_changed }

abbrev item : String → Json
item iid = obj (field "industry_id" (str iid) (field "approved" (bool true) end))

abbrev review : IndustryReview
review = record {
  review_id = "review-1";
  agency_id = "agency";
  talent_id = "talent-1";
  status = pending;
  items = cons (item "Fashion") (cons (item "gaming") nil);
  approved_at = none;
  is_deleted = false;
}

abbrev closed : IndustryReview
closed = record review {
  review_id = "review-0";
  status = approved;
  approved_at = some "2026-05-01";
}

abbrev requests : List Request
requests =
    propose "talent-1" "review-2" (cons (item "travel") nil)
    ∷ patch "talent-1" [] ("travel" ∷ [])
    ∷ accept "talent-1" "2026-05-03"
    ∷ []

IsLone-review : IsLone "agency" (closed ∷ review ∷ [])
unfolding count is_pending_for nativ.Discovery.Review.is_pending
IsLone-review t = ground arith

serve-Holds_example : Holds 0 closed (serve repr session "agency" requests (closed ∷ review ∷ []))
unfolding nativ.Discovery.Review.is_pending
serve-Holds_example =
    serve-Holds repr session "agency" requests (closed ∷ review ∷ []) 0 closed refl refl

one_row : IsTable "agency" (review ∷ [])
unfolding count is_pending_for is_review nativ.Discovery.Review.is_pending
one_row = record { lone = λ t. ground arith; keyed = λ pk. ground arith }

AllFresh-requests : AllFresh repr session "agency" requests (review ∷ [])
unfolding nativ.Prelude.any is_review
AllFresh-requests = (refl, (tt, (tt, tt)))

queue_of-serve_example :
    queue_of "agency" (serve repr session "agency" requests (review ∷ []))
    ≡ serve_queue repr session requests (queue_of "agency" (review ∷ []))
queue_of-serve_example =
    queue_of-serve repr session "agency" requests (review ∷ []) one_row AllFresh-requests

patch_items_lost_example :
    patch_items repr session "agency" "review-1" [] ("FASHION " ∷ []) (review ∷ [])
    ≡ ok (review ∷ [])
unfolding get_by_id first is_review nativ.Discovery.Review.is_pending after_removed equals get
    nativ.Prelude.any nativ.Text.lower nativ.Text.strip put nativ.Json.has
patch_items_lost_example =
    patch_items_lost repr session "agency" "review-1" ("FASHION " ∷ []) (review ∷ []) review
      (cons (obj (field "industry_id" (str "Fashion") (field "approved" (bool false) end)))
        (cons (item "gaming") nil))
      refl refl refl refl

abbrev proposal : String → String → IndustryProposal
proposal iid source = record { industry_id = iid; rationale = "because"; source = source }

abbrev proposals : List IndustryProposal
proposals =
    proposal "fashion" "adjacency"
    ∷ proposal "gaming" "softener"
    ∷ proposal "fashion" "affinity_primary"
    ∷ []

abbrev removals : List Removal
removals = ("fashion", "not for this talent") ∷ []

-- The primary affinity wins over the adjacency.
dedup_with_alternates_ran :
    dedup_with_alternates proposals
    ≡ (proposal "fashion" "affinity_primary", proposal "fashion" "adjacency" ∷ [])
      ∷ (proposal "gaming" "softener", [])
      ∷ []
unfolding dedup_with_alternates nativ.Prelude.Sorting.sort nativ.Discovery.Proposals.is_before
    nativ.Discovery.Proposals.proposal_source_priority
dedup_with_alternates_ran = refl

-- The protected proposal of the flagged industry goes too.
filter_irrelevant_proposals_ran :
    (filter_irrelevant_proposals (some removals) proposals).0 ≡ proposal "gaming" "softener" ∷ []
unfolding filter_irrelevant_proposals keep nativ.Prelude.any nativ.Discovery.Proposals.is_protected
filter_irrelevant_proposals_ran = refl

dedup_with_alternates-IsRanking_example : IsRanking proposals (dedup_with_alternates proposals)
dedup_with_alternates-IsRanking_example = dedup_with_alternates-IsRanking proposals

filter_irrelevant_proposals-keep_example :
    (filter_irrelevant_proposals (some removals) proposals).0
    ≡ keep (λ (p : IndustryProposal). not (is_removed proposals removals p.industry_id)) proposals
filter_irrelevant_proposals-keep_example = filter_irrelevant_proposals-keep removals proposals
