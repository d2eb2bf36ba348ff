-- ===== src/Deal/Substage.antt =====
-- The words of the state machine: the enums `Stage`, `Substage`, `Reason` of
-- app/models/pydantic/deal_schema.py. The code passes substages as plain strings; `other s` stands
-- for any string that is none of the enum's values.
use nativ.Prelude.{
  ℕ, String, ◌≡◌, ◌≢◌, refl, ap, sym, ◌∙◌, Bool, true, List, [], ◌∷◌, arith, ◌==◌, ==_iff, ◌=s◌,
  eq_iff, eq_refl, get_or,
}

pub data Stage : Type 0 where
  lead proposal contract delivery close archived_stage : Stage

pub data Substage : Type 0 where
  new_lead initial_call_scheduled initial_call_completed brief_received qualified : Substage
  disqualified proposal_drafting proposal_sent under_review negotiation : Substage
  terms_agreed contract_drafting contract_in_review_brand contract_in_review_talent : Substage
  contract_revisions contract_executed contract_failed pre_production : Substage
  content_in_production pending_brand_approval revisions_requested : Substage
  approved_for_posting live performance_window invoice_sent invoice_paid : Substage
  post_campaign_reporting archived lost killed paused : Substage
  other : String → Substage

pub data Reason : Type 0 where
  budget timing competitor_won internal_pivot talent_no_fit terms_disagreed : Reason
  unresponsive compliance_block other_reason : Reason

unfoldable pub stage_name : Stage → String
stage_name lead = "lead"
stage_name proposal = "proposal"
stage_name contract = "contract"
stage_name delivery = "delivery"
stage_name close = "close"
stage_name archived_stage = "archived"

unfoldable pub name : Substage → String
name new_lead = "new_lead"
name initial_call_scheduled = "initial_call_scheduled"
name initial_call_completed = "initial_call_completed"
name brief_received = "brief_received"
name qualified = "qualified"
name disqualified = "disqualified"
name proposal_drafting = "proposal_drafting"
name proposal_sent = "proposal_sent"
name under_review = "under_review"
name negotiation = "negotiation"
name terms_agreed = "terms_agreed"
name contract_drafting = "contract_drafting"
name contract_in_review_brand = "contract_in_review_brand"
name contract_in_review_talent = "contract_in_review_talent"
name contract_revisions = "contract_revisions"
name contract_executed = "contract_executed"
name contract_failed = "contract_failed"
name pre_production = "pre_production"
name content_in_production = "content_in_production"
name pending_brand_approval = "pending_brand_approval"
name revisions_requested = "revisions_requested"
name approved_for_posting = "approved_for_posting"
name live = "live"
name performance_window = "performance_window"
name invoice_sent = "invoice_sent"
name invoice_paid = "invoice_paid"
name post_campaign_reporting = "post_campaign_reporting"
name archived = "archived"
name lost = "lost"
name killed = "killed"
name paused = "paused"
name (other s) = s

unfoldable pub reason_name : Reason → String
reason_name budget = "budget"
reason_name timing = "timing"
reason_name competitor_won = "competitor_won"
reason_name internal_pivot = "internal_pivot"
reason_name talent_no_fit = "talent_no_fit"
reason_name terms_disagreed = "terms_disagreed"
reason_name unresponsive = "unresponsive"
reason_name compliance_block = "compliance_block"
reason_name other_reason = "other"

-- The position of a substage in the enum; every other string has the position 31.
tag : Substage → ℕ
tag new_lead = 0
tag initial_call_scheduled = 1
tag initial_call_completed = 2
tag brief_received = 3
tag qualified = 4
tag disqualified = 5
tag proposal_drafting = 6
tag proposal_sent = 7
tag under_review = 8
tag negotiation = 9
tag terms_agreed = 10
tag contract_drafting = 11
tag contract_in_review_brand = 12
tag contract_in_review_talent = 13
tag contract_revisions = 14
tag contract_executed = 15
tag contract_failed = 16
tag pre_production = 17
tag content_in_production = 18
tag pending_brand_approval = 19
tag revisions_requested = 20
tag approved_for_posting = 21
tag live = 22
tag performance_window = 23
tag invoice_sent = 24
tag invoice_paid = 25
tag post_campaign_reporting = 26
tag archived = 27
tag lost = 28
tag killed = 29
tag paused = 30
tag (other s) = 31

abbrev pub all_substages : List Substage
all_substages =
    new_lead ∷ initial_call_scheduled ∷ initial_call_completed ∷ brief_received ∷ qualified
    ∷ disqualified ∷ proposal_drafting ∷ proposal_sent ∷ under_review ∷ negotiation ∷ terms_agreed
    ∷ contract_drafting ∷ contract_in_review_brand ∷ contract_in_review_talent ∷ contract_revisions
    ∷ contract_executed ∷ contract_failed ∷ pre_production ∷ content_in_production
    ∷ pending_brand_approval ∷ revisions_requested ∷ approved_for_posting ∷ live
    ∷ performance_window ∷ invoice_sent ∷ invoice_paid ∷ post_campaign_reporting ∷ archived ∷ lost
    ∷ killed ∷ paused ∷ []

-- equality of the two strings
unfoldable pub same : Substage → Substage → Bool
unfolding tag
same (other a) (other b) = a =s b
same s t = tag s == tag t

get_or-tag : (t : Substage) → tag t ≢ 31 → get_or all_substages (tag t) paused ≡ t
unfolding tag
get_or-tag (other s) h = absurd (h refl)
get_or-tag _ h = refl

tag-injective : (s t : Substage) → tag s ≢ 31 → tag s ≡ tag t → s ≡ t
tag-injective s t h e =
    sym (get_or-tag s h) ∙ ap (λ n. get_or all_substages n paused) e ∙ get_or-tag t (λ p. h (e ∙ p))

-- Two substages that compare equal are the same substage.
pub same-eq : (s t : Substage) → same s t ≡ true → s ≡ t
unfolding same
same-eq (other a) (other b) h = ap other ((eq_iff a b).0 h)
same-eq (other a) t h = ground arith
same-eq s t h = tag-injective s t (unfold tag in omega arith) ((==_iff _ _).0 h)

pub same_refl : (s : Substage) → same s s ≡ true
unfolding same
same_refl (other a) = eq_refl a
same_refl _ = refl
