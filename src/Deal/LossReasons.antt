-- ===== src/Deal/LossReasons.antt =====
-- app/services/deal_lifecycle/loss_reasons.py
use nativ.Prelude.{String, List, [], ◌∷◌, Result, ok, err, if◌then◌else◌, ◌=s◌}
use nativ.Text.{lower, strip}
use nativ.Deal.Errors.{DealError, invalid_reason}
use nativ.Deal.Substage.{
  Stage, archived_stage, close, Reason, budget, timing, competitor_won, internal_pivot,
  talent_no_fit, terms_disagreed, unresponsive, compliance_block, other_reason, reason_name,
}

abbrev pub loss_reasons : List Reason
loss_reasons =
    budget ∷ timing ∷ competitor_won ∷ internal_pivot ∷ talent_no_fit ∷ terms_disagreed
    ∷ unresponsive ∷ compliance_block ∷ other_reason ∷ []

-- The five stages stand for themselves; `archived` is recorded as `close`.
unfoldable pub lost_at_stage_for : Stage → Stage
lost_at_stage_for archived_stage = close
lost_at_stage_for s = s

find_reason : String → String → List Reason → Result DealError Reason
unfolding reason_name
find_reason raw lowered [] = err (invalid_reason raw)
find_reason raw lowered (r ∷ rs) =
    let rest = find_reason raw lowered rs in if lowered =s reason_name r then ok r else rest

unfoldable pub validate_reason : String → Result DealError Reason
unfolding find_reason lower strip
validate_reason reason = find_reason reason (lower (strip reason)) loss_reasons
