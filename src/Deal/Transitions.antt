-- ===== src/Deal/Transitions.antt =====
-- app/services/deal_lifecycle/transitions.py: the static tables of the state machine. A dict is a
-- function into `Option`: `none` where the source has no key. A frozenset is a list.
use nativ.Prelude.{Bool, false, Option, none, some, List, [], ◌∷◌, ◌||◌}
use nativ.Deal.Substage.{
  Stage, lead, proposal, contract, delivery, close, archived_stage, Substage, new_lead,
  initial_call_scheduled, initial_call_completed, brief_received, qualified, disqualified,
  proposal_drafting, proposal_sent, under_review, negotiation, terms_agreed, contract_drafting,
  contract_in_review_brand, contract_in_review_talent, contract_revisions, contract_executed,
  contract_failed, pre_production, content_in_production, pending_brand_approval,
  revisions_requested, approved_for_posting, live, performance_window, invoice_sent, invoice_paid,
  post_campaign_reporting, archived, lost, killed, paused, same,
}

-- `TRANSITIONS`; there is no key for `paused`
unfoldable pub transitions : Substage → Option (List Substage)
transitions new_lead = some (initial_call_scheduled ∷ disqualified ∷ lost ∷ paused ∷ [])
transitions initial_call_scheduled =
    some (initial_call_completed ∷ disqualified ∷ lost ∷ paused ∷ [])
transitions initial_call_completed = some (brief_received ∷ qualified ∷ disqualified ∷ paused ∷ [])
transitions brief_received = some (qualified ∷ disqualified ∷ paused ∷ [])
transitions qualified = some (proposal_drafting ∷ [])
transitions proposal_drafting = some (proposal_sent ∷ lost ∷ paused ∷ [])
transitions proposal_sent = some (under_review ∷ negotiation ∷ terms_agreed ∷ lost ∷ paused ∷ [])
transitions under_review = some (negotiation ∷ terms_agreed ∷ lost ∷ paused ∷ [])
transitions negotiation = some (terms_agreed ∷ proposal_sent ∷ lost ∷ paused ∷ [])
transitions terms_agreed = some (contract_drafting ∷ [])
transitions contract_drafting =
    some (contract_in_review_brand ∷ contract_in_review_talent ∷ contract_failed ∷ lost ∷ [])
transitions contract_in_review_brand =
    some (contract_in_review_talent ∷ contract_revisions ∷ contract_executed ∷ contract_failed ∷ [])
transitions contract_in_review_talent =
    some (contract_in_review_brand ∷ contract_revisions ∷ contract_executed ∷ contract_failed ∷ [])
transitions contract_revisions =
    some (contract_in_review_brand ∷ contract_in_review_talent ∷ contract_failed ∷ [])
transitions contract_executed = some (pre_production ∷ [])
transitions pre_production = some (content_in_production ∷ killed ∷ paused ∷ [])
transitions content_in_production = some (pending_brand_approval ∷ killed ∷ paused ∷ [])
transitions pending_brand_approval = some (revisions_requested ∷ approved_for_posting ∷ killed ∷ [])
transitions revisions_requested =
    some (content_in_production ∷ pending_brand_approval ∷ killed ∷ [])
transitions approved_for_posting = some (live ∷ [])
transitions live = some (performance_window ∷ [])
transitions performance_window = some (invoice_sent ∷ [])
transitions invoice_sent = some (invoice_paid ∷ paused ∷ [])
transitions invoice_paid = some (post_campaign_reporting ∷ [])
transitions post_campaign_reporting = some (archived ∷ [])
transitions disqualified = some []
transitions lost = some []
transitions killed = some []
transitions contract_failed = some []
transitions archived = some []
transitions _ = none

-- `s in xs`
unfoldable pub member : Substage → List Substage → Bool
member s [] = false
member s (x ∷ xs) = same s x || member s xs

abbrev pub terminal_substages : List Substage
terminal_substages = disqualified ∷ lost ∷ killed ∷ contract_failed ∷ archived ∷ []

abbrev pub won_substage : Substage
won_substage = archived

-- `AUTO_ADVANCE`
unfoldable pub auto_advance : Substage → Option Substage
auto_advance qualified = some proposal_drafting
auto_advance terms_agreed = some contract_drafting
auto_advance contract_executed = some pre_production
auto_advance _ = none

-- `STAGE_BY_SUBSTAGE`, the union of the six sets
unfoldable pub stage_by_substage : Substage → Option Stage
stage_by_substage new_lead = some lead
stage_by_substage initial_call_scheduled = some lead
stage_by_substage initial_call_completed = some lead
stage_by_substage brief_received = some lead
stage_by_substage qualified = some lead
stage_by_substage disqualified = some lead
stage_by_substage proposal_drafting = some proposal
stage_by_substage proposal_sent = some proposal
stage_by_substage under_review = some proposal
stage_by_substage negotiation = some proposal
stage_by_substage terms_agreed = some proposal
stage_by_substage contract_drafting = some contract
stage_by_substage contract_in_review_brand = some contract
stage_by_substage contract_in_review_talent = some contract
stage_by_substage contract_revisions = some contract
stage_by_substage contract_executed = some contract
stage_by_substage contract_failed = some contract
stage_by_substage pre_production = some delivery
stage_by_substage content_in_production = some delivery
stage_by_substage pending_brand_approval = some delivery
stage_by_substage revisions_requested = some delivery
stage_by_substage approved_for_posting = some delivery
stage_by_substage live = some delivery
stage_by_substage performance_window = some delivery
stage_by_substage invoice_sent = some close
stage_by_substage invoice_paid = some close
stage_by_substage post_campaign_reporting = some close
stage_by_substage archived = some archived_stage
stage_by_substage _ = none
