-- ===== src/Deal/Api.antt =====
-- app/api/deals.py: the four handlers that write. The state is the table; a handler that raises has
-- committed nothing. `fresh` is the identifier that an insert draws, `at` the ISO text of the time.
pub mod Served
use nativ.Prelude.{String, Option, none, some, List, [], ◌∷◌, ◌++◌, Result, ok, err}
use nativ.Json.{Json, Fields}
use nativ.Deal.Errors.{DealError, not_found}
use nativ.Deal.Substage.{Stage, Substage}
use nativ.Deal.StateMachine.{StageTransitionPlan}
use nativ.Deal.Row.{Deal}
use nativ.Deal.Orchestrator.{apply_transition, record_loss}
use nativ.Deal.Repository.{get_by_id, save, patch_workflow_state, manual_row}

-- The bodies `DealCreate`, `DealPatch`, `TransitionBody` and `LossBody`, with the path's deal.
pub data Request : Type 0 where
  create : String → String → Json → String → Option String → Request
  patch : String → Fields → Request
  move : String → Substage → String → Option String → Request
  lose : String → String → Option Stage → Option String → Option String → String → Request

-- the commit of a row that a transition has changed
commit :
    String
    → String
    → List Deal
    → Result DealError StageTransitionPlan × Deal
    → Result DealError Deal × List Deal
commit agency pk rows (err e, d) = (err e, rows)
commit agency pk rows (ok plan, d) = (ok d, save agency pk d rows)

-- `transition_deal`, after the read
transition_deal :
    String
    → String
    → Substage
    → String
    → Option String
    → String
    → List Deal
    → Option Deal
    → Result DealError Deal × List Deal
unfolding commit
transition_deal agency pk target by_agent_id remark at rows none = (err (not_found pk), rows)
transition_deal agency pk target by_agent_id remark at rows (some d) =
    commit agency pk rows (apply_transition d target by_agent_id remark at)

-- `record_deal_loss`, after the read
record_deal_loss :
    String
    → String
    → String
    → Option Stage
    → Option String
    → Option String
    → String
    → String
    → List Deal
    → Option Deal
    → Result DealError Deal × List Deal
unfolding commit
record_deal_loss agency pk reason lost_at_stage competitor_brand notes by_agent_id at rows none =
    (err (not_found pk), rows)
record_deal_loss agency pk reason lost_at_stage competitor_brand notes by_agent_id at rows
      (some d) =
    commit agency pk rows (record_loss d reason by_agent_id lost_at_stage competitor_brand notes at)

-- `create_deal`
create_deal :
    String
    → String
    → String
    → String
    → Json
    → String
    → Option String
    → String
    → List Deal
    → Result DealError Deal × List Deal
create_deal agency fresh talent_id brand_id contact by_agent_id opening_note at rows =
    let row = manual_row fresh agency talent_id brand_id contact by_agent_id opening_note at in
    (ok row, rows ++ row ∷ [])

unfoldable pub handle :
    String → String → String → Request → List Deal → Result DealError Deal × List Deal
unfolding create_deal transition_deal record_deal_loss
handle agency fresh at (create talent_id brand_id contact by_agent_id opening_note) rows =
    create_deal agency fresh talent_id brand_id contact by_agent_id opening_note at rows
handle agency fresh at (patch pk diff) rows = patch_workflow_state agency pk diff rows
handle agency fresh at (move pk target by_agent_id remark) rows =
    transition_deal agency pk target by_agent_id remark at rows (get_by_id agency pk rows)
handle agency fresh at (lose pk reason lost_at_stage competitor_brand notes by_agent_id) rows =
    record_deal_loss agency pk reason lost_at_stage competitor_brand notes by_agent_id at rows
      (get_by_id agency pk rows)

-- A request with what its call draws: the fresh identifier and the time.
abbrev pub Call : Type 0
Call = String × String × Request

unfoldable pub serve : String → List Call → List Deal → List Deal
unfolding handle
serve agency [] rows = rows
serve agency ((fresh, at, request) ∷ calls) rows =
    serve agency calls (handle agency fresh at request rows).1
