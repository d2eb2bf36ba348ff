-- ===== src/Deal/Orchestrator.antt =====
-- app/services/deal_lifecycle/orchestrator.py: apply a transition to a row, and capture a loss. A
-- function returns its result, or what it raises, and the row as it leaves it. `at` is the ISO text
-- of the time of the call.
pub mod Apply
pub mod Lives
pub mod Loss
use Prim.Native.String
use Prim.Native.String.{◌++◌ as ◌++s◌}
use nativ.Prelude.{
  String, zero, suc, Bool, true, false, Option, none, some, List, [], ◌∷◌, Result, ok, err, ◌>>=◌,
  if◌then◌else◌, ◌=s◌,
}
use nativ.Json.{
  Json, Items, Fields, null, bool, num, str, arr, obj, nil, cons, end, field, get, put, truthy,
  append,
}
use nativ.Deal.Errors.{DealError, not_iterable}
use nativ.Deal.Substage.{Stage, Substage, lost, stage_name, name, Reason, reason_name}
use nativ.Deal.StateMachine.{StageTransitionStep, StageTransitionPlan, steps, transition}
use nativ.Deal.LossReasons.{lost_at_stage_for, validate_reason}
use nativ.Deal.Row.{Deal}

chars : String → Items
chars String.[] = nil
chars (String.◌∷◌ c s) = cons (str (String.◌∷◌ c String.[])) (chars s)

keys : Fields → Items
keys end = nil
keys (field k v m) = cons (str k) (keys m)

-- `list(x)` for a truthy `x`
listed : Json → Result DealError Items
unfolding chars keys
listed (arr xs) = ok xs
listed (str s) = ok (chars s)
listed (obj m) = ok (keys m)
listed v = err not_iterable

-- `list(d.get(k) or [])`
unfoldable pub list_of : Option Json → Result DealError Items
unfolding listed
list_of none = ok nil
list_of (some v) = if truthy v then listed v else ok nil

-- `if x: d[k] = x`
unfoldable pub put_text : String → Option String → Fields → Fields
put_text k none m = m
put_text k (some s) m = if s =s "" then m else put k (str s) m

unfoldable pub history_entry : Stage → Substage → String → String → Option String → Fields
unfolding put_text put
history_entry stage substage by_agent_id at remark = put_text "note" remark (
    field "stage" (str (stage_name stage)) (
      field "substage" (str (name substage))
        (field "at" (str at) (field "by_agent_id" (str by_agent_id) end))))

abbrev pub step_entry : String → StageTransitionStep → Json
step_entry at s = obj (history_entry s.stage s.substage s.by_agent_id at s.note)

append_stage_history : Fields → StageTransitionStep → String → Result DealError Fields
unfolding list_of
append_stage_history before step at = do
  history ← list_of (get "stage_history" before)
  ok (put "stage_history" (arr (append history (cons (step_entry at step) nil))) before)

-- the loop over `plan.steps`, which writes `stage` and `substage` step by step
unfoldable pub apply_steps :
    Deal → Fields → List StageTransitionStep → String → Result DealError Fields × Deal
unfolding append_stage_history
apply_steps deal before [] at = (ok before, deal)
apply_steps deal before (step ∷ rest) at = elim (append_stage_history before step at) [
  | err e ↦ (err e, deal)
  | ok after ↦
      apply_steps (record deal { stage = step.stage; substage = step.substage }) after rest at
]

-- the writes after the loop
close_transition :
    StageTransitionPlan
    → Result DealError Fields × Deal
    → Result DealError StageTransitionPlan × Deal
close_transition plan (err e, deal) = (err e, deal)
close_transition plan (ok after, deal) = (
  ok plan,
  record deal { is_terminal = plan.final_is_terminal; is_won = plan.final_is_won; doc = after },
)

run_plan :
    Deal
    → Result DealError StageTransitionPlan
    → String
    → Result DealError StageTransitionPlan × Deal
unfolding apply_steps close_transition
run_plan deal (err e) at = (err e, deal)
run_plan deal (ok plan) at = close_transition plan (apply_steps deal deal.doc (steps plan) at)

unfoldable pub apply_transition :
    Deal → Substage → String → Option String → String → Result DealError StageTransitionPlan × Deal
unfolding run_plan
apply_transition deal target by_agent_id remark at =
    run_plan deal (transition deal.stage deal.substage target by_agent_id remark) at

abbrev pub or_stage : Option Stage → Stage → Stage
or_stage (some s) d = s
or_stage none d = d

unfoldable pub loss_block :
    Reason → Stage → String → String → Option String → Option String → Fields
unfolding put_text put
loss_block reason lost_at_stage at by_agent_id competitor_brand notes = put_text "notes" notes (
    put_text "competitor_brand" competitor_brand (
      field "reason" (str (reason_name reason)) (
        field "lost_at_stage" (str (stage_name lost_at_stage))
          (field "at" (str at) (field "by_agent_id" (str by_agent_id) end)))))

-- the writes after `apply_transition`
close_loss :
    Fields
    → Result DealError StageTransitionPlan × Deal
    → Result DealError StageTransitionPlan × Deal
close_loss block (err e, deal) = (err e, deal)
close_loss block (ok plan, deal) = (ok plan, record deal { doc = put "loss" (obj block) deal.doc })

with_reason :
    Deal
    → Result DealError Reason
    → String
    → Option Stage
    → Option String
    → Option String
    → String
    → Result DealError StageTransitionPlan × Deal
unfolding close_loss
with_reason deal (err e) by_agent_id lost_at_stage competitor_brand notes at = (err e, deal)
with_reason deal (ok reason) by_agent_id lost_at_stage competitor_brand notes at =
    close_loss
      (loss_block reason (or_stage lost_at_stage (lost_at_stage_for deal.stage)) at by_agent_id
        competitor_brand notes)
      (apply_transition deal lost by_agent_id
        (some (("loss captured (reason=" ++s reason_name reason) ++s ")")) at)

unfoldable pub record_loss :
    Deal
    → String
    → String
    → Option Stage
    → Option String
    → Option String
    → String
    → Result DealError StageTransitionPlan × Deal
unfolding with_reason
record_loss deal reason by_agent_id lost_at_stage competitor_brand notes at =
    with_reason deal (validate_reason reason) by_agent_id lost_at_stage competitor_brand notes at
