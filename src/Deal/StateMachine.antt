-- ===== src/Deal/StateMachine.antt =====
-- app/services/deal_lifecycle/state_machine.py: validate one transition, and chain the automatic
-- follow-on.
pub mod Edges
pub mod Plans
pub mod Stages
pub mod Routes
pub mod Milestones
use nativ.Prelude.{
  String, Bool, true, false, Option, none, some, List, [], ◌∷◌, Result, ok, err, if◌then◌else◌,
}
use Prim.Native.String.{◌++◌ as ◌++s◌}
use nativ.Deal.Errors.{DealError, unknown_current, not_allowed, auto_advance_not_listed}
use nativ.Deal.Substage.{Stage, Substage, name, same}
use nativ.Deal.Transitions.{
  transitions, member, terminal_substages, won_substage, auto_advance, stage_by_substage,
}

pub record StageTransitionStep : Type 0 where
  pub stage : Stage
  pub substage : Substage
  pub by_agent_id : String
  pub note : Option String
  pub is_auto_advance : Bool

-- `steps` is never empty: `first` is its head.
pub record StageTransitionPlan : Type 0 where
  pub first : StageTransitionStep
  pub rest : List StageTransitionStep
  pub final_is_terminal : Bool
  pub final_is_won : Bool

abbrev pub steps : StageTransitionPlan → List StageTransitionStep
steps p = p.first ∷ p.rest

or_stage : Option Stage → Stage → Stage
or_stage (some explicit) current = explicit
or_stage none current = current

unfoldable pub resolve_stage : Substage → Stage → Stage
unfolding or_stage
resolve_stage target current = or_stage (stage_by_substage target) current

-- `TRANSITIONS.get(s) or frozenset()`
unfoldable pub or_empty : Option (List Substage) → List Substage
or_empty none = []
or_empty (some l) = l

-- `final = steps[-1]`
unfoldable pub last_step : StageTransitionStep → List StageTransitionStep → StageTransitionStep
last_step s [] = s
last_step s (t ∷ ts) = last_step t ts

unfoldable pub finish : StageTransitionStep → List StageTransitionStep → StageTransitionPlan
unfolding last_step
finish first rest =
    let final = last_step first rest in
    record {
      first = first;
      rest = rest;
      final_is_terminal = member final.substage terminal_substages;
      final_is_won = same final.substage won_substage;
    }

-- the step that the caller asked for
abbrev pub first_step : Stage → Substage → String → Option String → StageTransitionStep
first_step current_stage target by_agent_id remark = record {
  stage = resolve_stage target current_stage;
  substage = target;
  by_agent_id = by_agent_id;
  note = remark;
  is_auto_advance = false;
}

-- the step that the system adds
abbrev pub follow_step : Stage → Substage → Substage → StageTransitionStep
follow_step first_stage target follow_on = record {
  stage = resolve_stage follow_on first_stage;
  substage = follow_on;
  by_agent_id = "system";
  note = some ("auto-advance from " ++s name target);
  is_auto_advance = true;
}

-- the branch on `follow_on`
with_follow_on :
    Substage → StageTransitionStep → Option Substage → Result DealError StageTransitionPlan
unfolding or_empty resolve_stage finish
with_follow_on target first none = ok (finish first [])
with_follow_on target first (some follow_on) =
    if member follow_on (or_empty (transitions target))
    then ok (finish first (follow_step first.stage target follow_on ∷ []))
    else err (auto_advance_not_listed target follow_on)

-- the branch on `allowed`
with_allowed :
    Stage
    → Substage
    → Substage
    → String
    → Option String
    → Option (List Substage)
    → Result DealError StageTransitionPlan
unfolding with_follow_on
with_allowed current_stage current target by_agent_id remark none = err (unknown_current current)
with_allowed current_stage current target by_agent_id remark (some allowed) =
    if member target allowed
    then with_follow_on target (first_step current_stage target by_agent_id remark)
        (auto_advance target)
    else err (not_allowed current target)

unfoldable pub transition :
    Stage → Substage → Substage → String → Option String → Result DealError StageTransitionPlan
unfolding with_allowed
transition current_stage current target by_agent_id remark =
    with_allowed current_stage current target by_agent_id remark (transitions current)
