-- ===== src/Scenarios/Deals.antt =====
-- One deal: its plans, its transitions and its loss.
use nativ.Prelude.{◌≡◌, refl, false, none, some, [], ◌∷◌, Result, ok, err, is_ok}
use nativ.Json.{Json, Items, Fields, null, str, arr, nil, end, field, get, append}
use nativ.Deal.Errors.{DealError}
use nativ.Deal.Substage.{
  Stage, lead, proposal, delivery, Substage, same, new_lead, initial_call_completed, qualified,
  proposal_sent, archived, paused, lost, budget,
}
use nativ.Deal.Transitions.{transitions, member, auto_advance, stage_by_substage}
use nativ.Deal.StateMachine.{StageTransitionPlan, steps, transition, last_step}
use nativ.Deal.StateMachine.Edges.{targets}
use nativ.Deal.StateMachine.Plans.{last, IsChain, transition-IsChain, transition_accepts}
use nativ.Deal.StateMachine.Stages.{Fits}
use nativ.Deal.StateMachine.Routes.{run, route, ended, run-route, dead_ends}
use nativ.Deal.Row.{Deal}
use nativ.Deal.LossReasons.{validate_reason}
use nativ.Deal.Orchestrator.{apply_transition, record_loss}
use nativ.Deal.Orchestrator.Apply.{IsMoved, apply_transition-IsMoved, apply_transition_returns}
use nativ.Deal.Orchestrator.Lives.{IsConsistent}

abbrev pub sample : Stage → Substage → Deal
sample stage substage = record {
  deal_id = "deal-1";
  agency_id = "agency";
  talent_id = "talent-1";
  brand_id = "brand-1";
  primary_contact_id = null;
  originating_enrollment_id = none;
  stage = stage;
  substage = substage;
  is_terminal = false;
  is_won = false;
  expected_value_usd = null;
  expected_close_date = null;
  next_action_due_at = null;
  latest_prep_pack_id = none;
  is_deleted = false;
  doc = field "stage_history" (arr nil) end;
}

-- The plan for `qualified` has a second step, which the system takes.
abbrev plan_of : Result DealError StageTransitionPlan → StageTransitionPlan → StageTransitionPlan
plan_of (ok p) q = p
plan_of (err e) q = q

abbrev empty_plan : StageTransitionPlan
empty_plan = record {
  first = record {
    stage = lead;
    substage = new_lead;
    by_agent_id = "";
    note = none;
    is_auto_advance = false;
  };
  rest = [];
  final_is_terminal = false;
  final_is_won = false;
}

abbrev to_qualified : StageTransitionPlan
to_qualified = plan_of (transition lead initial_call_completed qualified "sam" none) empty_plan

two_steps : steps to_qualified ≡ to_qualified.first ∷ last to_qualified ∷ []
unfolding transition transitions member same auto_advance stage_by_substage last_step
two_steps = refl

no_leap : is_ok (transition lead new_lead archived "sam" none) ≡ false
unfolding transition transitions member same
no_leap = refl

planned : transition lead initial_call_completed qualified "sam" none ≡ ok to_qualified
unfolding transition transitions member same auto_advance stage_by_substage
planned = refl

transition_accepts_example :
    is_ok (transition lead initial_call_completed qualified "sam" none)
    ≡ member qualified (targets initial_call_completed)
transition_accepts_example = transition_accepts lead initial_call_completed qualified "sam" none

transition-IsChain_example : IsChain lead initial_call_completed qualified "sam" to_qualified
transition-IsChain_example =
    transition-IsChain lead initial_call_completed qualified "sam" none to_qualified planned

lead-Fits : Fits lead initial_call_completed
unfolding stage_by_substage
lead-Fits = λ x e. cc

run-route_example : ended (run lead new_lead (route new_lead)) ≡ some archived
unfolding member same
run-route_example = run-route lead new_lead refl

dead_ends_example : is_ok (transition delivery paused lost "sam" none) ≡ false
dead_ends_example = dead_ends delivery paused lost "sam" none refl

abbrev in_call : Deal
in_call = sample lead initial_call_completed

abbrev moved_plan : StageTransitionPlan
moved_plan = plan_of (apply_transition in_call qualified "sam" none "2026-05-01").0 empty_plan

moved_returns : (apply_transition in_call qualified "sam" none "2026-05-01").0 ≡ ok moved_plan
unfolding apply_transition transition transitions member same auto_advance stage_by_substage get
    nativ.Json.truthy nativ.Json.put append
moved_returns = refl

apply_transition-IsMoved_example :
    (transition lead initial_call_completed qualified "sam" none ≡ ok moved_plan)
    × IsMoved in_call "2026-05-01" moved_plan
        (apply_transition in_call qualified "sam" none "2026-05-01").1
apply_transition-IsMoved_example =
    apply_transition-IsMoved in_call qualified "sam" none "2026-05-01" moved_plan moved_returns

apply_transition_returns_example :
    (p : StageTransitionPlan) × ((apply_transition in_call qualified "sam" none "2026-05-01").0
      ≡ ok p)
unfolding targets transitions member same nativ.Deal.Orchestrator.list_of nativ.Json.truthy
apply_transition_returns_example =
    apply_transition_returns in_call qualified "sam" none "2026-05-01" nil refl (unfold get in refl)

in_call_agrees : IsConsistent in_call
unfolding stage_by_substage member same auto_advance
in_call_agrees = record { fits = λ x e. cc; terminal = refl; won = refl; at_rest = refl }

abbrev in_proposal : Deal
in_proposal = sample proposal proposal_sent

abbrev lost_plan : StageTransitionPlan
lost_plan = plan_of (apply_transition in_proposal lost "sam" none "2026-05-01").0 empty_plan

-- Case and surrounding space do not matter.
reason_spaced : validate_reason "  Budget " ≡ ok budget
unfolding validate_reason
reason_spaced = refl

abbrev captured_plan : StageTransitionPlan
captured_plan =
    plan_of (record_loss in_proposal "  Budget " "sam" none none none "2026-05-01").0 empty_plan
