-- ===== src/Deal/StateMachine/Routes.antt =====
-- Where the table leads: its dead ends, a way to win from every other substage, and the substages
-- that every won deal has passed.
use nativ.Prelude.{
  String, ◌≡◌, refl, ap, ◌∙◌, Bool, true, false, Option, none, some, List, [], ◌∷◌, arith, is_ok,
  Result, ok, err,
}
use nativ.Deal.Substage.{
  Stage, Substage, new_lead, initial_call_scheduled, initial_call_completed, brief_received,
  qualified, proposal_drafting, proposal_sent, under_review, negotiation, terms_agreed,
  contract_drafting, contract_in_review_brand, contract_in_review_talent, contract_revisions,
  contract_executed, pre_production, content_in_production, pending_brand_approval,
  revisions_requested, approved_for_posting, live, performance_window, invoice_sent, invoice_paid,
  post_campaign_reporting, archived, paused, other, same,
}
use nativ.Deal.Errors.{DealError}
use nativ.Deal.Transitions.{
  transitions, member, terminal_substages, auto_advance, stage_by_substage,
}
use nativ.Deal.StateMachine.{transition, last_step}
use nativ.Deal.StateMachine.Edges.{targets}
use nativ.Deal.StateMachine.Plans.{last, transition_accepts}

-- The substages from which no transition leads: the terminal ones, `paused`, and any string that the
-- table does not know.
abbrev pub is_dead : Substage → Bool
is_dead paused = true
is_dead (other s) = true
is_dead s = member s terminal_substages

no_target : (s : Substage) → is_dead s ≡ true → targets s ≡ []
unfolding targets member same
no_target new_lead h = cc
no_target _ h = ground arith

-- From a terminal substage, from `paused`, and from a text that the table does not know, `transition`
-- refuses every target.
pub dead_ends :
    (stage : Stage) (s t : Substage) (by : String) (remark : Option String)
    → is_dead s ≡ true
    → is_ok (transition stage s t by remark) ≡ false
unfolding member
dead_ends stage s t by remark d =
    transition_accepts stage s t by remark ∙ ap (member t) (no_target s d)

-- A sequence of requests, each made on the stage and the substage where the last plan ended.
unfoldable pub run : Stage → Substage → List Substage → Result DealError (Stage × Substage)
run stage s [] = ok (stage, s)
run stage s (t ∷ ts) = elim (transition stage s t "agent" none) [
  | ok p ↦ run (last p).stage (last p).substage ts
  | err e ↦ err e
]

-- The requests that remain to be made to win a deal.
abbrev delivery_route : List Substage
delivery_route =
    approved_for_posting ∷ live ∷ performance_window ∷ invoice_sent ∷ invoice_paid
    ∷ post_campaign_reporting ∷ archived ∷ []

abbrev production_route : List Substage
production_route = content_in_production ∷ pending_brand_approval ∷ delivery_route

abbrev contract_route : List Substage
contract_route = contract_executed ∷ production_route

abbrev proposal_route : List Substage
proposal_route = terms_agreed ∷ contract_in_review_brand ∷ contract_route

abbrev lead_route : List Substage
lead_route = qualified ∷ proposal_sent ∷ proposal_route

abbrev pub route : Substage → List Substage
route new_lead = initial_call_scheduled ∷ initial_call_completed ∷ lead_route
route initial_call_scheduled = initial_call_completed ∷ lead_route
route initial_call_completed = lead_route
route brief_received = lead_route
route qualified = proposal_drafting ∷ proposal_sent ∷ proposal_route
route proposal_drafting = proposal_sent ∷ proposal_route
route proposal_sent = proposal_route
route under_review = proposal_route
route negotiation = proposal_route
route terms_agreed = contract_drafting ∷ contract_in_review_brand ∷ contract_route
route contract_drafting = contract_in_review_brand ∷ contract_route
route contract_in_review_brand = contract_route
route contract_in_review_talent = contract_route
route contract_revisions = contract_in_review_brand ∷ contract_route
route contract_executed = pre_production ∷ production_route
route pre_production = production_route
route content_in_production = pending_brand_approval ∷ delivery_route
route pending_brand_approval = delivery_route
route revisions_requested = pending_brand_approval ∷ delivery_route
route approved_for_posting =
    live ∷ performance_window ∷ invoice_sent ∷ invoice_paid ∷ post_campaign_reporting ∷ archived
    ∷ []
route live =
    performance_window ∷ invoice_sent ∷ invoice_paid ∷ post_campaign_reporting ∷ archived ∷ []
route performance_window = invoice_sent ∷ invoice_paid ∷ post_campaign_reporting ∷ archived ∷ []
route invoice_sent = invoice_paid ∷ post_campaign_reporting ∷ archived ∷ []
route invoice_paid = post_campaign_reporting ∷ archived ∷ []
route post_campaign_reporting = archived ∷ []
route _ = []

abbrev pub ended : Result DealError (Stage × Substage) → Option Substage
ended (ok (stage, s)) = some s
ended (err e) = none

-- From every substage that is neither terminal nor `paused` nor an unknown text, and in any stage, there
-- is a list of requests that `transition` accepts one after the other and that ends on `archived`.
pub run-route :
    (stage : Stage) (s : Substage)
    → is_dead s ≡ false
    → ended (run stage s (route s)) ≡ some archived
unfolding run transition transitions auto_advance member same stage_by_substage last_step
run-route stage new_lead h = refl
run-route stage _ h = ground arith
