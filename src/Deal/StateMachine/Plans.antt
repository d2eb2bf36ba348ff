-- ===== src/Deal/StateMachine/Plans.antt =====
-- What `transition` accepts, and the plans that it returns.
use nativ.Prelude.{
  String, ◌≡◌, refl, sym, subst, ap, ◌∙◌, true, Option, none, some, List, [], ◌∷◌, arith, ok,
  ok-injective, is_ok, Option-cases, inl, inr, Bool-cases, All,
}
use nativ.Deal.Substage
use nativ.Deal.Substage.{Stage, Substage, new_lead, same}
use nativ.Deal.Transitions.{transitions, member, auto_advance, terminal_substages, won_substage}
use nativ.Deal.StateMachine.{
  transition, StageTransitionStep, StageTransitionPlan, steps, first_step, follow_step, last_step,
  with_follow_on, finish, resolve_stage,
}
use nativ.Deal.StateMachine.Edges.{targets, IsEdge}

-- The follow-on of a substage is always an edge: the check before the second step never fails.
pub auto_advance-IsEdge : (t f : Substage) → auto_advance t ≡ some f → IsEdge t f
unfolding auto_advance targets member Substage.same
auto_advance-IsEdge new_lead f h = cc
auto_advance-IsEdge _ f h = ground arith

-- No follow-on has a follow-on of its own.
auto_advance-stops : (t f : Substage) → auto_advance t ≡ some f → auto_advance f ≡ none
unfolding auto_advance
auto_advance-stops new_lead f h = cc
auto_advance-stops _ f h = ground arith

with_follow_on-ok :
    (t : Substage) (s : StageTransitionStep) (o : Option Substage)
    → auto_advance t ≡ o
    → is_ok (with_follow_on t s o) ≡ true
unfolding with_follow_on targets
with_follow_on-ok t s none h = refl
with_follow_on-ok t s (some f) h = rw (auto_advance-IsEdge t f h)

-- `transition` succeeds exactly on the edges of the table.
pub transition_accepts :
    (stage : Stage) (s t : Substage) (by : String) (remark : Option String)
    → is_ok (transition stage s t by remark) ≡ member t (targets s)
unfolding transition targets member
transition_accepts stage s t by remark = elim (Option-cases (transitions s)) [
  | inl e ↦ ground (arith, e)
  | inr (l, e) ↦
      ground (arith, e, with_follow_on-ok t (first_step stage t by remark) (auto_advance t) refl)
]

-- The two plans for a target.
pub data IsPlan (stage : Stage) (t : Substage) (by : String) (remark : Option String)
    (p : StageTransitionPlan) : Type 0 where
  single :
      auto_advance t ≡ none
      → p ≡ finish (first_step stage t by remark) []
      → IsPlan stage t by remark p
  double :
      (f : Substage)
      → auto_advance t ≡ some f
      → p ≡ finish (first_step stage t by remark) (follow_step (resolve_stage t stage) t f ∷ [])
      → IsPlan stage t by remark p

with_follow_on-IsPlan :
    (stage : Stage) (t : Substage) (by : String) (remark : Option String) (o : Option Substage)
    (p : StageTransitionPlan)
    → auto_advance t ≡ o
    → with_follow_on t (first_step stage t by remark) o ≡ ok p
    → IsPlan stage t by remark p
unfolding with_follow_on targets
with_follow_on-IsPlan stage t by remark none p a h = single a (sym (ok-injective h))
with_follow_on-IsPlan stage t by remark (some f) p a h =
    double f a (sym (ok-injective (rw (auto_advance-IsEdge t f a) at h)))

transition-IsEdge :
    (stage : Stage) (s t : Substage) (by : String) (remark : Option String)
    (p : StageTransitionPlan)
    → transition stage s t by remark ≡ ok p
    → IsEdge s t
transition-IsEdge stage s t by remark p h =
    sym (transition_accepts stage s t by remark) ∙ ap is_ok h

pub transition-IsPlan :
    (stage : Stage) (s t : Substage) (by : String) (remark : Option String)
    (p : StageTransitionPlan)
    → transition stage s t by remark ≡ ok p
    → IsPlan stage t by remark p
unfolding transition targets member
transition-IsPlan stage s t by remark p h = elim (Option-cases (transitions s)) [
  | inl e ↦ ground (arith, e)
  | inr (l, e) ↦ elim (Bool-cases (member t l)) [
    | inl yes_member ↦
        with_follow_on-IsPlan stage t by remark (auto_advance t) p refl
          (ground (arith, e, yes_member))
    | inr not_member ↦ ground (arith, e, not_member)
  ]
]

-- Each step of a chain is an edge from the substage before it, and owns the stage of its substage.
abbrev pub Linked : Stage → Substage → List StageTransitionStep → Type 0
Linked stage s [] = Unit
Linked stage s (x ∷ xs) =
    IsEdge s x.substage × (x.stage ≡ resolve_stage x.substage stage) × Linked x.stage x.substage xs

abbrev pub last : StageTransitionPlan → StageTransitionStep
last p = last_step p.first p.rest

pub record IsChain (stage : Stage) (s t : Substage) (by : String) (p : StageTransitionPlan)
    : Type 0 where
  pub requested : p.first.substage ≡ t
  pub by_requester : p.first.by_agent_id ≡ by
  pub linked : Linked stage s (steps p)
  pub by_system : All (λ x. x.by_agent_id ≡ "system") p.rest
  pub at_rest : auto_advance (last p).substage ≡ none
  pub terminal_flag : p.final_is_terminal ≡ member (last p).substage terminal_substages
  pub won_flag : p.final_is_won ≡ same (last p).substage won_substage

IsPlan-IsChain :
    (stage : Stage) (s t : Substage) (by : String) (remark : Option String)
    (p : StageTransitionPlan)
    → IsEdge s t
    → IsPlan stage t by remark p
    → IsChain stage s t by p
unfolding finish last_step
IsPlan-IsChain stage s t by remark p e (single a q) = subst (IsChain stage s t by) (sym q) (record {
  requested = refl;
  by_requester = refl;
  linked = (e, refl, tt);
  by_system = tt;
  at_rest = a;
  terminal_flag = refl;
  won_flag = refl;
})
IsPlan-IsChain stage s t by remark p e (double f a q) =
    subst (IsChain stage s t by) (sym q) (record {
      requested = refl;
      by_requester = refl;
      linked = (e, refl, (auto_advance-IsEdge t f a, refl, tt));
      by_system = (refl, tt);
      at_rest = auto_advance-stops t f a;
      terminal_flag = refl;
      won_flag = refl;
    })

-- Every plan is a chain of edges that starts with the request and comes to rest on a substage with
-- no automatic follow-on; the steps after the first are the system's.
pub transition-IsChain :
    (stage : Stage) (s t : Substage) (by : String) (remark : Option String)
    (p : StageTransitionPlan)
    → transition stage s t by remark ≡ ok p
    → IsChain stage s t by p
transition-IsChain stage s t by remark p h =
    IsPlan-IsChain stage s t by remark p (transition-IsEdge stage s t by remark p h)
      (transition-IsPlan stage s t by remark p h)
