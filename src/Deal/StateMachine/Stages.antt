-- ===== src/Deal/StateMachine/Stages.antt =====
-- How the stage of a deal moves with its substage.
use nativ.Prelude.{
  ℕ, String, ◌≡◌, refl, sym, subst, Bool, true, false, Option, none, some, List, [], ◌∷◌, arith,
  all, ok, Option-cases, inl, inr, leb, leb→le, ◌≤◌,
}
use nativ.Deal.Substage.{
  Stage, lead, proposal, contract, delivery, close, archived_stage, Substage, new_lead,
}
use nativ.Deal.Transitions.{stage_by_substage}
use nativ.Deal.StateMachine.{
  transition, StageTransitionStep, StageTransitionPlan, last_step, resolve_stage,
}
use nativ.Deal.StateMachine.Edges.{targets, IsEdge, edge_check}
use nativ.Deal.StateMachine.Plans.{Linked, last, transition-IsChain}

-- The order of the stages in a deal's life.
abbrev pub rank : Stage → ℕ
rank lead = 0
rank proposal = 1
rank contract = 2
rank delivery = 3
rank close = 4
rank archived_stage = 5

-- A substage that a stage owns stands in that stage; `lost`, `killed` and `paused` stand in any.
abbrev pub Fits : Stage → Substage → Type 0
Fits stage s = (x : Stage) → stage_by_substage s ≡ some x → stage ≡ x

resolve_stage-Fits : (t : Substage) (stage : Stage) → Fits (resolve_stage t stage) t
unfolding resolve_stage
resolve_stage-Fits t stage x e = ground (arith, e)

-- No row of the table leads back to an earlier stage.
abbrev forward : Option Stage → Option Stage → Bool
forward (some x) (some y) = leb (rank x) (rank y)
forward (some x) none = true
forward none o = false

forward_rows :
    (s : Substage)
    → all (λ t. forward (stage_by_substage s) (stage_by_substage t)) (targets s) ≡ true
unfolding targets stage_by_substage all
forward_rows new_lead = refl
forward_rows _ = refl

-- the two cases of an edge, by whether the target is owned by a stage
rank-forward :
    (stage : Stage) (o u : Option Stage)
    → forward o u ≡ true
    → ((x : Stage) → o ≡ some x → stage ≡ x)
    → (y : Stage) → u ≡ some y
    → rank stage ≤ rank y
rank-forward stage none u h fits y e = cc
rank-forward stage (some x) none h fits y e = cc
rank-forward stage (some x) (some z) h fits y e =
    subst (λ w. rank w ≤ rank y) (sym (fits x refl)) (ground (arith, leb→le (rank x) (rank z)))

rank-resolve_stage :
    (stage : Stage) (s t : Substage)
    → IsEdge s t
    → Fits stage s
    → rank stage ≤ rank (resolve_stage t stage)
unfolding resolve_stage
rank-resolve_stage stage s t e fits = elim (Option-cases (stage_by_substage t)) [
  | inl p ↦ rw p (omega arith)
  | inr (y, p) ↦ rw p (
      rank-forward stage (stage_by_substage s) (stage_by_substage t)
        (edge_check (λ a b. forward (stage_by_substage a) (stage_by_substage b)) forward_rows s t e)
        fits y p)
]

Linked-rank :
    (stage : Stage) (s : Substage) (x : StageTransitionStep) (xs : List StageTransitionStep)
    → Fits stage s
    → Linked stage s (x ∷ xs)
    → (rank stage ≤ rank (last_step x xs).stage)
      × Fits (last_step x xs).stage (last_step x xs).substage
unfolding last_step
Linked-rank stage s x [] fits (e, q, _) = (
  subst (λ w. rank stage ≤ rank w) (sym q) (rank-resolve_stage stage s x.substage e fits),
  subst (λ w. Fits w x.substage) (sym q) (resolve_stage-Fits x.substage stage),
)
Linked-rank stage s x (y ∷ ys) fits (e, q, l) =
    let fits' : Fits x.stage x.substage =
      subst (λ w. Fits w x.substage) (sym q) (resolve_stage-Fits x.substage stage) in
    let first : rank stage ≤ rank x.stage =
      subst (λ w. rank stage ≤ rank w) (sym q) (rank-resolve_stage stage s x.substage e fits) in
    let (later, fits_last) = Linked-rank x.stage x.substage y ys fits' l in (omega arith, fits_last)

-- From a stage that fits its substage, a plan never leads back to an earlier stage, and the stage
-- that it ends in fits the substage that it ends on.
pub transition_forward :
    (stage : Stage) (s t : Substage) (by : String) (remark : Option String)
    (p : StageTransitionPlan)
    → transition stage s t by remark ≡ ok p
    → Fits stage s
    → (rank stage ≤ rank (last p).stage) × Fits (last p).stage (last p).substage
transition_forward stage s t by remark p h fits =
    Linked-rank stage s p.first p.rest fits (transition-IsChain stage s t by remark p h).linked
