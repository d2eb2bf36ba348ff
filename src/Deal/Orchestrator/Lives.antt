-- ===== src/Deal/Orchestrator/Lives.antt =====
-- The life of a deal: what holds of a row after any number of transitions.
use nativ.Prelude.{
  String, ◌≡◌, sym, subst, ap, ◌∙◌, true, Option, none, List, [], ◌∷◌, arith, ok, inl, inr, ◌≤◌,
  all, Result-cases,
}
use nativ.Deal.Substage.{Stage, Substage, new_lead, archived, same, same-eq}
use nativ.Deal.Transitions.{member, terminal_substages, won_substage, auto_advance}
use nativ.Deal.StateMachine.{StageTransitionStep, StageTransitionPlan, steps, last_step}
use nativ.Deal.StateMachine.Plans.{last, Linked, IsChain, transition-IsChain}
use nativ.Deal.StateMachine.Stages.{rank, Fits, transition_forward}
use nativ.Deal.StateMachine.Milestones.{Trail, start, move, milestones, won_passes}
use nativ.Deal.Row.{Deal}
use nativ.Deal.Orchestrator.{apply_transition}
use nativ.Deal.Orchestrator.Apply.{IsMoved, apply_transition-IsMoved, apply_transition_unchanged}

-- The scalar columns of a row agree with each other.
pub record IsConsistent (d : Deal) : Type 0 where
  pub fits : Fits d.stage d.substage
  pub terminal : d.is_terminal ≡ member d.substage terminal_substages
  pub won : d.is_won ≡ same d.substage won_substage
  pub at_rest : auto_advance d.substage ≡ none

-- The columns after a plan.
pub record Lands (p : StageTransitionPlan) (d : Deal) : Type 0 where
  pub stage : d.stage ≡ (last p).stage
  pub substage : d.substage ≡ (last p).substage
  pub is_terminal : d.is_terminal ≡ p.final_is_terminal
  pub is_won : d.is_won ≡ p.final_is_won

pub IsMoved-Lands :
    (d : Deal) (at : String) (p : StageTransitionPlan) (d' : Deal) → IsMoved d at p d' → Lands p d'
IsMoved-Lands d at p d' m = record {
  stage = ap (λ (x : Deal). x.stage) m.kept;
  substage = ap (λ (x : Deal). x.substage) m.kept;
  is_terminal = ap (λ (x : Deal). x.is_terminal) m.kept;
  is_won = ap (λ (x : Deal). x.is_won) m.kept;
}

Lands-IsConsistent :
    (d d' : Deal) (t : Substage) (by : String) (p : StageTransitionPlan)
    → IsChain d.stage d.substage t by p
    → Fits (last p).stage (last p).substage
    → Lands p d'
    → IsConsistent d'
Lands-IsConsistent d d' t by p c f l = record {
  fits =
      subst (λ s. Fits d'.stage s) (sym l.substage)
        (subst (λ x. Fits x (last p).substage) (sym l.stage) f);
  terminal = rw l.substage (l.is_terminal ∙ c.terminal_flag);
  won = rw l.substage (l.is_won ∙ c.won_flag);
  at_rest = rw l.substage c.at_rest;
}

-- Whether `apply_transition` returns or raises, the columns of a row that agreed before agree afterwards,
-- and its stage has not gone back.
pub apply_transition-IsConsistent :
    (d : Deal) (t : Substage) (by : String) (remark : Option String) (at : String)
    → IsConsistent d
    → IsConsistent (apply_transition d t by remark at).1
      × (rank d.stage ≤ rank (apply_transition d t by remark at).1.stage)
apply_transition-IsConsistent d t by remark at v =
    elim (Result-cases (apply_transition d t by remark at).0) [
      | inl (e, bad) ↦
          let keeps = apply_transition_unchanged d t by remark at e bad in
          (
            subst IsConsistent (sym keeps) v,
            subst (λ (x : Deal). rank d.stage ≤ rank x.stage) (sym keeps) (omega arith),
          )
      | inr (p, good) ↦
          let d' : Deal = (apply_transition d t by remark at).1 in
          let (planned, m) = apply_transition-IsMoved d t by remark at p good in
          let lands = IsMoved-Lands d at p d' m in
          let (up, f) = transition_forward d.stage d.substage t by remark p planned v.fits in
          (
            Lands-IsConsistent d d' t by p
                (transition-IsChain d.stage d.substage t by remark p planned) f lands,
            subst (λ x. rank d.stage ≤ rank x) (sym lands.stage) up,
          )
    ]

abbrev pub visited : List StageTransitionStep → List Substage → List Substage
visited [] vs = vs
visited (x ∷ xs) vs = visited xs (x.substage ∷ vs)

-- A row that was inserted as a new lead and moved by `apply_transition`, with the substages that it
-- has visited, the latest first.
pub data Life : Deal → List Substage → Type 0 where
  born : {d : Deal} → d.substage ≡ new_lead → Life d (new_lead ∷ [])
  moved :
      {d : Deal} {vs ws : List Substage} (t : Substage) (by : String) (remark : Option String)
      (at : String) (p : StageTransitionPlan) {d' : Deal}
      → Life d vs
      → apply_transition d t by remark at ≡ (ok p, d')
      → ws ≡ visited (steps p) vs
      → Life d' ws

Linked-Trail :
    {a : Substage} (stage : Stage) (s : Substage) (x : StageTransitionStep)
    (xs : List StageTransitionStep) {vs : List Substage}
    → Trail a s vs
    → Linked stage s (x ∷ xs)
    → Trail a (last_step x xs).substage (visited (x ∷ xs) vs)
unfolding last_step
Linked-Trail stage s x [] w (e, q, _) = move w e
Linked-Trail stage s x (y ∷ ys) w (e, q, l) = Linked-Trail x.stage x.substage y ys (move w e) l

Life-Trail : {d : Deal} {vs : List Substage} → Life d vs → Trail new_lead d.substage vs
Life-Trail (born e) = subst (λ s. Trail new_lead s (new_lead ∷ [])) (sym e) start
Life-Trail (moved {d = d} {vs = vs} {ws = ws} t by remark at p {d' = d'} life e q) =
    let (planned, m) = apply_transition-IsMoved d t by remark at p (ap (λ x. x.0) e) in
    let lands = IsMoved-Lands d at p d' (subst (IsMoved d at p) (ap (λ x. x.1) e) m) in
    let w =
      Linked-Trail d.stage d.substage p.first p.rest (Life-Trail life)
        (transition-IsChain d.stage d.substage t by remark p planned).linked in
    subst (λ s. Trail new_lead s ws) (sym lands.substage)
      (subst (Trail new_lead (last p).substage) (sym q) w)

-- A row that was inserted as a new lead, was moved by `apply_transition` only, and is consistent and
-- won, has visited each of the fifteen milestones, from `qualified` to `post_campaign_reporting`.
pub won-Life :
    {d : Deal} (vs : List Substage)
    → Life d vs
    → IsConsistent d
    → d.is_won ≡ true
    → all (λ b. member b vs) milestones ≡ true
won-Life {d} vs life v h = won_passes vs (
    subst (λ s. Trail new_lead s vs) (same-eq d.substage archived (sym v.won ∙ h))
      (Life-Trail life))
