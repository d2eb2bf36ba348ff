-- ===== src/Scenarios/Lives.antt =====
-- One deal from its creation to the archive.
use nativ.Prelude.{
  ◌≡◌, refl, ap, Bool, true, ◌&&◌, none, List, [], ◌∷◌, arith, Result, ok, err, is_ok, all, inl,
  inr, Result-cases,
}
use nativ.Deal.Errors.{DealError}
use nativ.Deal.Substage.{lead, Substage, same, new_lead}
use nativ.Deal.Transitions.{transitions, member, auto_advance, stage_by_substage}
use nativ.Deal.StateMachine.{StageTransitionPlan, steps, transition}
use nativ.Deal.StateMachine.Milestones.{milestones}
use nativ.Deal.StateMachine.Routes.{route}
use nativ.Deal.Row.{Deal}
use nativ.Deal.Orchestrator.{apply_transition}
use nativ.Deal.Orchestrator.Lives.{
  IsConsistent, Life, born, moved, visited, won-Life, apply_transition-IsConsistent,
}
use nativ.Scenarios.Deals.{sample}

-- The deal after a list of requests.
abbrev follow : Deal → List Substage → Deal
follow d [] = d
follow d (t ∷ ts) = follow (apply_transition d t "sam" none "2026-05-01").1 ts

abbrev accepted : Deal → List Substage → Bool
accepted d [] = true
accepted d (t ∷ ts) =
    is_ok (apply_transition d t "sam" none "2026-05-01").0
    && accepted (apply_transition d t "sam" none "2026-05-01").1 ts

abbrev planned_steps : Result DealError StageTransitionPlan → List Substage → List Substage
planned_steps (ok p) vs = visited (steps p) vs
planned_steps (err e) vs = vs

abbrev seen : Deal → List Substage → List Substage → List Substage
seen d vs [] = vs
seen d vs (t ∷ ts) =
    seen (apply_transition d t "sam" none "2026-05-01").1
      (planned_steps (apply_transition d t "sam" none "2026-05-01").0 vs) ts

pair_of :
    (r : Result DealError StageTransitionPlan × Deal) (p : StageTransitionPlan)
    → r.0 ≡ ok p
    → r ≡ (ok p, r.1)
pair_of (x, d) p h = ap (λ y. (y, d)) h

follow-Life :
    (d : Deal) (vs ts : List Substage)
    → accepted d ts ≡ true
    → Life d vs
    → Life (follow d ts) (seen d vs ts)
follow-Life d vs [] a life = life
follow-Life d vs (t ∷ ts) a life =
    elim (Result-cases (apply_transition d t "sam" none "2026-05-01").0) [
      | inl (e, bad) ↦ ground (arith, a, bad)
      | inr (p, good) ↦
          follow-Life (apply_transition d t "sam" none "2026-05-01").1
            (planned_steps (apply_transition d t "sam" none "2026-05-01").0 vs) ts (ground arith)
            (moved t "sam" none "2026-05-01" p life (pair_of _ p good)
              (ap (λ r. planned_steps r vs) good))
    ]

abbrev first_deal : Deal
first_deal = sample lead new_lead

abbrev won_deal : Deal
won_deal = follow first_deal (route new_lead)

won_deal-Life : Life won_deal (seen first_deal (new_lead ∷ []) (route new_lead))
unfolding apply_transition transition transitions member same auto_advance stage_by_substage
    nativ.Json.get nativ.Json.truthy nativ.Json.put nativ.Json.append
won_deal-Life = follow-Life first_deal (new_lead ∷ []) (route new_lead) refl (born refl)

follow-IsConsistent : (d : Deal) (ts : List Substage) → IsConsistent d → IsConsistent (follow d ts)
follow-IsConsistent d [] v = v
follow-IsConsistent d (t ∷ ts) v =
    follow-IsConsistent (apply_transition d t "sam" none "2026-05-01").1 ts
      (apply_transition-IsConsistent d t "sam" none "2026-05-01" v).0

won_deal_agrees : IsConsistent won_deal
unfolding member same auto_advance stage_by_substage
won_deal_agrees =
    follow-IsConsistent first_deal (route new_lead)
      record { fits = λ x e. cc; terminal = refl; won = refl; at_rest = refl }

won-Life_example :
    all (λ b. member b (seen first_deal (new_lead ∷ []) (route new_lead))) milestones ≡ true
unfolding apply_transition transition transitions member same auto_advance stage_by_substage
    nativ.Json.get nativ.Json.truthy nativ.Json.put nativ.Json.append
won-Life_example =
    won-Life (seen first_deal (new_lead ∷ []) (route new_lead)) won_deal-Life won_deal_agrees refl
