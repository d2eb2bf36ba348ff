-- ===== src/Deal/Orchestrator/Loss.antt =====
-- What `record_loss` leaves in the row, and what a plain transition to `lost` leaves out.
use nativ.Prelude.{String, ◌≡◌, refl, ap, ◌∙◌, true, false, Option, some, Result, ok, err, ◌=s◌}
use nativ.Json.{Fields, obj, get}
use nativ.Deal.Errors.{DealError}
use nativ.Deal.Substage.{Stage, lost, same, Reason}
use nativ.Deal.Transitions.{member, auto_advance, stage_by_substage}
use nativ.Deal.StateMachine.{StageTransitionPlan, last_step, finish, resolve_stage}
use nativ.Deal.StateMachine.Plans.{last, IsPlan, single, double, transition-IsPlan}
use nativ.Deal.LossReasons.{lost_at_stage_for, validate_reason}
use nativ.Deal.Row.{Deal}
use nativ.Deal.Orchestrator.{
  or_stage, loss_block, close_loss, with_reason, apply_transition, record_loss,
}
use nativ.Deal.Orchestrator.Apply.{apply_transition-IsMoved, apply_transition_unchanged}
use nativ.Deal.Orchestrator.Lives.{
  Lands, IsMoved-Lands, IsConsistent, apply_transition-IsConsistent,
}

-- The row of a lost deal: it stays in its stage, is terminal, and is not won.
pub record IsLost (d d' : Deal) : Type 0 where
  pub stage : d'.stage ≡ d.stage
  pub substage : d'.substage ≡ lost
  pub terminal : d'.is_terminal ≡ true
  pub not_won : d'.is_won ≡ false

plan_to_lost :
    (d d' : Deal) (by : String) (remark : Option String) (p : StageTransitionPlan)
    → IsPlan d.stage lost by remark p
    → Lands p d'
    → IsLost d d'
unfolding finish last_step resolve_stage stage_by_substage auto_advance member same
plan_to_lost d d' by remark p (single a e) l = record {
  stage = l.stage ∙ ap (λ q. (last q).stage) e;
  substage = l.substage ∙ ap (λ q. (last q).substage) e;
  terminal = l.is_terminal ∙ ap (λ (q : StageTransitionPlan). q.final_is_terminal) e;
  not_won = l.is_won ∙ ap (λ (q : StageTransitionPlan). q.final_is_won) e;
}
plan_to_lost d d' by remark p (double f a e) l = cc

-- The keys of the document that a transition does not write.
abbrev Others : Deal → Deal → Type 0
Others d d' = (k : String) → ("stage_history" =s k) ≡ false → get k d'.doc ≡ get k d.doc

moved_to_lost :
    (d : Deal) (by : String) (remark : Option String) (at : String) (p : StageTransitionPlan)
    → (apply_transition d lost by remark at).0 ≡ ok p
    → IsLost d (apply_transition d lost by remark at).1
      × Others d (apply_transition d lost by remark at).1
moved_to_lost d by remark at p h =
    let d' : Deal = (apply_transition d lost by remark at).1 in
    let (planned, m) = apply_transition-IsMoved d lost by remark at p h in
    (
      plan_to_lost d d' by remark p (transition-IsPlan d.stage d.substage lost by remark p planned)
          (IsMoved-Lands d at p d' m),
      m.logged.1,
    )

-- A plain transition to `lost` that succeeds marks the row as lost, and captures no reason: the
-- document has the `loss` block that it had before, or none.
transition_to_lost :
    (d : Deal) (by : String) (remark : Option String) (at : String) (p : StageTransitionPlan)
    → (apply_transition d lost by remark at).0 ≡ ok p
    → IsLost d (apply_transition d lost by remark at).1
      × (get "loss" (apply_transition d lost by remark at).1.doc ≡ get "loss" d.doc)
transition_to_lost d by remark at p h =
    let (gone, others) = moved_to_lost d by remark at p h in (gone, others "loss" refl)

-- The row after a captured loss: lost, with the structured block under the key `loss`, every other
-- key but the history kept.
pub record IsCaptured (d : Deal) (block : Fields) (d' : Deal) : Type 0 where
  pub gone : IsLost d d'
  pub captured : get "loss" d'.doc ≡ some (obj block)
  pub others :
      (k : String)
      → ("stage_history" =s k) ≡ false
      → ("loss" =s k) ≡ false
      → get k d'.doc ≡ get k d.doc

close_loss_unchanged :
    (d : Deal) (block : Fields) (r : Result DealError StageTransitionPlan) (d' : Deal)
    (e : DealError)
    → ((x : DealError) → r ≡ err x → d' ≡ d)
    → (close_loss block (r, d')).0 ≡ err e
    → (close_loss block (r, d')).1 ≡ d
unfolding close_loss
close_loss_unchanged d block (err x) d' e left h = left x refl
close_loss_unchanged d block (ok q) d' e left h = cc

module _ (d : Deal) (by : String) (stage : Option Stage) (rival notes : Option String)
    (at : String) where
  abbrev block_for : Reason → Fields
  block_for r = loss_block r (or_stage stage (lost_at_stage_for d.stage)) at by rival notes

  with_reason_unchanged :
      (r : Result DealError Reason) (e : DealError)
      → (with_reason d r by stage rival notes at).0 ≡ err e
      → (with_reason d r by stage rival notes at).1 ≡ d
  unfolding with_reason
  with_reason_unchanged (err x) e h = refl
  with_reason_unchanged (ok x) e h =
      close_loss_unchanged d (block_for x) _ _ e
        (λ y q. apply_transition_unchanged d lost by _ at y q) h

-- A loss that is refused, for its reason or for the substage, leaves the row as it was.
record_loss_unchanged :
    (d : Deal) (reason by : String) (stage : Option Stage) (rival notes : Option String)
    (at : String) (e : DealError)
    → (record_loss d reason by stage rival notes at).0 ≡ err e
    → (record_loss d reason by stage rival notes at).1 ≡ d
unfolding record_loss
record_loss_unchanged d reason by stage rival notes at e h =
    with_reason_unchanged d by stage rival notes at (validate_reason reason) e h

close_loss-IsConsistent :
    (block : Fields) (r : Result DealError StageTransitionPlan) (d : Deal)
    → IsConsistent d
    → IsConsistent (close_loss block (r, d)).1
unfolding close_loss
close_loss-IsConsistent block (err e) d v = v
close_loss-IsConsistent block (ok p) d v = record {
  fits = v.fits;
  terminal = v.terminal;
  won = v.won;
  at_rest = v.at_rest;
}

with_reason-IsConsistent :
    (d : Deal) (r : Result DealError Reason) (by : String) (stage : Option Stage)
    (rival notes : Option String) (at : String)
    → IsConsistent d
    → IsConsistent (with_reason d r by stage rival notes at).1
unfolding with_reason
with_reason-IsConsistent d (err e) by stage rival notes at v = v
with_reason-IsConsistent d (ok x) by stage rival notes at v =
    close_loss-IsConsistent _ _ _ (apply_transition-IsConsistent d lost by _ at v).0

-- Whether a loss is captured or refused, the columns of the row agree afterwards.
pub record_loss-IsConsistent :
    (d : Deal) (reason by : String) (stage : Option Stage) (rival notes : Option String)
    (at : String)
    → IsConsistent d
    → IsConsistent (record_loss d reason by stage rival notes at).1
unfolding record_loss
record_loss-IsConsistent d reason by stage rival notes at v =
    with_reason-IsConsistent d (validate_reason reason) by stage rival notes at v
