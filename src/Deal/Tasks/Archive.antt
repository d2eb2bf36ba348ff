-- ===== src/Deal/Tasks/Archive.antt =====
-- The auto-archive task does not fail, and wins every deal that it is given.
use nativ.Prelude.{
  ℕ, ◌+◌, String, ◌≡◌, refl, sym, subst, ap, ◌∙◌, true, Option, some, List, [], ◌∷◌, Result, ok,
  err, arith, All, length,
}
use nativ.Json.{Items}
use nativ.Deal.Errors.{DealError}
use nativ.Deal.Substage.{archived, post_campaign_reporting, same}
use nativ.Deal.Transitions.{member, transitions, auto_advance}
use nativ.Deal.StateMachine.{StageTransitionPlan, last_step, finish}
use nativ.Deal.StateMachine.Edges.{IsEdge, targets}
use nativ.Deal.StateMachine.Plans.{last, IsPlan, single, double, transition-IsPlan}
use nativ.Deal.Row.{Deal}
use nativ.Deal.Orchestrator.Apply.{history, apply_transition-IsMoved, apply_transition_returns}
use nativ.Deal.Orchestrator.Lives.{Lands, IsMoved-Lands}
use nativ.Deal.Tasks.{ArchiveReport, archive_turn, archive_one, process_ready_archives}

-- A deal at the last step before the archive, with a history that can be read.
pub record IsReportable (d : Deal) : Type 0 where
  pub reporting : d.substage ≡ post_campaign_reporting
  pub old : Items
  pub readable : history d.doc ≡ ok old

pub record IsWon (d : Deal) : Type 0 where
  pub substage : d.substage ≡ archived
  pub terminal : d.is_terminal ≡ true
  pub won : d.is_won ≡ true

plan_to_archived :
    (d d' : Deal) (by : String) (remark : Option String) (p : StageTransitionPlan)
    → IsPlan d.stage archived by remark p
    → Lands p d'
    → IsWon d'
unfolding finish last_step auto_advance member same
plan_to_archived d d' by remark p (single a e) l = record {
  substage = l.substage ∙ ap (λ q. (last q).substage) e;
  terminal = l.is_terminal ∙ ap (λ (q : StageTransitionPlan). q.final_is_terminal) e;
  won = l.is_won ∙ ap (λ (q : StageTransitionPlan). q.final_is_won) e;
}
plan_to_archived d d' by remark p (double f a e) l = cc

last-IsEdge : IsEdge post_campaign_reporting archived
unfolding targets transitions member same
last-IsEdge = refl

archive_one-IsWon :
    (at : String) (d : Deal)
    → IsReportable d
    → (p : StageTransitionPlan) × ((archive_one at d).0 ≡ ok p) × IsWon (archive_one at d).1
archive_one-IsWon at d r =
    let remark : Option String = some "all 3 close-gate checks passed" in
    let (p, returns) =
      apply_transition_returns d archived "system_auto_archive" remark at r.old
        (subst (λ s. IsEdge s archived) (sym r.reporting) last-IsEdge) r.readable in
    let (planned, m) =
      apply_transition-IsMoved d archived "system_auto_archive" remark at p returns in
    (
      p,
      returns,
      plan_to_archived d (archive_one at d).1 "system_auto_archive" remark p
          (transition-IsPlan d.stage d.substage archived "system_auto_archive" remark p planned)
          (IsMoved-Lands d at p (archive_one at d).1 m),
    )

pub record AllArchived (n : ℕ) (report : ArchiveReport) : Type 0 where
  pub no_errors : report.errors ≡ []
  pub counted : report.archived_count ≡ n
  pub all_won : All IsWon report.rows
  pub all_kept : length report.rows ≡ n

archive_turn_lem :
    (n : ℕ) (r : Result DealError StageTransitionPlan) (d : Deal) (p : StageTransitionPlan)
    (report : ArchiveReport)
    → r ≡ ok p
    → IsWon d
    → AllArchived n report
    → AllArchived (n + 1) (archive_turn (r, d) report)
unfolding archive_turn
archive_turn_lem n (err e) d p report h w a = cc
archive_turn_lem n (ok q) d p report h w a = record {
  no_errors = a.no_errors;
  counted = omega (arith, a.counted);
  all_won = (w, a.all_won);
  all_kept = omega (arith, a.all_kept);
}

-- Given deals at the reporting step whose histories can be read, the task archives each of them as won,
-- reports no error, and counts them all.
pub process_ready_archives-AllArchived :
    (at : String) (ready : List Deal)
    → All IsReportable ready
    → AllArchived (length ready) (process_ready_archives at ready)
unfolding process_ready_archives
process_ready_archives-AllArchived at [] h = record {
  no_errors = refl;
  counted = refl;
  all_won = tt;
  all_kept = refl;
}
process_ready_archives-AllArchived at (d ∷ ds) h =
    let (p, returns, won) = archive_one-IsWon at d h.0 in
    subst (λ n. AllArchived n (process_ready_archives at (d ∷ ds))) (omega arith)
      (archive_turn_lem (length ds) (archive_one at d).0 (archive_one at d).1 p
        (process_ready_archives at ds) returns won (process_ready_archives-AllArchived at ds h.1))
