-- ===== src/Deal/Tasks.antt =====
-- The two beat tasks: app/services/deal_auto_archive_task.py (`process_ready_archives`) and
-- app/services/deal_phase_4_5_auto_fire_task.py (`process_ready_deals`), as loops over the deals that
-- the scanner returned. `errors` lists the deals whose turn raised.
pub mod Archive
pub mod Debounce
use nativ.Prelude.{
  ℕ, ◌+◌, String, Bool, true, false, Option, some, List, [], ◌∷◌, Result, ok, err, if◌then◌else◌,
}
use nativ.Json.{Json, Fields, str, put}
use nativ.Deal.Errors.{DealError}
use nativ.Deal.Substage.{archived}
use nativ.Deal.StateMachine.{StageTransitionPlan}
use nativ.Deal.Row.{Deal}
use nativ.Deal.Orchestrator.{apply_transition}

pub record ArchiveReport : Type 0 where
  pub rows : List Deal
  pub archived_count : ℕ
  pub errors : List String

-- one turn of the loop, before the report on the rest
archive_turn : Result DealError StageTransitionPlan × Deal → ArchiveReport → ArchiveReport
archive_turn (err e, d) report = record {
  rows = d ∷ report.rows;
  archived_count = report.archived_count;
  errors = d.deal_id ∷ report.errors;
}
archive_turn (ok p, d) report = record {
  rows = d ∷ report.rows;
  archived_count = report.archived_count + 1;
  errors = report.errors;
}

abbrev pub archive_one : String → Deal → Result DealError StageTransitionPlan × Deal
archive_one at d =
    apply_transition d archived "system_auto_archive" (some "all 3 close-gate checks passed") at

unfoldable pub process_ready_archives : String → List Deal → ArchiveReport
unfolding archive_turn
process_ready_archives at [] = record { rows = []; archived_count = 0; errors = [] }
process_ready_archives at (d ∷ ds) = archive_turn (archive_one at d) (process_ready_archives at ds)

pub record FireReport : Type 0 where
  pub rows : List Deal
  pub enqueued : ℕ
  pub skipped_gated : ℕ
  pub errors : List String

unfoldable pub stamped : String → Deal → Deal
stamped now_iso d = record d { doc = put "prep_pack_enqueued_at" (str now_iso) d.doc }

-- one turn: `sent` is whether `send_task` returned for this deal
fire_turn : Bool → Bool → String → Deal → FireReport → FireReport
fire_turn true true now_iso d report = record {
  rows = stamped now_iso d ∷ report.rows;
  enqueued = report.enqueued + 1;
  skipped_gated = report.skipped_gated;
  errors = report.errors;
}
fire_turn true false now_iso d report = record {
  rows = d ∷ report.rows;
  enqueued = report.enqueued;
  skipped_gated = report.skipped_gated;
  errors = d.deal_id ∷ report.errors;
}
fire_turn false sent now_iso d report = record {
  rows = stamped now_iso d ∷ report.rows;
  enqueued = report.enqueued;
  skipped_gated = report.skipped_gated + 1;
  errors = report.errors;
}

-- `send` says for which deals the queue takes the task.
unfoldable pub process_ready_deals : Bool → (String → Bool) → String → List Deal → FireReport
unfolding fire_turn
process_ready_deals auto_fire send now_iso [] = record {
  rows = [];
  enqueued = 0;
  skipped_gated = 0;
  errors = [];
}
process_ready_deals auto_fire send now_iso (d ∷ ds) =
    fire_turn auto_fire (send d.deal_id) now_iso d (process_ready_deals auto_fire send now_iso ds)
