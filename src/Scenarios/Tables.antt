-- ===== src/Scenarios/Tables.antt =====
-- The table of deals: requests, patches, scanners and tasks.
use nativ.Prelude.{
  ℕ, String, refl, true, Option, none, some, List, [], ◌∷◌, arith, ◌=s◌, if◌then◌else◌,
}
use nativ.Json.{Json, Fields, null, str, bool, obj, arr, nil, end, field, get}
use nativ.Deal.Substage.{
  lead, close, same, initial_call_completed, qualified, post_campaign_reporting,
}
use nativ.Deal.Transitions.{member, stage_by_substage, auto_advance}
use nativ.Deal.Row.{Deal}
use nativ.Deal.Repository.{base_filter, get_by_id, patch_workflow_state, patch_row}
use nativ.Deal.Repository.Patch.{IsPatched, patch_workflow_state-IsPatched}
use nativ.Deal.Tasks.{process_ready_archives, process_ready_deals}
use nativ.Deal.Tasks.Archive.{IsReportable, AllArchived, process_ready_archives-AllArchived}
use nativ.Deal.Tasks.Debounce.{IsFired, process_ready_deals-IsFired}
use nativ.Deal.Api.{create, move, lose, Call, serve}
use nativ.Deal.Api.Served.{AllConsistent, serve-AllConsistent}
use nativ.Scenarios.Deals.{sample}

abbrev one_row : List Deal
one_row = sample lead initial_call_completed ∷ []

one_row_agrees : AllConsistent one_row
unfolding stage_by_substage member same auto_advance
one_row_agrees = (record { fits = λ x e. cc; terminal = refl; won = refl; at_rest = refl }, tt)

-- A new deal, a move of the old one, and its loss.
abbrev calls : List Call
calls =
    ("deal-2", "2026-05-01", create "talent-2" "brand-2" null "sam" none)
    ∷ ("", "2026-05-02", move "deal-1" qualified "sam" none)
    ∷ ("", "2026-05-03", lose "deal-1" "timing" none none none "sam")
    ∷ []

serve-AllConsistent_example : AllConsistent (serve "agency" calls one_row)
serve-AllConsistent_example = serve-AllConsistent "agency" calls one_row one_row_agrees

abbrev note_diff : Fields
note_diff = field "data" (obj (field "user_notes" (str "call back") end)) end

abbrev noted : Deal
noted = patch_row note_diff (sample lead initial_call_completed)

patch_workflow_state-IsPatched_example :
    IsPatched "agency" "deal-1" one_row noted
      (patch_workflow_state "agency" "deal-1" note_diff one_row).1
unfolding patch_workflow_state get_by_id base_filter nativ.Deal.Repository.validate_workflow_diff
    nativ.Json.has get
patch_workflow_state-IsPatched_example =
    patch_workflow_state-IsPatched "agency" "deal-1" note_diff one_row noted refl

abbrev waiting : Deal
waiting = sample close post_campaign_reporting

abbrev ready : Deal
ready = record waiting {
  deal_id = "deal-2";
  doc =
      field "close"
        (obj (
          field "all_invoices_paid_at" (str "2026-05-01") (
            field "final_kpis" (obj (field "views" (str "10") end))
              (field "final_performance_report_attachment_id" (str "file-1") end))))
        end;
}

-- A reading of the times of these rows.
abbrev clock : String → Option ℕ
clock s = if s =s "2026-05-01" then some 100000 else none

waiting-IsReportable : IsReportable waiting
unfolding get nativ.Deal.Orchestrator.list_of nativ.Json.truthy
waiting-IsReportable = record { reporting = refl; old = nil; readable = refl }

process_ready_archives-AllArchived_example :
    AllArchived 1 (process_ready_archives "2026-05-01" (waiting ∷ []))
unfolding get
process_ready_archives-AllArchived_example =
    process_ready_archives-AllArchived "2026-05-01" (waiting ∷ []) (waiting-IsReportable, tt)

process_ready_deals-IsFired_example :
    IsFired clock 100000 "2026-05-01" refl refl 103600
      (omega arith)
      true
      (λ s. s =s "deal-1")
      1
      (process_ready_deals true (λ s. s =s "deal-1") "2026-05-01" one_row)
process_ready_deals-IsFired_example =
    process_ready_deals-IsFired clock 100000 "2026-05-01" refl refl 103600 (omega arith) true
      (λ s. s =s "deal-1") one_row
