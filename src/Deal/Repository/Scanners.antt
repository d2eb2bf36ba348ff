-- ===== src/Deal/Repository/Scanners.antt =====
-- The two scanners of app/repositories/deal.py: `find_ready_for_prep_pack` and `find_ready_for_archive`.
use nativ.Prelude.{
  ℕ, ◌+◌, String, Bool, true, false, not, ◌&&◌, Option, none, some, List, if◌then◌else◌, ◌=s◌, take,
  keep, ltb,
}
use nativ.Json.{Json, Fields, str, obj, get, truthy_at}
use nativ.Deal.Substage.{initial_call_scheduled, post_campaign_reporting, same}
use nativ.Deal.Row.{Deal}
use nativ.Deal.Repository.{base_filter}

no_pack : Option String → Bool
no_pack none = true
no_pack (some s) = false

-- the WHERE clause of `find_ready_for_prep_pack`
unfoldable pub awaits_prep_pack : String → Deal → Bool
unfolding no_pack base_filter
awaits_prep_pack agency d =
    base_filter agency d
    && same d.substage initial_call_scheduled
    && no_pack d.latest_prep_pack_id
    && not d.is_terminal

-- `_enqueue_stale`: `parse_iso` is `datetime.fromisoformat`, with times in seconds; a text that it
-- refuses is stale.
older : ℕ → Option ℕ → Bool
older now none = true
older now (some t) = ltb (t + 3600) now

stale_stamp : (String → Option ℕ) → ℕ → Option Json → Bool
unfolding older
stale_stamp parse_iso now (some (str s)) = if s =s "" then true else older now (parse_iso s)
stale_stamp parse_iso now _ = true

unfoldable pub enqueue_stale : (String → Option ℕ) → ℕ → Fields → Bool
unfolding stale_stamp
enqueue_stale parse_iso now m = stale_stamp parse_iso now (get "prep_pack_enqueued_at" m)

-- The limit is applied by the query, before the debounce.
unfoldable pub find_ready_for_prep_pack :
    (String → Option ℕ) → ℕ → String → ℕ → List Deal → List Deal
find_ready_for_prep_pack parse_iso now agency limit rows =
    keep (λ d. enqueue_stale parse_iso now d.doc) (take limit (keep (awaits_prep_pack agency) rows))

-- `_archive_gates_met`
gates : Option Json → Bool
gates (some (obj close)) =
    truthy_at (get "all_invoices_paid_at" close)
    && truthy_at (get "final_kpis" close)
    && truthy_at (get "final_performance_report_attachment_id" close)
gates _ = false

unfoldable pub archive_gates_met : Fields → Bool
unfolding gates
archive_gates_met m = gates (get "close" m)

-- the WHERE clause of `find_ready_for_archive`
unfoldable pub awaits_archive : String → Deal → Bool
unfolding base_filter
awaits_archive agency d =
    base_filter agency d && same d.substage post_campaign_reporting && not d.is_terminal

unfoldable pub find_ready_for_archive : String → ℕ → List Deal → List Deal
find_ready_for_archive agency limit rows =
    keep (λ d. archive_gates_met d.doc) (take limit (keep (awaits_archive agency) rows))
