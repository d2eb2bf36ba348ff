-- ===== src/Deal/Api/Served.antt =====
-- What every row of the table satisfies, whatever requests are served.
use nativ.Prelude.{String, ◌≡◌, refl, Option, none, some, List, [], ◌∷◌, ◌++◌, Result, ok, err, All}
use nativ.Json.{Json, Fields}
use nativ.Deal.Errors.{DealError}
use nativ.Deal.Substage.{Stage, Substage, same}
use nativ.Deal.Transitions.{auto_advance, member, stage_by_substage}
use nativ.Deal.StateMachine.{StageTransitionPlan}
use nativ.Deal.Row.{Deal}
use nativ.Deal.Orchestrator.Lives.{IsConsistent, apply_transition-IsConsistent}
use nativ.Deal.Repository.{get_by_id, manual_row, patch_row}
use nativ.Deal.Repository.Table.{save-All, get_by_id-All}
use nativ.Deal.Repository.Patch.{patch_workflow_state-All}
use nativ.Deal.Orchestrator.Loss.{record_loss-IsConsistent}
use nativ.Deal.Api.{
  Request, create, patch, move, lose, commit, transition_deal, record_deal_loss, create_deal,
  handle, Call, serve,
}

module _ (P : Deal → Type 0) where
  append-All : (d : Deal) (rows : List Deal) → P d → All P rows → All P (rows ++ d ∷ [])
  append-All d [] h a = (h, tt)
  append-All d (x ∷ xs) h a = (a.0, append-All d xs h a.1)

  -- A handler that moves a row keeps what the call keeps.
  commit-All :
      (agency pk : String) (rows : List Deal) (r : Result DealError StageTransitionPlan) (d : Deal)
      → P d
      → All P rows
      → All P (commit agency pk rows (r, d)).1
  unfolding commit
  commit-All agency pk rows (err e) d h a = a
  commit-All agency pk rows (ok p) d h a = save-All P agency pk d rows h a

manual_row-IsConsistent :
    (fresh agency talent brand : String) (contact : Json) (by : String) (remark : Option String)
    (at : String)
    → IsConsistent (manual_row fresh agency talent brand contact by remark at)
unfolding manual_row auto_advance member same stage_by_substage
manual_row-IsConsistent fresh agency talent brand contact by remark at = record {
  fits = λ x e. cc;
  terminal = refl;
  won = refl;
  at_rest = refl;
}

patch_row-IsConsistent :
    (diff : Fields) (d : Deal) → IsConsistent d → IsConsistent (patch_row diff d)
unfolding patch_row
patch_row-IsConsistent diff d v = record {
  fits = v.fits;
  terminal = v.terminal;
  won = v.won;
  at_rest = v.at_rest;
}

abbrev pub AllConsistent : List Deal → Type 0
AllConsistent = All IsConsistent

transition_deal-All :
    (agency pk : String) (t : Substage) (by : String) (remark : Option String) (at : String)
    (rows : List Deal) (o : Option Deal)
    → get_by_id agency pk rows ≡ o
    → AllConsistent rows
    → AllConsistent (transition_deal agency pk t by remark at rows o).1
unfolding transition_deal
transition_deal-All agency pk t by remark at rows none e a = a
transition_deal-All agency pk t by remark at rows (some d) e a =
    commit-All IsConsistent agency pk rows _ _
      (apply_transition-IsConsistent d t by remark at
        (get_by_id-All IsConsistent agency pk rows d a e)).0
      a

record_deal_loss-All :
    (agency pk reason : String) (stage : Option Stage) (rival notes : Option String)
    (by at : String) (rows : List Deal) (o : Option Deal)
    → get_by_id agency pk rows ≡ o
    → AllConsistent rows
    → AllConsistent (record_deal_loss agency pk reason stage rival notes by at rows o).1
unfolding record_deal_loss
record_deal_loss-All agency pk reason stage rival notes by at rows none e a = a
record_deal_loss-All agency pk reason stage rival notes by at rows (some d) e a =
    commit-All IsConsistent agency pk rows _ _
      (record_loss-IsConsistent d reason by stage rival notes at
        (get_by_id-All IsConsistent agency pk rows d a e))
      a

-- Each request, refused or not, keeps the columns of every row in agreement.
pub handle-AllConsistent :
    (agency fresh at : String) (request : Request) (rows : List Deal)
    → AllConsistent rows
    → AllConsistent (handle agency fresh at request rows).1
unfolding handle create_deal
handle-AllConsistent agency fresh at (create talent brand contact by remark) rows a =
    append-All IsConsistent _ rows
      (manual_row-IsConsistent fresh agency talent brand contact by remark at) a
handle-AllConsistent agency fresh at (patch pk diff) rows a =
    patch_workflow_state-All IsConsistent diff (patch_row-IsConsistent diff) agency pk rows a
handle-AllConsistent agency fresh at (move pk t by remark) rows a =
    transition_deal-All agency pk t by remark at rows (get_by_id agency pk rows) refl a
handle-AllConsistent agency fresh at (lose pk reason stage rival notes by) rows a =
    record_deal_loss-All agency pk reason stage rival notes by at rows (get_by_id agency pk rows)
      refl a

-- Whatever requests are served, in whatever order, the rows of the table stay consistent: in every row
-- the stage fits the substage, the two flags say what the substage is, and the deal does not rest on a
-- substage that advances by itself.
pub serve-AllConsistent :
    (agency : String) (calls : List Call) (rows : List Deal)
    → AllConsistent rows
    → AllConsistent (serve agency calls rows)
unfolding serve
serve-AllConsistent agency [] rows a = a
serve-AllConsistent agency ((fresh, at, request) ∷ calls) rows a =
    serve-AllConsistent agency calls (handle agency fresh at request rows).1
      (handle-AllConsistent agency fresh at request rows a)
