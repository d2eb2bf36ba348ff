-- ===== src/Deal/Orchestrator/Apply.antt =====
-- What `apply_transition` leaves in the row.
use nativ.Prelude.{
  String, ◌≡◌, refl, sym, subst, ap, ◌∙◌, false, Option, some, List, [], ◌∷◌, Result, ok, err,
  is_ok, ok-injective, Result-cases, inl, inr, ◌=s◌,
}
use nativ.Json.{Items, Fields, arr, nil, cons, get, put, truthy, append}
use nativ.Json.Dict.{get-put_self, get-put_ne, append_assoc, append-nil}
use nativ.Deal.Errors.{DealError}
use nativ.Deal.Substage.{Substage}
use nativ.Deal.StateMachine.{StageTransitionStep, StageTransitionPlan, steps, transition, last_step}
use nativ.Deal.StateMachine.Plans.{last, transition_accepts}
use nativ.Deal.StateMachine.Edges.{IsEdge}
use nativ.Deal.Row.{Deal}
use nativ.Deal.Orchestrator.{
  list_of, step_entry, apply_steps, run_plan, close_transition, apply_transition,
  append_stage_history,
}

-- the history of a document, as the source reads it
abbrev pub history : Fields → Result DealError Items
history m = list_of (get "stage_history" m)

list_of-arr : (xs : Items) → list_of (some (arr xs)) ≡ ok xs
unfolding list_of truthy
list_of-arr nil = refl
list_of-arr (cons x xs) = refl

abbrev pub entries : String → List StageTransitionStep → Items
entries at [] = nil
entries at (x ∷ xs) = cons (step_entry at x) (entries at xs)

-- the row after the steps
abbrev place : Deal → List StageTransitionStep → Deal
place d [] = d
place d (x ∷ xs) = place (record d { stage = x.stage; substage = x.substage }) xs

abbrev pub Appended : String → Items → List StageTransitionStep → Fields → Fields → Type 0
Appended at h xs m n =
    (history n ≡ ok (append h (entries at xs)))
    × ((k : String) → ("stage_history" =s k) ≡ false → get k n ≡ get k m)

append_stage_history-ok :
    (m : Fields) (x : StageTransitionStep) (at : String) (h : Items)
    → history m ≡ ok h
    → (n : Fields) × (append_stage_history m x at ≡ ok n) × Appended at h (x ∷ []) m n
unfolding append_stage_history
append_stage_history-ok m x at h e = (
  put "stage_history" (arr (append h (cons (step_entry at x) nil))) m,
  rw e,
  (
    rw get-put_self (list_of-arr (append h (cons (step_entry at x) nil))),
    λ k ne. get-put_ne "stage_history" k _ m ne,
  ),
)

apply_steps-ok :
    (d : Deal) (m : Fields) (xs : List StageTransitionStep) (at : String) (h : Items)
    → history m ≡ ok h
    → (n : Fields) × (apply_steps d m xs at ≡ (ok n, place d xs)) × Appended at h xs m n
unfolding apply_steps append
apply_steps-ok d m [] at h e = (m, refl, (rw append-nil e, λ k ne. refl))
apply_steps-ok d m (x ∷ xs) at h e =
    let (n, q, (hist, rest)) = append_stage_history-ok m x at h e in
    let (n', q', (hist', rest')) =
      apply_steps-ok (record d { stage = x.stage; substage = x.substage }) n xs at
        (append h (cons (step_entry at x) nil)) hist in
    (n', rw (q, apply_steps) q', (rw append_assoc at hist', λ k ne. rest' k ne ∙ rest k ne))

append_stage_history-err :
    (m : Fields) (x : StageTransitionStep) (at : String) (e : DealError)
    → history m ≡ err e
    → append_stage_history m x at ≡ err e
unfolding append_stage_history
append_stage_history-err m x at e h = rw h

apply_steps-err :
    (d : Deal) (m : Fields) (x : StageTransitionStep) (xs : List StageTransitionStep) (at : String)
    (e : DealError)
    → history m ≡ err e
    → apply_steps d m (x ∷ xs) at ≡ (err e, d)
unfolding apply_steps
apply_steps-err d m x xs at e h = rw (append_stage_history-err m x at e h, apply_steps)

place_last :
    (d : Deal) (x : StageTransitionStep) (xs : List StageTransitionStep)
    → place d (x ∷ xs)
      ≡ record d { stage = (last_step x xs).stage; substage = (last_step x xs).substage }
unfolding last_step
place_last d x [] = refl
place_last d x (y ∷ ys) = place_last (record d { stage = x.stage; substage = x.substage }) y ys

-- The row `d'` is `d` moved along the plan `p`: the last step gives the stage and the substage, the
-- plan the flags; the history has grown by an entry for each step, at its end; all else is kept.
pub record IsMoved (d : Deal) (at : String) (p : StageTransitionPlan) (d' : Deal) : Type 0 where
  pub old : Items
  pub had : history d.doc ≡ ok old
  pub logged : Appended at old (steps p) d.doc d'.doc
  pub kept : d' ≡ record d {
    stage = (last p).stage;
    substage = (last p).substage;
    is_terminal = p.final_is_terminal;
    is_won = p.final_is_won;
    doc = d'.doc;
  }

run_plan-ok :
    (d : Deal) (q : StageTransitionPlan) (at : String) (h : Items)
    → history d.doc ≡ ok h
    → (d' : Deal) × (run_plan d (ok q) at ≡ (ok q, d')) × IsMoved d at q d'
unfolding run_plan close_transition
run_plan-ok d q at h e =
    let (n, r, logged) = apply_steps-ok d d.doc (steps q) at h e in
    (
      record (place d (steps q)) {
        is_terminal = q.final_is_terminal;
        is_won = q.final_is_won;
        doc = n;
      },
      rw r,
      record { old = h; had = e; logged = logged; kept = rw (place_last d q.first q.rest) },
    )

run_plan-err :
    (d : Deal) (q : StageTransitionPlan) (at : String) (e : DealError)
    → history d.doc ≡ err e
    → run_plan d (ok q) at ≡ (err e, d)
unfolding run_plan close_transition
run_plan-err d q at e h = rw (apply_steps-err d d.doc q.first q.rest at e h)

run_plan-IsMoved :
    (d : Deal) (r : Result DealError StageTransitionPlan) (at : String) (p : StageTransitionPlan)
    → (run_plan d r at).0 ≡ ok p
    → (r ≡ ok p) × IsMoved d at p (run_plan d r at).1
unfolding run_plan
run_plan-IsMoved d (err e) at p h = cc
run_plan-IsMoved d (ok q) at p h = elim (Result-cases (history d.doc)) [
  | inl (e, no_list) ↦ cc (h, ap (λ x. x.0) (run_plan-err d q at e no_list))
  | inr (old, e) ↦
      let (d', r, moved) = run_plan-ok d q at old e in
      let same_plan : q ≡ p = ok-injective (sym (ap (λ x. x.0) r) ∙ h) in
      (
        ap ok same_plan,
        subst (λ x. IsMoved d at p x) (sym (ap (λ x. x.1) r))
            (subst (λ x. IsMoved d at x d') same_plan moved),
      )
]

-- A call of `apply_transition` that returns has run a plan of the state machine, and has moved the row
-- along it: the history has grown by one entry for each step.
pub apply_transition-IsMoved :
    (d : Deal) (t : Substage) (by : String) (remark : Option String) (at : String)
    (p : StageTransitionPlan)
    → (apply_transition d t by remark at).0 ≡ ok p
    → (transition d.stage d.substage t by remark ≡ ok p)
      × IsMoved d at p (apply_transition d t by remark at).1
unfolding apply_transition
apply_transition-IsMoved d t by remark at p h =
    run_plan-IsMoved d (transition d.stage d.substage t by remark) at p h

run_plan_unchanged :
    (d : Deal) (r : Result DealError StageTransitionPlan) (at : String) (e : DealError)
    → (run_plan d r at).0 ≡ err e
    → (run_plan d r at).1 ≡ d
unfolding run_plan
run_plan_unchanged d (err x) at e h = refl
run_plan_unchanged d (ok q) at e h = elim (Result-cases (history d.doc)) [
  | inl (x, no_list) ↦ ap (λ y. y.1) (run_plan-err d q at x no_list)
  | inr (old, x) ↦ let (d', r, moved) = run_plan-ok d q at old x in cc (h, ap (λ y. y.0) r)
]

-- A call of `apply_transition` that raises leaves the row as it was, whichever step raises.
pub apply_transition_unchanged :
    (d : Deal) (t : Substage) (by : String) (remark : Option String) (at : String) (e : DealError)
    → (apply_transition d t by remark at).0 ≡ err e
    → (apply_transition d t by remark at).1 ≡ d
unfolding apply_transition
apply_transition_unchanged d t by remark at e h =
    run_plan_unchanged d (transition d.stage d.substage t by remark) at e h

-- Along an edge of the table, from a document whose history can be read, `apply_transition` returns.
pub apply_transition_returns :
    (d : Deal) (t : Substage) (by : String) (remark : Option String) (at : String) (old : Items)
    → IsEdge d.substage t
    → history d.doc ≡ ok old
    → (p : StageTransitionPlan) × ((apply_transition d t by remark at).0 ≡ ok p)
unfolding apply_transition
apply_transition_returns d t by remark at old edge had =
    elim (Result-cases (transition d.stage d.substage t by remark)) [
      | inl (e, bad) ↦ cc (ap is_ok bad, transition_accepts d.stage d.substage t by remark, edge)
      | inr (p, good) ↦
          let (d', r, moved) = run_plan-ok d p at old had in (p, rw good (ap (λ x. x.0) r))
    ]
