-- ===== src/Outreach/Replies/Repeated.antt =====
-- A reply that is delivered again.
use nativ.Prelude.{String, ◌≡◌, refl, sym, ap, subst, ◌∙◌, some, List, [], ◌∷◌, ◌++◌, ok}
use nativ.Deal.Row.{Deal}
use nativ.Outreach.Rows.{Enrollment}
use nativ.Outreach.Enrollments.{find_enrollment}
use nativ.Outreach.Enrollments.Kills.{row_key}
use nativ.Outreach.Replies.{interested, OutcomeClassification, World, deal_created, handle_reply}
use nativ.Outreach.Replies.Reads.{find_enrollment-key}
use nativ.Outreach.Replies.Effects.{handle_reply_interested}

append-two : (ds : List Deal) (a b : Deal) → (ds ++ a ∷ []) ++ b ∷ [] ≡ ds ++ a ∷ b ∷ []
append-two [] a b = refl
append-two (d ∷ ds) a b = ap (λ l. d ∷ l) (append-two ds a b)

module _ (agency at occurred_at : String) (c : OutcomeClassification) (e : Enrollment)
    (w : World) where
  -- An interested reply that is handled twice, its enrollment being held, adds two deals, and both name
  -- that enrollment as their origin.
  handle_reply_repeated :
      (first second : String)
      → find_enrollment agency e.enrollment_id w.enrollments ≡ some e
      → c.outcome ≡ interested
      → (w' w'' : World) × (a b : Deal) × (handle_reply agency first at occurred_at e.enrollment_id
            c w
          ≡ ok (w', deal_created first))
        × (handle_reply agency second at occurred_at e.enrollment_id c w'
            ≡ ok (w'', deal_created second))
        × (w''.deals ≡ w.deals ++ a ∷ b ∷ [])
        × (a.originating_enrollment_id ≡ some e.enrollment_id)
        × (b.originating_enrollment_id ≡ some e.enrollment_id)
  handle_reply_repeated first second held h =
      let (w', done, one) = handle_reply_interested agency first at occurred_at c e w held h in
      let key : one.enrollment.enrollment_id ≡ e.enrollment_id =
        row_key agency e.enrollment_id one.enrollment
          (find_enrollment-key agency e.enrollment_id w'.enrollments one.enrollment one.found) in
      let (w'', again, two) =
        handle_reply_interested agency second at occurred_at c one.enrollment w'
          (subst (λ k. find_enrollment agency k w'.enrollments ≡ some one.enrollment) (sym key)
            one.found)
          h in
      (
        w',
        w'',
        one.deal,
        two.deal,
        done,
        subst
            (λ k. handle_reply agency second at occurred_at k c w' ≡ ok (w'', deal_created second))
            key again,
        two.added ∙ ap (λ l. l ++ two.deal ∷ []) one.added ∙ append-two w.deals one.deal two.deal,
        one.origin,
        two.origin ∙ ap some key,
      )
