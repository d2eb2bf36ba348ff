-- ===== src/Outreach/Steps/Sendable.antt =====
-- A step without warnings can be sent.
use Prim.Native.String.{◌++◌ as ◌++s◌}
use nativ.Prelude.{
  ℕ, ◌≤◌, ◌≡◌, refl, sym, ap, subst, ◌∙◌, String, false, ◌⊎◌, Option, none, some, List, [], ◌∷◌,
  All, Result, ok, bind_returns, ok-injective, ◌=s◌, inl, inr, take,
}
use nativ.Prelude.Positions.{some-injective}
use nativ.Text.{lower, strip, is_substring}
use nativ.Json.{Json, Fields, get}
use nativ.Outreach.Angles.{value_of}
use nativ.Outreach.AngleFilter.{Candidate}
use nativ.Outreach.Steps.{
  StepGeneration, StepError, text_length, max_subject_chars, max_body_chars, angle_used,
  banned_phrases, validate, Attempt, failed, unparseable, answered, Progress, attempt, or_again,
  candidate_ids, step_of, or_failure, model_for, generate_step,
}
use nativ.Outreach.Steps.Issues.{IsKnown, stripped-text, IsValid, validate-IsValid}

module _ (repr : Json → String) where
  -- A loop that ends without warnings has ended at a valid answer, or has not begun.
  abbrev IsFine : Fields → List String → Progress → Type 0
  IsFine template ids p =
      p.last_warnings ≡ []
      → (p.parsed ≡ none) ⊎ ((f : Fields) × ((p.parsed ≡ some f) × IsValid repr f template ids))

  warned : {x : String} {xs : List String} {P : Type 0} → ◌≡◌ {A = List String} (x ∷ xs) [] → P
  warned h = cc (h)

  IsFine-or_again :
      (template : Fields) (ids : List String) (f : Fields) (issues : List String)
      (again : Result StepError Progress) (q : Progress)
      → or_again repr f issues again ≡ ok q
      → validate repr f template ids ≡ ok issues
      → (again ≡ ok q → IsFine template ids q)
      → IsFine template ids q
  unfolding or_again
  IsFine-or_again template ids f [] again q next valid later =
      subst (IsFine template ids) (ok-injective next)
        λ e. inr (f, (refl, validate-IsValid repr f template ids valid))
  IsFine-or_again template ids f (i ∷ is) again q next valid later = later next

  IsFine-attempt :
      (template : Fields) (ids : List String) (answers : List Attempt) (p q : Progress)
      → IsFine template ids p
      → attempt repr template ids answers p ≡ ok q
      → IsFine template ids q
  unfolding attempt
  IsFine-attempt template ids [] p q fine h = subst (IsFine template ids) (ok-injective h) fine
  IsFine-attempt template ids (failed why ∷ rest) p q fine h =
      IsFine-attempt template ids rest (record p { last_warnings = ("llm_error:" ++s why) ∷ [] }) q
        warned h
  IsFine-attempt template ids (unparseable ∷ rest) p q fine h =
      IsFine-attempt template ids rest
        (record { last_warnings = "unparseable_json" ∷ []; parsed = none }) q warned h
  IsFine-attempt template ids (answered f ∷ rest) p q fine h =
      let (issues, next, valid) = bind_returns _ (validate repr f template ids) h in
      IsFine-or_again template ids f issues _ q next valid (
        IsFine-attempt template ids rest (record { last_warnings = issues; parsed = some f }) q
          λ e. inr (f, (refl, validate-IsValid repr f template ids (valid ∙ ap ok e))))

  -- What can be sent: a subject and a body that are there and no longer than the template allows, the
  -- angles it names among the candidates, and no banned phrase.
  pub record IsSendable (template : Fields) (ids : List String) (s : StepGeneration) : Type 0 where
    subject_fine :
        ((strip s.subject =s "") ≡ false)
        × (text_length (strip s.subject) ≤ max_subject_chars template)
    body_fine :
        ((strip s.body =s "") ≡ false) × (text_length (strip s.body) ≤ max_body_chars template)
    primary_known : IsKnown ids (value_of (get "primary" s.angles_used))
    supporting_known : IsKnown ids (value_of (get "supporting" s.angles_used))
    no_banned : All (λ p. is_substring p (lower (strip s.body)) ≡ false) banned_phrases

  or_failure-some : (ws : List String) {P : Type 0} → or_failure repr ws ≡ [] → P
  unfolding or_failure
  or_failure-some [] h = cc (h)
  or_failure-some (w ∷ ws) h = cc (h)

  step_of-IsValid :
      (template step f : Fields) (model : String) (ids ws : List String)
      → IsValid repr f template ids
      → IsSendable template ids (step_of repr step model ws (some f))
  unfolding step_of get angle_used value_of
  step_of-IsValid template step f model ids ws valid =
      let subject =
        stripped-text repr (get "subject" f) valid.subject valid.subject_of valid.subject_fine.0 in
      let body = stripped-text repr (get "body" f) valid.body valid.body_of valid.body_fine.0 in
      record {
        subject_fine =
            subst (λ t. ((t =s "") ≡ false) × (text_length t ≤ max_subject_chars template))
              (sym subject) valid.subject_fine;
        body_fine =
            subst (λ t. ((t =s "") ≡ false) × (text_length t ≤ max_body_chars template)) (sym body)
              valid.body_fine;
        primary_known = valid.primary_known;
        supporting_known = valid.supporting_known;
        no_banned =
            subst (λ t. All (λ p. is_substring p (lower t) ≡ false) banned_phrases) (sym body)
              valid.no_banned;
      }

  step_of-IsSendable :
      (template step : Fields) (model : String) (ids ws : List String) (parsed : Option Fields)
      → IsFine template ids (record { last_warnings = ws; parsed = parsed })
      → (step_of repr step model ws parsed).validation_warnings ≡ []
      → IsSendable template ids (step_of repr step model ws parsed)
  unfolding step_of
  step_of-IsSendable template step model ids ws none fine h = or_failure-some ws h
  step_of-IsSendable template step model ids ws (some f) fine h = elim (fine h) [
    | inl nothing ↦ cc
    | inr (g, (same, valid)) ↦
        step_of-IsValid template step f model ids ws
          (subst (λ x. IsValid repr x template ids) (sym (some-injective same)) valid)
  ]

  pub generate_step-IsSendable :
      (default_model : String) (max_retries : ℕ) (template step : Fields)
      (candidates : List Candidate) (answers : List Attempt) (s : StepGeneration)
      → generate_step repr default_model max_retries template step candidates answers ≡ ok s
      → s.validation_warnings ≡ []
      → IsSendable template (candidate_ids candidates) s
  unfolding generate_step
  generate_step-IsSendable default_model max_retries template step candidates answers s h
        none_left =
      let (p, done, looped) =
        bind_returns _
          (attempt repr template (candidate_ids candidates) (take max_retries answers)
            (record { last_warnings = []; parsed = none }))
          h in
      let fine =
        IsFine-attempt template (candidate_ids candidates) (take max_retries answers) _ p
          (λ e. inl refl) looped in
      subst (IsSendable template (candidate_ids candidates)) (ok-injective done) (
        step_of-IsSendable template step (model_for repr default_model step)
          (candidate_ids candidates) p.last_warnings p.parsed fine
          (ap StepGeneration.validation_warnings (ok-injective done) ∙ none_left))
