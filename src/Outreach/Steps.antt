-- ===== src/Outreach/Steps.antt =====
-- `_validate` and `generate_step` of app/services/outreach/step_generator.py. What the language model
-- answers to one attempt is an argument, with `_parse_response` done: parsed is a dict that nothing else is
-- known of. The template follows its schema. `repr` is `str` on a value that is no text.
pub mod Issues
pub mod Sendable
use Prim.Native.String
use Prim.Native.String.{◌++◌ as ◌++s◌}
use nativ.Prelude.{
  ℕ, suc, String, Bool, true, false, not, ◌&&◌, ◌||◌, Option, none, some, List, [], ◌∷◌, ◌++◌,
  Result, ok, err, ◌>>=◌, if◌then◌else◌, ◌=s◌, ltb, any, take, map,
}
use nativ.Slug.{decimal}
use nativ.Text.{lower, strip, is_substring}
use nativ.Json.{Json, Items, Fields, null, num, str, arr, obj, nil, cons, end, field, get, truthy}
use nativ.Outreach.Angles.{text_of, fields_of, value_of}
use nativ.Outreach.AngleFilter.{Candidate}

pub record StepGeneration : Type 0 where
  pub step_number : ℕ
  pub intent : String
  pub subject : String
  pub body : String
  pub angles_used : Fields
  pub personalization_fields_used : List String
  pub reasoning : String
  pub model_used : String
  pub timing_offset_days : ℕ
  pub validation_warnings : List String

-- What an answer can raise: `.strip` of what is no text, and a test whether a set has a list or a dict.
pub data StepError : Type 0 where
  attribute_error type_error : StepError

-- `len(s)`
unfoldable pub text_length : String → ℕ
text_length String.[] = 0
text_length (String.◌∷◌ c s) = suc (text_length s)

-- `(x or "").strip()`
unfoldable pub stripped : Option Json → Result StepError String
stripped none = ok ""
stripped (some (str s)) = ok (strip s)
stripped (some v) = if truthy v then err attribute_error else ok ""

number_or : ℕ → Option Json → ℕ
number_or d (some (num n)) = n
number_or d _ = d

unfoldable pub max_subject_chars : Fields → ℕ
unfolding number_or
max_subject_chars template =
    number_or 60 (get "max_subject_chars" (fields_of (get "guardrails" template)))

unfoldable pub max_body_chars : Fields → ℕ
unfolding number_or
max_body_chars template =
    number_or 600 (get "max_body_chars" (fields_of (get "guardrails" template)))

unfoldable pub length_issues : String → String → ℕ → List String
length_issues what text limit =
    if text =s ""
    then (what ++s "_empty") ∷ []
    else if ltb limit (text_length text)
    then (((what ++s "_too_long:") ++s decimal (text_length text)) ++s ">" ++s decimal limit) ∷ []
    else []

unfoldable pub is_in : String → List String → Bool
is_in x xs = any (λ s. s =s x) xs

-- `parsed.get("angles_used") or {}`, and a key of it if it is a dict
unfoldable pub angle_used : String → Option Json → Option Json
angle_used k (some (obj m)) = get k m
angle_used k _ = none

-- `_BANNED_PHRASES`
abbrev pub banned_phrases : List String
banned_phrases =
    "as an ai language model" ∷ "i hope this email finds you well" ∷ "quick question"
    ∷ "circling back" ∷ "just checking in" ∷ []

unfoldable pub banned_issues : String → List String → List String
banned_issues body [] = []
banned_issues body (p ∷ ps) =
    let rest = banned_issues body ps in
    if is_substring p body then ("banned_phrase:" ++s p) ∷ rest else rest

-- What the model gives for one attempt: an exception, a text with no dict in it, or a dict.
pub data Attempt : Type 0 where
  failed : String → Attempt
  unparseable : Attempt
  answered : Fields → Attempt

pub record Progress : Type 0 where
  pub last_warnings : List String
  pub parsed : Option Fields

unfoldable pub candidate_ids : List Candidate → List String
candidate_ids [] = []
candidate_ids (c ∷ cs) = c.angle.angle_id ∷ candidate_ids cs

module _ (repr : Json → String) where
  -- an angle that is used, and is no candidate
  unfoldable pub angle_issues : String → List String → Option Json → Result StepError (List String)
  angle_issues label candidate_ids none = ok []
  angle_issues label candidate_ids (some (str s)) =
      if s =s "" || is_in s candidate_ids then ok [] else ok ((label ++s s) ∷ [])
  angle_issues label candidate_ids (some (arr xs)) =
      if truthy (arr xs) then err type_error else ok []
  angle_issues label candidate_ids (some (obj m)) = if truthy (obj m) then err type_error else ok []
  angle_issues label candidate_ids (some v) =
      if truthy v then ok ((label ++s repr v) ∷ []) else ok []

  -- `_validate`: the issues, none of which is there when it passes
  unfoldable pub validate : Fields → Fields → List String → Result StepError (List String)
  unfolding length_issues banned_issues stripped angle_issues
  validate parsed template candidate_ids = do
    subject ← stripped (get "subject" parsed)
    body ← stripped (get "body" parsed)
    primary ←
        angle_issues "angle_not_in_candidates:" candidate_ids
          (angle_used "primary" (get "angles_used" parsed))
    supporting ←
        angle_issues "supporting_angle_not_in_candidates:" candidate_ids
          (angle_used "supporting" (get "angles_used" parsed))
    ok (
        length_issues "subject" subject (max_subject_chars template)
        ++ (length_issues "body" body (max_body_chars template)
            ++ (primary ++ (supporting ++ banned_issues (lower body) banned_phrases))))

  -- `break`, or the attempts that are left
  or_again : Fields → List String → Result StepError Progress → Result StepError Progress
  or_again f [] again = ok (record { last_warnings = []; parsed = some f })
  or_again f (i ∷ is) again = again

  -- the loop over the attempts, which ends at an answer with no issues
  unfoldable pub attempt :
      Fields → List String → List Attempt → Progress → Result StepError Progress
  unfolding or_again
  attempt template candidate_ids [] p = ok p
  attempt template candidate_ids (failed why ∷ rest) p =
      attempt template candidate_ids rest (record p { last_warnings = ("llm_error:" ++s why) ∷ [] })
  attempt template candidate_ids (unparseable ∷ rest) p =
      attempt template candidate_ids rest
        (record { last_warnings = "unparseable_json" ∷ []; parsed = none })
  attempt template candidate_ids (answered f ∷ rest) p =
      validate f template candidate_ids >>= λ issues.
      or_again f issues
        (attempt template candidate_ids rest (record { last_warnings = issues; parsed = some f }))

  -- `str(x or "")`
  pub text_or_empty : Option Json → String
  text_or_empty none = ""
  text_or_empty (some (str t)) = t
  text_or_empty (some v) = if truthy v then repr v else ""

  texts_or_empty : Items → List String
  texts_or_empty nil = []
  texts_or_empty (cons (str t) xs) = t ∷ texts_or_empty xs
  texts_or_empty (cons v xs) = repr v ∷ texts_or_empty xs

  personalization_of : Option Json → List String
  unfolding texts_or_empty
  personalization_of (some (arr xs)) = texts_or_empty xs
  personalization_of _ = []

  or_failure : List String → List String
  or_failure [] = "llm_failure" ∷ []
  or_failure (w ∷ ws) = w ∷ ws

  step_of : Fields → String → List String → Option Fields → StepGeneration
  unfolding text_or_empty personalization_of or_failure number_or
  step_of step model warnings none = record {
    step_number = number_or 0 (get "step_number" step);
    intent = text_of (get "intent" step);
    subject = "";
    body = "";
    angles_used = end;
    personalization_fields_used = [];
    reasoning = "";
    model_used = model;
    timing_offset_days = number_or 0 (get "timing_offset_days" step);
    validation_warnings = or_failure warnings;
  }
  step_of step model warnings (some f) = record {
    step_number = number_or 0 (get "step_number" step);
    intent = text_of (get "intent" step);
    subject = text_or_empty (get "subject" f);
    body = text_or_empty (get "body" f);
    angles_used =
        field "primary" (value_of (angle_used "primary" (get "angles_used" f)))
          (field "supporting" (value_of (angle_used "supporting" (get "angles_used" f))) end);
    personalization_fields_used = personalization_of (get "personalization_fields_used" f);
    reasoning = text_or_empty (get "reasoning" f);
    model_used = model;
    timing_offset_days = number_or 0 (get "timing_offset_days" step);
    validation_warnings = warnings;
  }

  model_for : String → Fields → String
  model_for default_model step =
      let m = strip (text_of (get "ai_model_override" step)) in if m =s "" then default_model else m

  -- `generate_step`; `answers` is what the model would give, attempt by attempt
  unfoldable pub generate_step :
      String → ℕ → Fields → Fields → List Candidate → List Attempt → Result StepError StepGeneration
  unfolding model_for step_of candidate_ids
  generate_step default_model max_retries template step candidate_angles answers = do
    p ←
        attempt template (candidate_ids candidate_angles) (take max_retries answers)
          (record { last_warnings = []; parsed = none })
    ok (step_of step (model_for default_model step) p.last_warnings p.parsed)
