-- ===== src/Outreach/Steps/Issues.antt =====
-- An answer in which `_validate` finds no issue.
use nativ.Prelude.{
  ℕ, ◌≤◌, ◌≡◌, refl, sym, ap, ◌∙◌, String, Bool, true, false, ◌||◌, Option, none, some, List, [],
  ◌∷◌, ◌++◌, All, arith, Result, ok, err, bind_returns, ok-injective, ◌=s◌, eq_iff, if◌then◌else◌,
  Bool-cases, inl, inr,
}
use nativ.Text.{lower, strip, is_substring}
use nativ.Json.{Json, Fields, null, bool, num, str, arr, obj, nil, cons, get, truthy}
use nativ.Outreach.Angles.{value_of}
use nativ.Outreach.Steps.{
  StepError, text_length, stripped, max_subject_chars, max_body_chars, length_issues, is_in,
  angle_used, banned_phrases, banned_issues, angle_issues, validate, text_or_empty,
}

pub append-empty : (xs ys : List String) → xs ++ ys ≡ [] → (xs ≡ []) × (ys ≡ [])
append-empty [] ys h = (refl, h)
append-empty (x ∷ xs) ys h = cc

length_issues-none :
    (what text : String) (limit : ℕ)
    → length_issues what text limit ≡ []
    → ((text =s "") ≡ false) × (text_length text ≤ limit)
unfolding length_issues
length_issues-none what text limit h = ground (arith, h)

banned_issues-none :
    (body : String) (ps : List String)
    → banned_issues body ps ≡ []
    → All (λ p. is_substring p body ≡ false) ps
unfolding banned_issues
banned_issues-none body [] h = tt
banned_issues-none body (p ∷ ps) h = elim (Bool-cases (is_substring p body)) [
  | inl there ↦ cc (rw there at h)
  | inr absent ↦ (absent, banned_issues-none body ps (rw absent at h))
]

-- An angle that is used is one of the candidates.
pub IsKnown : List String → Json → Type 0
IsKnown ids (str s) = (s =s "" || is_in s ids) ≡ true
IsKnown ids v = truthy v ≡ false

falsy_of :
    (b : Bool) (x : String)
    → ◌≡◌ {A = Result StepError (List String)} (if b then ok (x ∷ []) else ok []) (ok [])
    → b ≡ false
falsy_of true x h = cc (ok-injective h)
falsy_of false x h = refl

no_error_of :
    (b : Bool) (e : StepError)
    → ◌≡◌ {A = Result StepError (List String)} (if b then err e else ok []) (ok [])
    → b ≡ false
no_error_of true e h = cc
no_error_of false e h = refl

blank_of :
    (b : Bool) (e : StepError) (t : String) → (if b then err e else ok "") ≡ ok t → (t =s "") ≡ true
blank_of true e t h = cc
blank_of false e t h = (eq_iff t "").1 (sym (ok-injective h))

module _ (repr : Json → String) where
  angle_issues-none :
      (label : String) (ids : List String) (o : Option Json)
      → angle_issues repr label ids o ≡ ok []
      → IsKnown ids (value_of o)
  unfolding angle_issues IsKnown value_of truthy
  angle_issues-none label ids none h = refl
  angle_issues-none label ids (some (str s)) h = elim (Bool-cases (s =s "" || is_in s ids)) [
    | inl known ↦ known
    | inr unknown ↦ cc (ok-injective (rw unknown at h))
  ]
  angle_issues-none label ids (some (arr nil)) h = refl
  angle_issues-none label ids (some (arr (cons x xs))) h = cc (h)
  angle_issues-none label ids (some (obj m)) h = no_error_of (truthy (obj m)) _ h
  angle_issues-none label ids (some null) h = refl
  angle_issues-none label ids (some (bool b)) h = falsy_of b _ h
  angle_issues-none label ids (some (num n)) h = falsy_of (truthy (num n)) _ h

  pub stripped-text :
      (o : Option Json) (t : String)
      → stripped o ≡ ok t
      → (t =s "") ≡ false
      → strip (text_or_empty repr o) ≡ t
  unfolding stripped text_or_empty strip
  stripped-text none t h full = ok-injective h
  stripped-text (some (str s)) t h full = ok-injective h
  stripped-text (some v) t h full = cc (blank_of (truthy v) _ t h, full)

  -- What an answer is that `_validate` finds no issue in.
  pub record IsValid (f template : Fields) (ids : List String) : Type 0 where
    pub subject : String
    pub body : String
    pub subject_of : stripped (get "subject" f) ≡ ok subject
    pub body_of : stripped (get "body" f) ≡ ok body
    pub subject_fine :
        ((subject =s "") ≡ false) × (text_length subject ≤ max_subject_chars template)
    pub body_fine : ((body =s "") ≡ false) × (text_length body ≤ max_body_chars template)
    pub primary_known : IsKnown ids (value_of (angle_used "primary" (get "angles_used" f)))
    pub supporting_known : IsKnown ids (value_of (angle_used "supporting" (get "angles_used" f)))
    pub no_banned : All (λ p. is_substring p (lower body) ≡ false) banned_phrases

  IsValid-parts :
      (f template : Fields) (ids : List String) (subject body : String)
      (primary supporting : List String)
      → length_issues "subject" subject (max_subject_chars template)
          ++ (length_issues "body" body (max_body_chars template)
              ++ (primary ++ (supporting ++ banned_issues (lower body) banned_phrases)))
        ≡ []
      → stripped (get "subject" f) ≡ ok subject
      → stripped (get "body" f) ≡ ok body
      → angle_issues repr "angle_not_in_candidates:" ids
          (angle_used "primary" (get "angles_used" f))
        ≡ ok primary
      → angle_issues repr "supporting_angle_not_in_candidates:" ids
          (angle_used "supporting" (get "angles_used" f))
        ≡ ok supporting
      → IsValid f template ids
  IsValid-parts f template ids subject body primary supporting h s b p q =
      let (h1, r1) =
        append-empty (length_issues "subject" subject (max_subject_chars template)) _ h in
      let (h2, r2) = append-empty (length_issues "body" body (max_body_chars template)) _ r1 in
      let (h3, r3) = append-empty primary _ r2 in
      let (h4, h5) = append-empty supporting _ r3 in
      record {
        subject = subject;
        body = body;
        subject_of = s;
        body_of = b;
        subject_fine = length_issues-none "subject" subject (max_subject_chars template) h1;
        body_fine = length_issues-none "body" body (max_body_chars template) h2;
        primary_known = angle_issues-none _ ids _ (p ∙ ap ok h3);
        supporting_known = angle_issues-none _ ids _ (q ∙ ap ok h4);
        no_banned = banned_issues-none (lower body) banned_phrases h5;
      }

  pub validate-IsValid :
      (f template : Fields) (ids : List String)
      → validate repr f template ids ≡ ok []
      → IsValid f template ids
  unfolding validate
  validate-IsValid f template ids h =
      let (subject, h1, s1) = bind_returns _ (stripped (get "subject" f)) h in
      let (body, h2, s2) = bind_returns _ (stripped (get "body" f)) h1 in
      let (primary, h3, s3) =
        bind_returns _
          (angle_issues repr "angle_not_in_candidates:" ids
            (angle_used "primary" (get "angles_used" f)))
          h2 in
      let (supporting, h4, s4) =
        bind_returns _
          (angle_issues repr "supporting_angle_not_in_candidates:" ids
            (angle_used "supporting" (get "angles_used" f)))
          h3 in
      IsValid-parts f template ids subject body primary supporting (ok-injective h4) s1 s2 s3 s4
