-- ===== src/Outreach/AngleFilter/Unmet.antt =====
-- Merge fields that no trigger gives.
use nativ.Prelude.{
  ℕ, String, ◌≡◌, refl, true, Option, none, some, List, [], ◌∷◌, All, arith, ◌=s◌, Bool-cases, inl,
  inr, eq_iff, map, take, zero, suc,
}
use nativ.Prelude.Sorting.{sort}
use nativ.Json.{Items, Fields, str, nil, cons, get}
use nativ.Outreach.Angles.{items_of, fields_of}
use nativ.Outreach.Angles.Given.{Nameless, Nameless-evaluate_trigger}
use nativ.Outreach.AngleFilter.{
  PitchAngle, Candidate, key, has_text, is_missing, lacks_any, trigger_of, applies, candidate_with,
  fired, candidate_of, with_candidate, candidates, filter_angles,
}

lacks_any-has_text :
    (f : String) (xs : Items) (m : Fields)
    → has_text f xs ≡ true
    → get f m ≡ none
    → lacks_any xs m ≡ true
unfolding lacks_any has_text is_missing
lacks_any-has_text f nil m h out = cc (h)
lacks_any-has_text f (cons (str g) xs) m h out = elim (Bool-cases (g =s f)) [
  | inl same ↦ rw ((eq_iff g f).0 same, out) refl
  | inr other ↦ ground (arith, other, h, lacks_any-has_text f xs m, out)
]
lacks_any-has_text f (cons _ xs) m h out = lacks_any-has_text f xs m h out

-- An angle that requires the talent's name.
abbrev pub NeedsName : PitchAngle → Type 0
NeedsName a = has_text "talent_name" (items_of (get "merge_fields_required" a.doc)) ≡ true

module _ (talent brand : Fields) (step_number : ℕ) (role : String)
    (preferred excluded : List String) where
  candidate_with-none :
      (a : PitchAngle) (o : Option Fields)
      → NeedsName a
      → Nameless o
      → candidate_with talent brand step_number role preferred excluded a o ≡ none
  unfolding candidate_with Nameless
  candidate_with-none a none needs gone = refl
  candidate_with-none a (some m) needs gone =
      rw
        (lacks_any-has_text "talent_name" (items_of (get "merge_fields_required" a.doc)) m needs
          gone)
        refl

  Nameless-fired :
      (o : Option String) → Nameless (fired talent brand step_number role preferred excluded o)
  unfolding fired Nameless
  Nameless-fired none = tt
  Nameless-fired (some t) = Nameless-evaluate_trigger talent brand t

  candidate_of-none :
      (a : PitchAngle)
      → NeedsName a
      → candidate_of talent brand step_number role preferred excluded a ≡ none
  unfolding candidate_of
  candidate_of-none a needs =
      let o =
        fired talent brand step_number role preferred excluded
          (trigger_of (get "type" (fields_of (get "trigger" a.doc)))) in
      elim (Bool-cases (applies talent brand step_number role preferred excluded a)) [
        | inl fits ↦ rw fits (candidate_with-none a o needs (Nameless-fired _))
        | inr out ↦ rw out refl
      ]

  candidates-none :
      (angles : List PitchAngle)
      → All NeedsName angles
      → candidates talent brand step_number role preferred excluded angles ≡ []
  unfolding candidates with_candidate
  candidates-none [] needs = refl
  candidates-none (a ∷ angles) needs =
      rw (candidate_of-none a needs.0, candidates-none angles needs.1) refl

take-nil : (n : ℕ) → ◌≡◌ {A = List Candidate} (take n []) []
take-nil zero = refl
take-nil (suc n) = refl

-- Where every angle of the library requires the merge field `talent_name`, no angle is ever a candidate: no
-- trigger gives that field.
pub filter_angles_unmet :
    (talent brand : Fields) (step_number : ℕ) (role : String) (preferred excluded : List String)
    (limit : ℕ) (angles : List PitchAngle)
    → All NeedsName angles
    → filter_angles talent brand step_number role preferred excluded limit angles ≡ []
unfolding filter_angles sort
filter_angles_unmet talent brand step_number role preferred excluded limit angles needs =
    rw
      (candidates-none talent brand step_number (key role) (map key preferred) (map key excluded)
        angles needs)
      (take-nil limit)
