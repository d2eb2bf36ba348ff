-- ===== src/Outreach/AngleFilter/Best.antt =====
-- The candidates that the filter returns are the best ones.
use nativ.Prelude.{
  ℕ, zero, suc, ◌≤◌, ◌+◌, ◌≡◌, refl, sym, ap, ◌∙◌, String, Bool, true, List, [], ◌∷◌, ◌++◌, All,
  arith, count, take, length, leb→le, Bool-cases, inl, inr, ◌⊎◌, map,
}
use nativ.Prelude.Counting.{count-append}
use nativ.Prelude.Sorting.{sort, IsSorted, count-sort, sort-IsSorted}
use nativ.Json.{Fields}
use nativ.Outreach.AngleFilter.{PitchAngle, Candidate, key, candidates, is_better, filter_angles}

-- What is left of a list behind its first items.
abbrev pub left_after : ℕ → List Candidate → List Candidate
left_after zero xs = xs
left_after (suc n) [] = []
left_after (suc n) (x ∷ xs) = left_after n xs

take-append : (n : ℕ) (xs : List Candidate) → take n xs ++ left_after n xs ≡ xs
take-append zero xs = refl
take-append (suc n) [] = refl
take-append (suc n) (x ∷ xs) = ap (λ ys. x ∷ ys) (take-append n xs)

length-take : (n : ℕ) (xs : List Candidate) → length (take n xs) ≤ n
length-take zero xs = omega arith
length-take (suc n) [] = omega arith
length-take (suc n) (x ∷ xs) = omega (arith, length-take n xs)

-- A candidate's score is at least that of each of the others.
abbrev pub Beats : Candidate → List Candidate → Type 0
Beats c others = All (λ (d : Candidate). d.score ≤ c.score) others

Beats-left_after :
    (n : ℕ) (c : Candidate) (xs : List Candidate) → Beats c xs → Beats c (left_after n xs)
Beats-left_after zero c xs b = b
Beats-left_after (suc n) c [] b = tt
Beats-left_after (suc n) c (x ∷ xs) b = Beats-left_after n c xs b.1

Beats-take : (n : ℕ) (c : Candidate) (xs : List Candidate) → Beats c xs → Beats c (take n xs)
Beats-take zero c xs b = tt
Beats-take (suc n) c [] b = tt
Beats-take (suc n) c (x ∷ xs) b = (b.0, Beats-take n c xs b.1)

-- In the order of the scores, the highest first.
pub Descends : List Candidate → Type 0
Descends [] = Unit
Descends (c ∷ cs) = Beats c cs × Descends cs

Beats-sorted :
    (c : Candidate) (xs : List Candidate) → All (λ d. is_better c d ≡ true) xs → Beats c xs
unfolding is_better
Beats-sorted c [] a = tt
Beats-sorted c (d ∷ ds) a = (leb→le d.score c.score a.0, Beats-sorted c ds a.1)

Descends-sorted : (xs : List Candidate) → IsSorted is_better xs → Descends xs
unfolding Descends
Descends-sorted [] s = tt
Descends-sorted (x ∷ xs) s = (Beats-sorted x xs s.0, Descends-sorted xs s.1)

Descends-take : (n : ℕ) (xs : List Candidate) → Descends xs → Descends (take n xs)
unfolding Descends
Descends-take zero xs d = tt
Descends-take (suc n) [] d = tt
Descends-take (suc n) (x ∷ xs) d = (Beats-take n x xs d.0, Descends-take n xs d.1)

All-Beats :
    (n : ℕ) (xs : List Candidate) → Descends xs → All (λ c. Beats c (left_after n xs)) (take n xs)
unfolding Descends
All-Beats zero xs d = tt
All-Beats (suc n) [] d = tt
All-Beats (suc n) (x ∷ xs) d = (Beats-left_after n x xs d.0, All-Beats n xs d.1)

is_better_total : (x y : Candidate) → (is_better x y ≡ true) ⊎ (is_better y x ≡ true)
unfolding is_better
is_better_total x y = elim (Bool-cases (is_better x y)) [
  | inl first ↦ inl first
  | inr later ↦ inr (ground (arith, later))
]

is_better_trans :
    (x y z : Candidate) → is_better x y ≡ true → is_better y z ≡ true → is_better x z ≡ true
unfolding is_better
is_better_trans x y z h k = ground arith

-- A selection from the candidates of a library: what is returned and what is passed over are the
-- candidates, and each that is returned scores at least as much as each that is passed over.
pub record IsBest (limit : ℕ) (all chosen passed : List Candidate) : Type 0 where
  pub within : length chosen ≤ limit
  pub descends : Descends chosen
  pub beats : All (λ c. Beats c passed) chosen
  pub complete : (q : Candidate → Bool) → count q chosen + count q passed ≡ count q all
  pub full : (passed ≡ []) ⊎ (length chosen ≡ limit)

full-take : (n : ℕ) (xs : List Candidate) → (left_after n xs ≡ []) ⊎ (length (take n xs) ≡ n)
full-take zero xs = inr refl
full-take (suc n) [] = inl refl
full-take (suc n) (x ∷ xs) = elim (full-take n xs) [
  | inl nothing ↦ inl nothing
  | inr as_many ↦ inr (omega (arith, as_many))
]

-- The filter returns the best of the candidates: no more than the limit, the highest score first, and none
-- that is passed over scores more than one that is returned; some are passed over only if the limit is met.
pub filter_angles-IsBest :
    (talent brand : Fields) (step_number : ℕ) (role : String) (preferred excluded : List String)
    (limit : ℕ) (angles : List PitchAngle)
    → (passed : List Candidate) × IsBest limit
        (candidates talent brand step_number
          (key role)
          (map key preferred)
          (map key excluded)
          angles)
        (filter_angles talent brand step_number role preferred excluded limit angles)
        passed
unfolding filter_angles
filter_angles-IsBest talent brand step_number role preferred excluded limit angles =
    let found =
      candidates talent brand step_number (key role) (map key preferred) (map key excluded)
        angles in
    let ordered = sort is_better found in
    let down =
      Descends-sorted ordered (sort-IsSorted is_better is_better_total is_better_trans found) in
    (
      left_after limit ordered,
      record {
        within = length-take limit ordered;
        descends = Descends-take limit ordered down;
        beats = All-Beats limit ordered down;
        complete = λ q.
            sym (count-append q (take limit ordered) (left_after limit ordered))
            ∙ ap (count q) (take-append limit ordered)
            ∙ count-sort is_better q found;
        full = full-take limit ordered;
      },
    )
