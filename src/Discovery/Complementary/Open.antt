-- ===== src/Discovery/Complementary/Open.antt =====
-- What the search surfaces is open: the policy filter's exclusivities do not block it.
use nativ.Prelude.{
  ℕ, ◌≡◌, refl, sym, subst, ap, String, Bool, true, false, not, Option, none, some, List, [], ◌∷◌,
  arith, if◌then◌else◌, ◌=s◌, keep, any, All, eq_iff, Bool-cases, inl, inr,
}
use nativ.Json.{Json, Items, Fields, str, obj, nil, cons, get}
use nativ.Discovery.Policy.{
  is_exclusivity_active, items_or_empty, is_in, with_industry, active_industries,
  active_exclusivity_industries,
}
use nativ.Discovery.Complementary.{
  CandidateSource, slug_of, with_adjacent, surveyed, adjacent_ids, industry_in, with_source,
  surface, next_source, sources_of, searched, run_complementary,
}

-- Every brand has a text under `name`.
unfoldable pub AllNamed : Items → Type 0
AllNamed nil = Unit
AllNamed (cons (obj entry) xs) = ((n : String) × (get "name" entry ≡ some (str n))) × AllNamed xs
AllNamed (cons _ xs) = AllNamed xs

-- The search returns, with candidates whose industries are among some.
abbrev pub Surfaced : (String → Type 0) → Option (List CandidateSource) → Type 0
Surfaced P o =
    (out : List CandidateSource) × ((o ≡ some out)
      × All (λ (c : CandidateSource). P c.industry_id) out)

module _ (P : String → Type 0) where
  Surfaced-with_source :
      (c : CandidateSource) (o : Option (List CandidateSource))
      → P c.industry_id
      → Surfaced P o
      → Surfaced P (with_source c o)
  unfolding with_source
  Surfaced-with_source c o p (out, (same, inside)) =
      (c ∷ out, (ap (with_source c) same, (p, inside)))

  Surfaced-if :
      (b : Bool) (x y : Option (List CandidateSource))
      → Surfaced P x
      → Surfaced P y
      → Surfaced P (if b then x else y)
  Surfaced-if true x y hx hy = hx
  Surfaced-if false x y hx hy = hy

  Surfaced-next_source :
      (o : Option String) (seen : List String) (rest : List String → Option (List CandidateSource))
      (name : Option Json)
      → ((i : String) → o ≡ some i → P i)
      → ((s : List String) → Surfaced P (rest s))
      → ((n : String) × (name ≡ some (str n)))
      → Surfaced P (next_source o seen rest name)
  unfolding next_source surface
  Surfaced-next_source none seen rest name inside later named = later seen
  Surfaced-next_source (some i) seen rest name inside later (n, named) =
      subst (λ x. Surfaced P (surface i seen rest x)) (sym named)
        (Surfaced-if (is_in (slug_of n) seen) (rest seen)
          (with_source (record { brand_id = slug_of n; brand_name = n; industry_id = i })
            (rest (slug_of n ∷ seen)))
          (later seen)
          (Surfaced-with_source (record { brand_id = slug_of n; brand_name = n; industry_id = i })
            (rest (slug_of n ∷ seen)) (inside i refl) (later (slug_of n ∷ seen))))

industry_in-is_in :
    (adjacent : List String) (o : Option Json) (i : String)
    → industry_in adjacent o ≡ some i
    → is_in i adjacent ≡ true
unfolding industry_in
industry_in-is_in adjacent (some (str j)) i h = elim (Bool-cases (is_in j adjacent)) [
  | inl inside ↦ ground (arith, inside, h)
  | inr outside ↦ ground (arith, outside, h)
]
industry_in-is_in adjacent _ i h = cc (h)

sources_of-Surfaced :
    (P : String → Type 0) (adjacent : List String) (xs : Items) (seen : List String)
    → ((i : String) → is_in i adjacent ≡ true → P i)
    → AllNamed xs
    → Surfaced P (sources_of adjacent xs seen)
unfolding sources_of AllNamed
sources_of-Surfaced P adjacent nil seen inside named = ([], (refl, tt))
sources_of-Surfaced P adjacent (cons (obj entry) xs) seen inside (named, others) =
    Surfaced-next_source P (industry_in adjacent (get "industry_id" entry)) seen
      (sources_of adjacent xs) (get "name" entry)
      (λ i h. inside i (industry_in-is_in adjacent (get "industry_id" entry) i h))
      (λ s. sources_of-Surfaced P adjacent xs s inside others) named
sources_of-Surfaced P adjacent (cons _ xs) seen inside named =
    sources_of-Surfaced P adjacent xs seen inside named

with_adjacent-with_industry :
    (from_iso : String → Option ℕ) (today : ℕ) (industries : Fields) (o : Option Json)
    (sets : List String × List String) (ids : List String)
    → sets.0 ≡ ids
    → (with_adjacent from_iso today industries o sets).0 ≡ with_industry o ids
unfolding with_adjacent with_industry
with_adjacent-with_industry from_iso today industries none sets ids h = h
with_adjacent-with_industry from_iso today industries (some (str i)) sets ids h = ap (λ s. i ∷ s) h
with_adjacent-with_industry from_iso today industries (some _) sets ids h = h

-- The loop's own set of exclusive industries is the policy filter's.
surveyed-active_industries :
    (from_iso : String → Option ℕ) (today : ℕ) (industries : Fields) (xs : Items)
    → (surveyed from_iso today industries xs).0 ≡ active_industries from_iso today xs
unfolding surveyed active_industries
surveyed-active_industries from_iso today industries nil = refl
surveyed-active_industries from_iso today industries (cons (obj entry) xs) =
    elim (Bool-cases (is_exclusivity_active from_iso entry today)) [
      | inl still ↦ rw still (
          with_adjacent-with_industry from_iso today industries (get "industry_id" entry)
            (surveyed from_iso today industries xs) (active_industries from_iso today xs)
            (surveyed-active_industries from_iso today industries xs))
      | inr over ↦ rw over (surveyed-active_industries from_iso today industries xs)
    ]
surveyed-active_industries from_iso today industries (cons _ xs) =
    surveyed-active_industries from_iso today industries xs

-- What is left of a set is not in the one that was taken from it.
is_in-keep :
    (i : String) (out xs : List String)
    → is_in i (keep (λ s. not (is_in s out)) xs) ≡ true
    → is_in i out ≡ false
unfolding is_in keep any
is_in-keep i out [] h = cc (h)
is_in-keep i out (x ∷ xs) h = elim (Bool-cases (is_in x out)) [
  | inl gone ↦ is_in-keep i out xs (ground (arith, gone, h))
  | inr left ↦ elim (Bool-cases (x =s i)) [
    | inl same ↦ subst (λ t. is_in t out ≡ false) ((eq_iff x i).0 same) left
    | inr other ↦ is_in-keep i out xs (ground (arith, left, other, h))
  ]
]

searched-Surfaced :
    (P : String → Type 0) (adjacent : List String) (xs : Items)
    → ((i : String) → is_in i adjacent ≡ true → P i)
    → AllNamed xs
    → Surfaced P (searched adjacent xs)
unfolding searched
searched-Surfaced P [] xs inside named = ([], (refl, tt))
searched-Surfaced P (i ∷ is) xs inside named = sources_of-Surfaced P (i ∷ is) xs [] inside named

-- Where every brand of the map has a name, the search returns, and no candidate that it surfaces is of an
-- industry that the policy filter blocks for an exclusivity of the same talent on the same day.
pub run_complementary_open :
    (from_iso : String → Option ℕ) (today : ℕ) (preferences industries brands : Fields)
    → AllNamed (items_or_empty (get "brands" brands))
    → Surfaced
        (λ i. is_in i (active_exclusivity_industries from_iso today preferences) ≡ false)
        (run_complementary from_iso today preferences industries brands)
unfolding run_complementary active_exclusivity_industries adjacent_ids
run_complementary_open from_iso today preferences industries brands named =
    let xs = items_or_empty (get "active_exclusivities" preferences) in
    searched-Surfaced (λ i. is_in i (active_industries from_iso today xs) ≡ false)
      (adjacent_ids from_iso today industries (surveyed from_iso today industries xs))
      (items_or_empty (get "brands" brands))
      (λ i h.
        subst (λ ids. is_in i ids ≡ false) (surveyed-active_industries from_iso today industries xs)
          (is_in-keep i (surveyed from_iso today industries xs).0
            (surveyed from_iso today industries xs).1 h))
      named
