-- ===== src/Outreach/Angles.antt =====
-- The triggers of app/services/outreach/angle_filter.py. A trigger that fires gives its merge fields; one
-- that does not, `none`. The documents follow their schemas: a key that is there, and not null, has a value
-- of its type. Shares are whole numbers of percent.
pub mod Given
use Prim.Native.Nat.{Ordering}
use Prim.Native.String.{compare}
use nativ.Prelude.{
  ℕ, suc, ◌+◌, String, Bool, true, false, not, ◌&&◌, ◌||◌, Option, none, some, List, [], ◌∷◌, ◌++◌,
  if◌then◌else◌, ◌=s◌, ltb, leb, any, keep, length,
}
use nativ.Prelude.Sorting.{sort}
use nativ.Text.{lower, upper, strip, is_substring}
use nativ.Json.{Json, Items, Fields, null, num, str, arr, obj, nil, cons, end, field, get}
use nativ.Outreach.PitchHistory.{or_else}

-- `m.get(k) or ""`, `or []`, `or {}`, `or 0`
unfoldable pub text_of : Option Json → String
text_of (some (str s)) = s
text_of _ = ""

unfoldable pub items_of : Option Json → Items
items_of (some (arr xs)) = xs
items_of _ = nil

unfoldable pub fields_of : Option Json → Fields
fields_of (some (obj m)) = m
fields_of _ = end

number_of : Option Json → ℕ
number_of (some (num n)) = n
number_of _ = 0

unfoldable pub value_of : Option Json → Json
value_of none = null
value_of (some v) = v

-- `(s or "").strip().lower()`
unfoldable pub key_of : Option Json → String
unfolding text_of
key_of v = lower (strip (text_of v))

-- `entry.get("brand") or entry.get("name")`
brand_or_name : Fields → Option Json
brand_or_name entry = or_else (get "brand" entry) (get "name" entry)

-- the dicts of a list, and its texts
dicts_in : Items → List Fields
dicts_in nil = []
dicts_in (cons (obj m) xs) = m ∷ dicts_in xs
dicts_in (cons _ xs) = dicts_in xs

unfoldable pub texts_in : Items → List String
texts_in nil = []
texts_in (cons (str s) xs) = s ∷ texts_in xs
texts_in (cons _ xs) = texts_in xs

is_in : String → List String → Bool
is_in x xs = any (λ s. s =s x) xs

-- `sorted(set(xs) & set(ys))`
text_before : String → String → Bool
text_before s t = elim (compare s t) [ Ordering.gt ↦ false | _ ↦ true ]

without_repeats : List String → List String
unfolding is_in
without_repeats [] = []
without_repeats (x ∷ xs) = let rest = without_repeats xs in if is_in x rest then rest else x ∷ rest

overlap : List String → List String → List String
unfolding text_before without_repeats is_in
overlap xs ys = sort text_before (without_repeats (keep (λ x. is_in x ys) xs))

texts_json : List String → Items
texts_json [] = nil
texts_json (s ∷ ss) = cons (str s) (texts_json ss)

-- the first entry of an industry
in_industry : String → List Fields → Option Fields
unfolding brand_or_name
in_industry target [] = none
in_industry target (entry ∷ entries) =
    if key_of (get "industry_id" entry) =s target
    then some (
        field "competitor_brand" (value_of (brand_or_name entry))
          (field "industry_id" (str target) end))
    else in_industry target entries

unfoldable pub worked_with_competitor : Fields → Fields → Option Fields
unfolding in_industry dicts_in
worked_with_competitor talent brand =
    if key_of (get "industry_id" brand) =s ""
    then none
    else in_industry (key_of (get "industry_id" brand))
        (dicts_in (items_of (get "previous_brands" talent)))

-- whether a talent has worked with a brand
worked_with : String → Fields → Bool
unfolding dicts_in brand_or_name
worked_with brand_key sim =
    any (λ past. key_of (brand_or_name past) =s brand_key)
      (dicts_in (items_of (get "previous_brands" sim)))

first_similar : String → Fields → List Fields → Option Fields
unfolding worked_with
first_similar brand_key brand [] = none
first_similar brand_key brand (sim ∷ sims) =
    if worked_with brand_key sim
    then some (
        field "similar_talent_name" (value_of (get "name" sim))
          (field "brand_name" (value_of (get "name" brand)) end))
    else first_similar brand_key brand sims

unfoldable pub similar_talent_partnered : Fields → Fields → Option Fields
unfolding first_similar dicts_in
similar_talent_partnered talent brand =
    if key_of (get "name" brand) =s ""
    then none
    else first_similar (key_of (get "name" brand)) brand
        (dicts_in (items_of (get "similar_talent" talent)))

with_text : Option Json → List String → List String
with_text (some (str s)) ss = s ∷ ss
with_text _ ss = ss

similar_names : String → List Fields → List String
unfolding worked_with with_text
similar_names brand_key [] = []
similar_names brand_key (sim ∷ sims) =
    let rest = similar_names brand_key sims in
    if worked_with brand_key sim then with_text (get "name" sim) rest else rest

unfoldable pub multiple_similar_talents : Fields → Fields → Option Fields
unfolding similar_names dicts_in texts_json
multiple_similar_talents talent brand =
    let names =
      similar_names (key_of (get "name" brand))
        (dicts_in (items_of (get "similar_talent" talent))) in
    if key_of (get "name" brand) =s ""
    then none
    else if leb 2 (length names)
    then some (
        field "similar_talent_names" (arr (texts_json names))
          (field "brand_name" (value_of (get "name" brand)) end))
    else none

-- the merge fields of an overlap that is not empty
if_any : String → List String → Option Fields → Option Fields
unfolding texts_json
if_any k [] other = other
if_any k (s ∷ ss) other = some (field k (arr (texts_json (s ∷ ss))) end)

niche_by_industry : String → List String → Option Fields
niche_by_industry industry_id niches =
    if not (industry_id =s "") && any (λ n. is_substring industry_id n) niches
    then some (field "industry_id" (str industry_id) end)
    else none

unfoldable pub niche_primary_affinity : Fields → Fields → Option Fields
unfolding if_any niche_by_industry overlap texts_in
niche_primary_affinity talent brand =
    let niches = texts_in (items_of (get "content_niches" talent)) in
    if_any "niche_ids" (overlap niches (texts_in (items_of (get "primary_niche_ids" brand))))
      (niche_by_industry (key_of (get "industry_id" brand)) niches)

unfoldable pub iab_demographic_overlap : Fields → Fields → Option Fields
unfolding if_any overlap texts_in
iab_demographic_overlap talent brand =
    if_any "segments"
      (overlap
        (texts_in (items_of (get "interests" (fields_of (get "audience_demographics" talent)))))
        (texts_in (items_of (get "audience_segments" brand))))
      none

-- the skew of an audience, with its share
skew_of : ℕ → ℕ → Option (String × ℕ)
skew_of female male =
    if ltb (male + 10) female
    then some ("female", female)
    else if ltb (female + 10) male
    then some ("male", male)
    else none

if_targeted : String → Option (String × ℕ) → Option Fields
if_targeted target none = none
if_targeted target (some (skew, share)) =
    if target =s skew
    then some (field "gender_skew" (str skew) (field "share" (num share) end))
    else none

unfoldable pub gender_skew_match : Fields → Fields → Option Fields
unfolding skew_of if_targeted number_of
gender_skew_match talent brand =
    let split = fields_of (get "gender_split" (fields_of (get "audience_demographics" talent))) in
    if_targeted (key_of (get "primary_audience_gender" brand))
      (skew_of (number_of (get "female" split)) (number_of (get "male" split)))

with_country : Option Json → List String → List String
with_country (some (str s)) cs = s ∷ cs
with_country _ cs = cs

countries_in : Items → List String
unfolding with_country
countries_in nil = []
countries_in (cons (str c) xs) = c ∷ countries_in xs
countries_in (cons (obj m) xs) = with_country (get "country" m) (countries_in xs)
countries_in (cons _ xs) = countries_in xs

-- a brand that sells everywhere matches the first market
if_global : Option Json → List String → Option Fields
if_global (some (str s)) (c ∷ cs) =
    if lower s =s "global" then some (field "country" (str c) end) else none
if_global _ _ = none

unfoldable pub geo_top_country_match : Fields → Fields → Option Fields
unfolding countries_in if_global text_of
geo_top_country_match talent brand =
    let countries =
      countries_in
        (items_of (get "top_countries" (fields_of (get "audience_demographics" talent)))) in
    let hq = upper (strip (text_of (get "hq_country" brand))) in
    if not (hq =s "") && any (λ c. upper c =s hq) countries
    then some (field "country" (str hq) end)
    else if_global (get "sells_in_countries" brand) countries

-- `_competitor_brands`
competitor_brands : List Fields → List String
unfolding brand_or_name
competitor_brands [] = []
competitor_brands (entry ∷ entries) = elim (brand_or_name entry) [
  | some (str s) ↦ lower (strip s) ∷ competitor_brands entries
  | _ ↦ competitor_brands entries
]

unfoldable pub past_brand_reengagement : Fields → Fields → Option Fields
unfolding competitor_brands is_in dicts_in
past_brand_reengagement talent brand =
    if key_of (get "name" brand) =s ""
    then none
    else if is_in (key_of (get "name" brand))
        (competitor_brands (dicts_in (items_of (get "previous_brands" talent))))
    then some (field "brand_name" (value_of (get "name" brand)) end)
    else none

abbrev always : Fields → Fields → Option Fields
always talent brand = some end

-- `_EVALUATORS`
abbrev Evaluators : Type 0
Evaluators = List (String × (Fields → Fields → Option Fields))

unfoldable pub evaluators : Evaluators
evaluators =
    ("talent_worked_with_competitor", worked_with_competitor)
    ∷ ("talent_worked_in_same_industry", worked_with_competitor)
    ∷ ("similar_talent_partnered_with_brand", similar_talent_partnered)
    ∷ ("multiple_similar_talents_with_brand", multiple_similar_talents)
    ∷ ("niche_primary_affinity", niche_primary_affinity)
    ∷ ("iab_demographic_overlap", iab_demographic_overlap)
    ∷ ("gender_skew_match", gender_skew_match)
    ∷ ("geo_top_country_match", geo_top_country_match)
    ∷ ("past_brand_eligible_reengagement", past_brand_reengagement)
    ∷ ("always_for_buyer", always)
    ∷ ("always_for_influencer", always)
    ∷ ("always_for_gatekeeper", always)
    ∷ ("always_for_champion", always)
    ∷ []

evaluate_by : Evaluators → String → Fields → Fields → Option Fields
evaluate_by [] trigger_type talent brand = none
evaluate_by (e ∷ es) trigger_type talent brand =
    if e.0 =s trigger_type then e.1 talent brand else evaluate_by es trigger_type talent brand

-- `evaluate_trigger`; no evaluator reads the contact
unfoldable pub evaluate_trigger : String → Fields → Fields → Option Fields
unfolding evaluate_by evaluators
evaluate_trigger trigger_type talent brand = evaluate_by evaluators trigger_type talent brand
