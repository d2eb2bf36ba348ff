-- ===== src/Discovery/Complementary.antt =====
-- app/services/discovery/search_12_complementary_to_exclusivity.py: the brands of the industries beside those
-- of the exclusivities. A set of texts is a list, an industry's `parent` is a text where it is there, and
-- `none` stands for a brand whose `name` is missing or no text, which raises.
pub mod Open
use nativ.Prelude.{
  ℕ, String, Bool, true, false, not, ◌&&◌, Option, none, some, List, [], ◌∷◌, ◌++◌, if◌then◌else◌,
  ◌=s◌, keep,
}
use nativ.Text.{strip}
use nativ.Slug.{base_of}
use nativ.Json.{Json, Items, Fields, str, obj, nil, cons, end, field, get}
use nativ.Discovery.Policy.{is_exclusivity_active, items_or_empty, is_in}

-- `CandidateSource`, less the tag, the weight and the note, which are the same for the whole run
pub record CandidateSource : Type 0 where
  pub brand_id : String
  pub brand_name : String
  pub industry_id : String

-- `_slugify`
slug_of : String → String
slug_of name = let cleaned = base_of (strip name) in if cleaned =s "" then "unknown" else cleaned

-- the parent that a node names, if it is not empty
parent_of : Option Json → Option String
parent_of (some (obj node)) = elim (get "parent" node) [
  | some (str p) ↦ if p =s "" then none else some p
  | _ ↦ none
]
parent_of _ = none

names_parent : String → Option String → Bool
names_parent p none = false
names_parent p (some q) = q =s p

siblings : String → String → Fields → List String
unfolding parent_of names_parent
siblings p industry_id end = []
siblings p industry_id (field iid node rest) =
    let others = siblings p industry_id rest in
    if names_parent p (parent_of (some node)) && not (iid =s industry_id)
    then iid ∷ others
    else others

family : Option String → String → Fields → List String
unfolding siblings
family none industry_id industries = []
family (some p) industry_id industries = p ∷ siblings p industry_id industries

-- `_adjacent_industries`
unfoldable pub adjacent_industries : String → Fields → List String
unfolding family parent_of
adjacent_industries industry_id industries =
    family (parent_of (get industry_id industries)) industry_id industries

module _ (from_iso : String → Option ℕ) (today : ℕ) (industries : Fields) where
  -- the two sets, with the industry of one more entry
  with_adjacent : Option Json → List String × List String → List String × List String
  with_adjacent (some (str i)) (exclusive, adjacent) =
      (i ∷ exclusive, adjacent_industries i industries ++ adjacent)
  with_adjacent _ rest = rest

  -- the loop over the exclusivities
  unfoldable pub surveyed : Items → List String × List String
  unfolding with_adjacent
  surveyed nil = ([], [])
  surveyed (cons (obj entry) xs) =
      let rest = surveyed xs in
      if is_exclusivity_active from_iso entry today
      then with_adjacent (get "industry_id" entry) rest
      else rest
  surveyed (cons _ xs) = surveyed xs

  -- the adjacent industries, less those of the exclusivities
  unfoldable pub adjacent_ids : List String × List String → List String
  adjacent_ids (exclusive, adjacent) = keep (λ s. not (is_in s exclusive)) adjacent

industry_in : List String → Option Json → Option String
industry_in adjacent (some (str i)) = if is_in i adjacent then some i else none
industry_in adjacent _ = none

with_source : CandidateSource → Option (List CandidateSource) → Option (List CandidateSource)
with_source c none = none
with_source c (some cs) = some (c ∷ cs)

-- one brand of an adjacent industry, before the rest, which takes the brands seen so far
surface :
    String
    → List String
    → (List String → Option (List CandidateSource))
    → Option Json
    → Option (List CandidateSource)
unfolding slug_of with_source
surface i seen rest (some (str name)) =
    if is_in (slug_of name) seen
    then rest seen
    else with_source (record { brand_id = slug_of name; brand_name = name; industry_id = i })
        (rest (slug_of name ∷ seen))
surface i seen rest _ = none

next_source :
    Option String
    → List String
    → (List String → Option (List CandidateSource))
    → Option Json
    → Option (List CandidateSource)
unfolding surface
next_source none seen rest name = rest seen
next_source (some i) seen rest name = surface i seen rest name

-- the loop over the brands
unfoldable pub sources_of : List String → Items → List String → Option (List CandidateSource)
unfolding industry_in next_source
sources_of adjacent nil seen = some []
sources_of adjacent (cons (obj entry) xs) seen =
    next_source (industry_in adjacent (get "industry_id" entry)) seen (sources_of adjacent xs)
      (get "name" entry)
sources_of adjacent (cons _ xs) seen = sources_of adjacent xs seen

searched : List String → Items → Option (List CandidateSource)
searched [] brands = some []
searched (i ∷ is) brands = sources_of (i ∷ is) brands []

-- `run`
unfoldable pub run_complementary :
    (String → Option ℕ) → ℕ → Fields → Fields → Fields → Option (List CandidateSource)
unfolding searched
run_complementary from_iso today preferences industries brand_industry_map =
    searched
      (adjacent_ids from_iso today industries (
        surveyed from_iso today industries
          (items_or_empty (get "active_exclusivities" preferences))))
      (items_or_empty (get "brands" brand_industry_map))
