-- ===== src/Scenarios/Discovery.antt =====
-- The filter of a discovery run.
use nativ.Prelude.{
  ℕ, String, ◌≡◌, refl, true, false, Option, none, some, List, [], ◌∷◌, All, any, keep, ◌=s◌,
  if◌then◌else◌,
}
use nativ.Json.{Json, Fields, bool, str, arr, obj, nil, cons, end, field, get, truthy_at}
use nativ.Discovery.Policy.{
  active_exclusivity_industries, QualifiedCandidate, apply_filters, is_exclusivity_active,
  items_or_empty, block, warn, is_in, active_industries, is_sensitive_industry,
}
use nativ.Discovery.Complementary.{
  run_complementary, surveyed, adjacent_ids, sources_of, adjacent_industries,
}
use nativ.Discovery.Complementary.Open.{AllNamed, Surfaced, run_complementary_open}
use nativ.Discovery.Policy.Exclusivity.{item_at, apply_filters_exclusive}
use nativ.Discovery.Policy.Verdicts.{IsSplit, apply_filters-IsSplit}

abbrev calendar : String → Option ℕ
calendar s = if s =s "2026-06-30" then some 180 else none

abbrev shoes : Fields
shoes = field "industry_id" (str "footwear") (field "ends_on" (str "2026-06-30T00:00") end)

abbrev preferences : Fields
preferences =
    field "blocked_industries" (arr (cons (str "tobacco") nil))
      (field "active_exclusivities" (arr (cons (obj shoes) nil)) end)

abbrev industries : Fields
industries = field "betting" (obj (field "sensitive" (bool true) end)) end

abbrev candidate : String → String → QualifiedCandidate
candidate brand_id industry_id = record {
  brand_id = brand_id;
  industry_id = industry_id;
  warnings = [];
  blocked = false;
  block_reason = none;
}

abbrev candidates : List QualifiedCandidate
candidates =
    candidate "runner" "footwear"
    ∷ candidate "bet" "betting"
    ∷ candidate "smoke" "tobacco"
    ∷ candidate "old" "games"
    ∷ candidate "new" "games"
    ∷ []

filtered : apply_filters calendar 100 preferences ("old" ∷ []) industries candidates ≡ (
  warn true (candidate "bet" "betting") ∷ candidate "new" "games" ∷ [],
  block "active exclusivity in footwear" (candidate "runner" "footwear")
      ∷ block "industry tobacco in blocked_industries" (candidate "smoke" "tobacco")
      ∷ block "do_not_recontact flag on prior deal" (candidate "old" "games")
      ∷ [],
)
unfolding apply_filters is_in any items_or_empty get active_industries is_exclusivity_active
    is_sensitive_industry warn truthy_at
filtered = refl

apply_filters_exclusive_example :
    All
      (λ (c : QualifiedCandidate). (c.industry_id =s "footwear") ≡ false)
      (apply_filters calendar 100 preferences ("old" ∷ []) industries candidates).0
unfolding item_at items_or_empty is_exclusivity_active get
apply_filters_exclusive_example =
    apply_filters_exclusive calendar 100 preferences ("old" ∷ []) industries 0 shoes "footwear" refl
      refl refl candidates

apply_filters-IsSplit_example :
    IsSplit calendar 100 preferences
      ("old" ∷ [])
      industries
      candidates
      (apply_filters calendar 100 preferences ("old" ∷ []) industries candidates).0
      (apply_filters calendar 100 preferences ("old" ∷ []) industries candidates).1
apply_filters-IsSplit_example =
    apply_filters-IsSplit calendar 100 preferences ("old" ∷ []) industries candidates

-- footwear and socks stand beside each other, below apparel
abbrev clothes : Fields
clothes =
    field "footwear" (obj (field "parent" (str "apparel") end))
      (field "socks" (obj (field "parent" (str "apparel") end)) end)

abbrev brand_of : String → String → Json
brand_of name industry_id =
    obj (field "name" (str name) (field "industry_id" (str industry_id) end))

abbrev brand_map : Fields
brand_map =
    field "brands"
      (arr (cons (brand_of "Big Sock" "socks") (cons (brand_of "Runner" "footwear") nil))) end

surfaced :
    run_complementary calendar 100 preferences clothes brand_map
    ≡ some (record { brand_id = "big-sock"; brand_name = "Big Sock"; industry_id = "socks" } ∷ [])
unfolding run_complementary adjacent_ids keep surveyed items_or_empty get is_exclusivity_active
    adjacent_industries is_in any sources_of nativ.Slug.base_of nativ.Text.strip
surfaced = refl

run_complementary_open_example :
    Surfaced
      (λ i. is_in i (active_exclusivity_industries calendar 100 preferences) ≡ false)
      (run_complementary calendar 100 preferences clothes brand_map)
unfolding AllNamed items_or_empty get
run_complementary_open_example =
    run_complementary_open calendar 100 preferences clothes brand_map
      (("Big Sock", refl), (("Runner", refl), tt))
