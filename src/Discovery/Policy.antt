-- ===== src/Discovery/Policy.antt =====
-- app/services/discovery/policy_filter.py, with `is_sensitive_industry` of app/utils/taxonomies.py. The
-- preferences are a JSON document, in which no value is a `date`; a day is a number, and
-- `date.fromisoformat` a parameter. A set of texts is a list.
pub mod Exclusivity
pub mod Verdicts
use Prim.Native.String
use Prim.Native.String.{◌++◌ as ◌++s◌}
use nativ.Prelude.{
  ℕ, zero, suc, String, Bool, true, false, not, ◌&&◌, Option, none, some, List, [], ◌∷◌, ◌++◌,
  if◌then◌else◌, ◌=s◌, leb, any,
}
use nativ.Json.{
  Json, Items, Fields, null, bool, num, str, arr, obj, nil, cons, end, get, truthy, truthy_at,
}

-- `QualifiedCandidate`, as far as the filter reads or writes it
pub record QualifiedCandidate : Type 0 where
  pub brand_id : String
  pub industry_id : String
  pub warnings : List String
  pub blocked : Bool
  pub block_reason : Option String

-- `bool(node and node.get("sensitive"))`; a node is a dict
is_sensitive_node : Option Json → Bool
is_sensitive_node (some (obj node)) = truthy_at (get "sensitive" node)
is_sensitive_node _ = false

unfoldable pub is_sensitive_industry : Fields → String → Bool
unfolding is_sensitive_node
is_sensitive_industry industries industry_id = is_sensitive_node (get industry_id industries)

-- `s[:n]`
first_chars : ℕ → String → String
first_chars zero s = String.[]
first_chars (suc n) String.[] = String.[]
first_chars (suc n) (String.◌∷◌ c s) = String.◌∷◌ c (first_chars n s)

ends_later : ℕ → Option ℕ → Bool
ends_later today none = false
ends_later today (some ends) = leb today ends

is_open_end : (String → Option ℕ) → ℕ → Option Json → Bool
unfolding first_chars ends_later
is_open_end from_iso today none = true
is_open_end from_iso today (some (str s)) =
    if s =s "" then true else ends_later today (from_iso (first_chars 10 s))
is_open_end from_iso today (some v) = not (truthy v)

-- `_is_exclusivity_active`
unfoldable pub is_exclusivity_active : (String → Option ℕ) → Fields → ℕ → Bool
unfolding is_open_end
is_exclusivity_active from_iso exclusivity today =
    is_open_end from_iso today (get "ends_on" exclusivity)

-- `preferences.get(k) or []`, where it is a list
unfoldable pub items_or_empty : Option Json → Items
items_or_empty (some (arr xs)) = xs
items_or_empty _ = nil

-- `{str(i) for i in xs if isinstance(i, str)}`
texts_of : Items → List String
texts_of nil = []
texts_of (cons (str s) xs) = s ∷ texts_of xs
texts_of (cons _ xs) = texts_of xs

-- `isinstance(industry_id, str)`, and the addition to the set
unfoldable pub with_industry : Option Json → List String → List String
with_industry (some (str s)) rest = s ∷ rest
with_industry _ rest = rest

unfoldable pub active_industries : (String → Option ℕ) → ℕ → Items → List String
unfolding with_industry
active_industries from_iso today nil = []
active_industries from_iso today (cons (obj entry) xs) =
    let rest = active_industries from_iso today xs in
    if is_exclusivity_active from_iso entry today
    then with_industry (get "industry_id" entry) rest
    else rest
active_industries from_iso today (cons _ xs) = active_industries from_iso today xs

unfoldable pub is_in : String → List String → Bool
is_in x xs = any (λ s. s =s x) xs

unfoldable pub block : String → QualifiedCandidate → QualifiedCandidate
block reason c = record c { blocked = true; block_reason = some reason }

-- the warning of a candidate that is kept
unfoldable pub warn : Bool → QualifiedCandidate → QualifiedCandidate
warn false c = c
warn true c = record c {
  warnings =
      c.warnings
      ++ (("industry " ++s c.industry_id) ++s " is flagged sensitive; not in preferred_industries")
        ∷ [];
}

unfoldable pub blocked_industries : Fields → List String
unfolding texts_of
blocked_industries preferences = texts_of (items_or_empty (get "blocked_industries" preferences))

unfoldable pub preferred_industries : Fields → List String
unfolding texts_of
preferred_industries preferences =
    texts_of (items_or_empty (get "preferred_industries" preferences))

unfoldable pub active_exclusivity_industries : (String → Option ℕ) → ℕ → Fields → List String
active_exclusivity_industries from_iso today preferences =
    active_industries from_iso today (items_or_empty (get "active_exclusivities" preferences))

module _ (from_iso : String → Option ℕ) (today : ℕ) (preferences : Fields)
    (do_not_recontact : List String) (industries : Fields) where
  -- one turn of the loop, before the rest
  turn :
      QualifiedCandidate
      → List QualifiedCandidate × List QualifiedCandidate
      → List QualifiedCandidate × List QualifiedCandidate
  turn c (kept, refused) =
      if is_in c.brand_id do_not_recontact
      then (kept, block "do_not_recontact flag on prior deal" c ∷ refused)
      else if is_in c.industry_id (blocked_industries preferences)
      then (kept, block (("industry " ++s c.industry_id) ++s " in blocked_industries") c ∷ refused)
      else if is_in c.industry_id (active_exclusivity_industries from_iso today preferences)
      then (kept, block ("active exclusivity in " ++s c.industry_id) c ∷ refused)
      else (
        warn
              (is_sensitive_industry industries c.industry_id
                && not (is_in c.industry_id (preferred_industries preferences)))
              c
            ∷ kept,
        refused,
      )

  unfoldable pub apply_filters :
      List QualifiedCandidate → List QualifiedCandidate × List QualifiedCandidate
  unfolding turn blocked_industries active_exclusivity_industries preferred_industries
  apply_filters [] = ([], [])
  apply_filters (c ∷ cs) = turn c (apply_filters cs)
