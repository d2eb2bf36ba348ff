-- ===== src/Enrichment.antt =====
-- app/services/contact_enrichment/policy_filter.py (`apply_contact_filters`). A score and the threshold are
-- numbers of a common scale: the code does nothing with them but compare them. Times are in seconds.
pub mod Partition
pub mod Dedupe
use nativ.Prelude.{
  ℕ, String, Bool, true, false, ◌&&◌, ◌||◌, Option, none, some, List, [], ◌∷◌, if◌then◌else◌, ◌=s◌,
  ltb,
}
use nativ.Json.{Json, Fields, bool, obj, end, get}
use nativ.Outreach.Eligibility.{has_recent_pitch}

pub record QualifiedContact : Type 0 where
  pub contact_id : String
  pub qualification_score : ℕ

-- `workflow.get(contact_id) or {}`; a value under an identifier is a dict
doc_or_empty : Option Json → Fields
doc_or_empty (some (obj m)) = m
doc_or_empty _ = end

unfoldable pub existing_of : Fields → QualifiedContact → Fields
unfolding doc_or_empty
existing_of workflow q = doc_or_empty (get q.contact_id workflow)

is_flag : Option Json → Bool
is_flag (some (bool b)) = b
is_flag _ = false

-- `existing.get("do_not_contact") is True`
unfoldable pub has_opted_out : Fields → Bool
unfolding is_flag
has_opted_out existing = is_flag (get "do_not_contact" existing)

-- the cooldown, which is tested for a talent only
unfoldable pub cools_down : (String → Option ℕ) → ℕ → ℕ → Option String → Fields → Bool
cools_down parse_iso now days none existing = false
cools_down parse_iso now days (some talent_id) existing =
    if talent_id =s "" then false else has_recent_pitch parse_iso now days existing talent_id

module _ (parse_iso : String → Option ℕ) (now days : ℕ) (talent_id : Option String) (threshold : ℕ)
    (workflow : Fields) where
  -- one turn of the loop, before the rest: kept or blocked
  turn :
      QualifiedContact
      → List QualifiedContact × List QualifiedContact
      → List QualifiedContact × List QualifiedContact
  turn q (kept, blocked) =
      if has_opted_out (existing_of workflow q)
      then (kept, q ∷ blocked)
      else if ltb q.qualification_score threshold
      then (kept, q ∷ blocked)
      else if cools_down parse_iso now days talent_id (existing_of workflow q)
      then (kept, q ∷ blocked)
      else (q ∷ kept, blocked)

  unfoldable pub apply_contact_filters :
      List QualifiedContact → List QualifiedContact × List QualifiedContact
  unfolding turn
  apply_contact_filters [] = ([], [])
  apply_contact_filters (q ∷ qs) = turn q (apply_contact_filters qs)
