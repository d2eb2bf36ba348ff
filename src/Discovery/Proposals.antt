-- ===== src/Discovery/Proposals.antt =====
-- The proposals of the discovery's first phase: the priorities of app/services/discovery/_models.py,
-- `_dedup_with_alternates` of phase_1_industry_compilation.py, and `filter_irrelevant_proposals` of
-- _phase_1_relevance_filter.py, where the answer of the language model is an argument.
pub mod Winners
pub mod Relevance
use nativ.Prelude.{
  ℕ, String, Bool, true, false, not, Option, none, some, List, [], ◌∷◌, ◌++◌, if◌then◌else◌, ◌=s◌,
  leb, any, keep,
}
use nativ.Prelude.Sorting.{sort}

pub record IndustryProposal : Type 0 where
  pub industry_id : String
  pub rationale : String
  pub source : String

-- `_PROPOSAL_PRIORITY`
abbrev priorities : List (String × ℕ)
priorities =
    ("affinity_primary", 0)
    ∷ ("affinity_secondary", 1)
    ∷ ("affinity_tertiary", 2)
    ∷ ("competitor_of_previous", 3)
    ∷ ("similar_talent", 4)
    ∷ ("bidirectional_walk", 5)
    ∷ ("adjacency", 6)
    ∷ ("audience_demographic", 7)
    ∷ ("life_stage", 8)
    ∷ ("exclusivity_adjacent", 9)
    ∷ ("softener", 10)
    ∷ ("manual", 11)
    ∷ []

lookup_or : ℕ → String → List (String × ℕ) → ℕ
lookup_or d k [] = d
lookup_or d k (e ∷ es) = if e.0 =s k then e.1 else lookup_or d k es

unfoldable pub proposal_source_priority : String → ℕ
unfolding lookup_or
proposal_source_priority source = lookup_or 999 source priorities

-- the order of the sort
unfoldable pub is_before : IndustryProposal → IndustryProposal → Bool
is_before p q = leb (proposal_source_priority p.source) (proposal_source_priority q.source)

-- `by_industry.setdefault(p.industry_id, []).append(p)`
group_in :
    IndustryProposal → List (String × List IndustryProposal) → List (String × List IndustryProposal)
group_in p [] = (p.industry_id, p ∷ []) ∷ []
group_in p (g ∷ gs) = if g.0 =s p.industry_id then (g.0, g.1 ++ p ∷ []) ∷ gs else g ∷ group_in p gs

grouped :
    List IndustryProposal
    → List (String × List IndustryProposal)
    → List (String × List IndustryProposal)
unfolding group_in
grouped [] gs = gs
grouped (p ∷ ps) gs = grouped ps (group_in p gs)

-- A winner with its alternates. No group is empty.
abbrev pub Ranked : Type 0
Ranked = IndustryProposal × List IndustryProposal

with_winner : List IndustryProposal → List Ranked → List Ranked
with_winner [] rest = rest
with_winner (p ∷ ps) rest = (p, ps) ∷ rest

ranked : List (String × List IndustryProposal) → List Ranked
unfolding with_winner
ranked [] = []
ranked (g ∷ gs) = with_winner (sort is_before g.1) (ranked gs)

-- `_dedup_with_alternates`
unfoldable pub dedup_with_alternates : List IndustryProposal → List Ranked
unfolding grouped ranked
dedup_with_alternates proposals = ranked (grouped proposals [])

-- `_PROTECTED_SOURCES`
abbrev protected_sources : List String
protected_sources =
    "affinity_primary" ∷ "affinity_secondary" ∷ "affinity_tertiary" ∷ "competitor_of_previous"
    ∷ "similar_talent" ∷ []

is_in : String → List String → Bool
is_in x xs = any (λ s. s =s x) xs

unfoldable pub is_protected : IndustryProposal → Bool
unfolding is_in
is_protected p = is_in p.source protected_sources

-- An industry that the model flags, with the reason, as `_parse_response` returns it
abbrev pub Removal : Type 0
Removal = String × String

pub record Removed : Type 0 where
  pub industry_id : String
  pub reason : String
  pub original_source : String
  pub original_rationale : String

-- `by_id[iid]`: of the proposals of an industry, the last
by_id : String → List IndustryProposal → Option IndustryProposal
by_id iid [] = none
by_id iid (p ∷ ps) = elim (by_id iid ps) [
  | some q ↦ some q
  | none ↦ if p.industry_id =s iid then some p else none
]

record_of : Removal → IndustryProposal → Removed
record_of r p = record {
  industry_id = r.0;
  reason = r.1;
  original_source = p.source;
  original_rationale = p.rationale;
}

-- the loop over the removals, with those that were taken
removed_records : List IndustryProposal → List Removal → List String → List Removed
unfolding by_id is_in record_of
removed_records filterable [] taken = []
removed_records filterable (r ∷ rs) taken = elim (by_id r.0 filterable) [
  | none ↦ removed_records filterable rs taken
  | some p ↦
      if is_in r.0 taken
      then removed_records filterable rs taken
      else record_of r p ∷ removed_records filterable rs (r.0 ∷ taken)
]

removed_ids : List Removed → List String
removed_ids [] = []
removed_ids (r ∷ rs) = r.industry_id ∷ removed_ids rs

-- `none` for a call that fails; no removals leave everything as it is, as none do
unfoldable pub filter_irrelevant_proposals :
    Option (List Removal) → List IndustryProposal → List IndustryProposal × List Removed
unfolding removed_records removed_ids is_in
filter_irrelevant_proposals none proposals = (proposals, [])
filter_irrelevant_proposals (some removals) proposals =
    let records = removed_records (keep (λ p. not (is_protected p)) proposals) removals [] in
    (
      keep (λ (p : IndustryProposal). not (is_in p.industry_id (removed_ids records))) proposals,
      records,
    )
