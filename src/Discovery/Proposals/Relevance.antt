-- ===== src/Discovery/Proposals/Relevance.antt =====
-- What the relevance filter removes.
use nativ.Prelude.{
  ◌≡◌, refl, ap, ◌∙◌, String, Bool, true, false, not, ◌&&◌, none, some, List, [], ◌∷◌, arith, ◌=s◌,
  eq_iff, Bool-cases, Option-cases, inl, inr, any, keep,
}
use mathlib.Core.Path.{fun_ext}
use nativ.Discovery.Proposals.{
  IndustryProposal, Removal, is_protected, by_id, is_in, removed_records, removed_ids,
  filter_irrelevant_proposals,
}

-- whether some proposal is of an industry
unfoldable pub proposes : String → List IndustryProposal → Bool
proposes i ps = any (λ p. p.industry_id =s i) ps

-- whether the model flags an industry
unfoldable pub flags : String → List Removal → Bool
flags i rs = any (λ r. r.0 =s i) rs

not_proposed : (i : String) (ps : List IndustryProposal) → by_id i ps ≡ none → proposes i ps ≡ false
unfolding proposes by_id any
not_proposed i [] h = refl
not_proposed i (p ∷ ps) h = elim (Option-cases (by_id i ps)) [
  | inl nothing ↦ ground (arith, h, nothing, not_proposed i ps nothing)
  | inr (q, found) ↦ cc (rw found at h)
]

proposes_of_by_id :
    (i : String) (ps : List IndustryProposal) (p : IndustryProposal)
    → by_id i ps ≡ some p
    → proposes i ps ≡ true
unfolding proposes by_id any
proposes_of_by_id i [] p h = cc (h)
proposes_of_by_id i (q ∷ qs) p h = ground (arith, h, proposes_of_by_id i qs p)

-- An industry is removed where it is flagged, an unprotected proposal has it, and it is not taken yet.
removed_ids-is_in :
    (i : String) (ps : List IndustryProposal) (rs : List Removal) (taken : List String)
    → is_in i (removed_ids (removed_records ps rs taken))
      ≡ (proposes i ps && flags i rs && not (is_in i taken))
unfolding removed_ids removed_records is_in flags any
removed_ids-is_in i ps [] taken = elim (Bool-cases (proposes i ps)) [
  | inl e ↦ rw e refl
  | inr e ↦ rw e refl
]
removed_ids-is_in i ps (r ∷ rs) taken = elim (Option-cases (by_id r.0 ps)) [
  | inl nothing ↦ ground (
    arith,
    nothing,
    not_proposed r.0 ps nothing,
    removed_ids-is_in i ps rs taken,
    λ (e : r.0 ≡ i). ap (λ k. proposes k ps) e,
    eq_iff r.0 i,
  )
  | inr (p, found) ↦ ground (
    arith,
    found,
    proposes_of_by_id r.0 ps p found,
    removed_ids-is_in i ps rs taken,
    removed_ids-is_in i ps rs (r.0 ∷ taken),
    λ (e : r.0 ≡ i). ap (λ k. proposes k ps) e,
    λ (e : r.0 ≡ i). ap (λ k. is_in k taken) e,
    eq_iff r.0 i,
  )
]

-- An industry that the model flags and that some unprotected proposal is of.
abbrev pub is_removed : List IndustryProposal → List Removal → String → Bool
is_removed ps rs i = proposes i (keep (λ p. not (is_protected p)) ps) && flags i rs

and-true : (x y : Bool) → (x && y && true) ≡ (x && y)
and-true true true = refl
and-true true false = refl
and-true false y = refl

not-is_in :
    (ps : List IndustryProposal) (rs : List Removal) (p : IndustryProposal)
    → not (
        is_in p.industry_id
          (removed_ids (removed_records (keep (λ x. not (is_protected x)) ps) rs [])))
      ≡ not (is_removed ps rs p.industry_id)
unfolding is_in any
not-is_in ps rs p = ap not (
    removed_ids-is_in p.industry_id (keep (λ x. not (is_protected x)) ps) rs []
    ∙ and-true (proposes p.industry_id (keep (λ x. not (is_protected x)) ps))
        (flags p.industry_id rs))

-- When the model answers, a proposal is kept, in its place, unless the model flags its industry and some
-- unprotected proposal is of that industry: then every proposal of it goes, also one of a protected source.
pub filter_irrelevant_proposals-keep :
    (rs : List Removal) (ps : List IndustryProposal)
    → (filter_irrelevant_proposals (some rs) ps).0
      ≡ keep (λ (p : IndustryProposal). not (is_removed ps rs p.industry_id)) ps
unfolding filter_irrelevant_proposals
filter_irrelevant_proposals-keep rs ps = ap (λ f. keep f ps) (fun_ext (not-is_in ps rs))
