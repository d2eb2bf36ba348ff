-- ===== src/Discovery/Proposals/Winners.antt =====
-- The grouping of the proposals by industry.
use nativ.Prelude.{
  ℕ, ◌+◌, ◌≤◌, ◌≡◌, refl, sym, subst, ◌∙◌, String, Bool, true, false, List, [], ◌∷◌, ◌++◌, All,
  count, arith, ◌=s◌, eq_iff, leb→le, Bool-cases, inl, inr, ◌⊎◌,
}
use nativ.Prelude.Counting.{count-append}
use nativ.Prelude.Sorting.{sort, IsSorted, count-sort, sort-IsSorted, All-sort}
use nativ.Discovery.Proposals.{
  IndustryProposal, Ranked, proposal_source_priority, is_before, group_in, grouped, with_winner,
  ranked, dedup_with_alternates,
}

is_before_total : (x y : IndustryProposal) → (is_before x y ≡ true) ⊎ (is_before y x ≡ true)
unfolding is_before
is_before_total x y = elim (Bool-cases (is_before x y)) [
  | inl yes_it ↦ inl yes_it
  | inr not_it ↦ inr (ground (arith, not_it))
]

is_before_trans :
    (x y z : IndustryProposal) → is_before x y ≡ true → is_before y z ≡ true → is_before x z ≡ true
unfolding is_before
is_before_trans x y z h k = ground arith

-- Every proposal of a group is of the group's industry.
abbrev Group : Type 0
Group = String × List IndustryProposal

abbrev IsOf : String → IndustryProposal → Type 0
IsOf i p = p.industry_id ≡ i

abbrev Apart : String → List Group → Type 0
Apart k gs = All (λ (g : Group). (g.0 =s k) ≡ false) gs

Distinct : List Group → Type 0
Distinct [] = Unit
Distinct (g ∷ gs) = Apart g.0 gs × Distinct gs

abbrev AllOf : List Group → Type 0
AllOf gs = All (λ (g : Group). All (IsOf g.0) g.1) gs

tally : (IndustryProposal → Bool) → List Group → ℕ
tally q [] = 0
tally q (g ∷ gs) = count q g.1 + tally q gs

All-snoc :
    (i : String) (ps : List IndustryProposal) (p : IndustryProposal)
    → All (IsOf i) ps
    → IsOf i p
    → All (IsOf i) (ps ++ p ∷ [])
All-snoc i [] p a h = (h, tt)
All-snoc i (x ∷ xs) p a h = (a.0, All-snoc i xs p a.1 h)

AllOf-group_in : (p : IndustryProposal) (gs : List Group) → AllOf gs → AllOf (group_in p gs)
unfolding group_in
AllOf-group_in p [] a = ((refl, tt), tt)
AllOf-group_in p (g ∷ gs) a = elim (Bool-cases (g.0 =s p.industry_id)) [
  | inl same ↦ rw same (All-snoc g.0 g.1 p a.0 (sym ((eq_iff g.0 p.industry_id).0 same)), a.1)
  | inr other ↦ rw other (a.0, AllOf-group_in p gs a.1)
]

Apart-group_in :
    (p : IndustryProposal) (k : String) (gs : List Group)
    → (p.industry_id =s k) ≡ false
    → Apart k gs
    → Apart k (group_in p gs)
unfolding group_in
Apart-group_in p k [] ne a = (ne, tt)
Apart-group_in p k (g ∷ gs) ne a = elim (Bool-cases (g.0 =s p.industry_id)) [
  | inl same ↦ rw same (a.0, a.1)
  | inr other ↦ rw other (a.0, Apart-group_in p k gs ne a.1)
]

Distinct-group_in :
    (p : IndustryProposal) (gs : List Group) → Distinct gs → Distinct (group_in p gs)
unfolding group_in Distinct
Distinct-group_in p [] d = (tt, tt)
Distinct-group_in p (g ∷ gs) d = elim (Bool-cases (g.0 =s p.industry_id)) [
  | inl same ↦ rw same (d.0, d.1)
  | inr other ↦ rw other (
    Apart-group_in p g.0 gs
        (ground (arith, eq_iff p.industry_id g.0, eq_iff g.0 p.industry_id, other)) d.0,
    Distinct-group_in p gs d.1,
  )
]

tally-group_in :
    (q : IndustryProposal → Bool) (p : IndustryProposal) (gs : List Group)
    → tally q (group_in p gs) ≡ count q (p ∷ []) + tally q gs
unfolding group_in tally
tally-group_in q p [] = refl
tally-group_in q p (g ∷ gs) = elim (Bool-cases (g.0 =s p.industry_id)) [
  | inl same ↦ rw same (omega (arith, count-append q g.1 (p ∷ [])))
  | inr other ↦ rw other (omega (arith, tally-group_in q p gs))
]

AllOf-grouped : (ps : List IndustryProposal) (gs : List Group) → AllOf gs → AllOf (grouped ps gs)
unfolding grouped
AllOf-grouped [] gs a = a
AllOf-grouped (p ∷ ps) gs a = AllOf-grouped ps (group_in p gs) (AllOf-group_in p gs a)

Distinct-grouped :
    (ps : List IndustryProposal) (gs : List Group) → Distinct gs → Distinct (grouped ps gs)
unfolding grouped
Distinct-grouped [] gs d = d
Distinct-grouped (p ∷ ps) gs d = Distinct-grouped ps (group_in p gs) (Distinct-group_in p gs d)

tally-grouped :
    (q : IndustryProposal → Bool) (ps : List IndustryProposal) (gs : List Group)
    → tally q (grouped ps gs) ≡ count q ps + tally q gs
unfolding grouped count
tally-grouped q [] gs = omega arith
tally-grouped q (p ∷ ps) gs =
    ground (arith, tally-grouped q ps (group_in p gs), tally-group_in q p gs)

-- A winner is of its alternates' industry, and its source has no lower priority than theirs.
abbrev pub Leads : Ranked → Type 0
Leads r =
    All
      (λ (a : IndustryProposal).
        (a.industry_id ≡ r.0.industry_id)
        × (proposal_source_priority r.0.source ≤ proposal_source_priority a.source))
      r.1

abbrev NoWinnerOf : String → List Ranked → Type 0
NoWinnerOf k rs = All (λ (r : Ranked). (r.0.industry_id =s k) ≡ false) rs

unfoldable pub HasOneEach : List Ranked → Type 0
HasOneEach [] = Unit
HasOneEach (r ∷ rs) = NoWinnerOf r.0.industry_id rs × HasOneEach rs

-- how many of the winners and alternates pass a test
unfoldable pub members : (IndustryProposal → Bool) → List Ranked → ℕ
members q [] = 0
members q (r ∷ rs) = count q (r.0 ∷ r.1) + members q rs

leads :
    (i : String) (p : IndustryProposal) (ps : List IndustryProposal)
    → IsOf i p
    → All (IsOf i) ps
    → All (λ y. is_before p y ≡ true) ps
    → Leads (p, ps)
unfolding is_before
leads i p [] h a s = tt
leads i p (y ∷ ys) h a s = ((a.0 ∙ sym h, leb→le _ _ s.0), leads i p ys h a.1 s.1)

Leads-with_winner :
    (i : String) (ps : List IndustryProposal) (rest : List Ranked)
    → All (IsOf i) ps
    → IsSorted is_before ps
    → All Leads rest
    → All Leads (with_winner ps rest)
unfolding with_winner
Leads-with_winner i [] rest a s l = l
Leads-with_winner i (p ∷ ps) rest a s l = (leads i p ps a.0 a.1 s.0, l)

NoWinnerOf-with_winner :
    (k i : String) (ps : List IndustryProposal) (rest : List Ranked)
    → All (IsOf i) ps
    → (i =s k) ≡ false
    → NoWinnerOf k rest
    → NoWinnerOf k (with_winner ps rest)
unfolding with_winner
NoWinnerOf-with_winner k i [] rest a ne n = n
NoWinnerOf-with_winner k i (p ∷ ps) rest a ne n = (subst (λ j. (j =s k) ≡ false) (sym a.0) ne, n)

HasOneEach-with_winner :
    (i : String) (ps : List IndustryProposal) (rest : List Ranked)
    → All (IsOf i) ps
    → NoWinnerOf i rest
    → HasOneEach rest
    → HasOneEach (with_winner ps rest)
unfolding with_winner HasOneEach
HasOneEach-with_winner i [] rest a n h = h
HasOneEach-with_winner i (p ∷ ps) rest a n h = (subst (λ j. NoWinnerOf j rest) (sym a.0) n, h)

members-with_winner :
    (q : IndustryProposal → Bool) (ps : List IndustryProposal) (rest : List Ranked)
    → members q (with_winner ps rest) ≡ count q ps + members q rest
unfolding with_winner members count
members-with_winner q [] rest = omega arith
members-with_winner q (p ∷ ps) rest = refl

Leads-ranked : (gs : List Group) → AllOf gs → All Leads (ranked gs)
unfolding ranked
Leads-ranked [] a = tt
Leads-ranked (g ∷ gs) a =
    Leads-with_winner g.0 (sort is_before g.1) (ranked gs) (All-sort is_before (IsOf g.0) g.1 a.0)
      (sort-IsSorted is_before is_before_total is_before_trans g.1) (Leads-ranked gs a.1)

NoWinnerOf-ranked :
    (k : String) (gs : List Group) → AllOf gs → Apart k gs → NoWinnerOf k (ranked gs)
unfolding ranked
NoWinnerOf-ranked k [] a n = tt
NoWinnerOf-ranked k (g ∷ gs) a n =
    NoWinnerOf-with_winner k g.0 (sort is_before g.1) (ranked gs)
      (All-sort is_before (IsOf g.0) g.1 a.0) n.0 (NoWinnerOf-ranked k gs a.1 n.1)

HasOneEach-ranked : (gs : List Group) → AllOf gs → Distinct gs → HasOneEach (ranked gs)
unfolding ranked Distinct HasOneEach
HasOneEach-ranked [] a d = tt
HasOneEach-ranked (g ∷ gs) a d =
    HasOneEach-with_winner g.0 (sort is_before g.1) (ranked gs)
      (All-sort is_before (IsOf g.0) g.1 a.0) (NoWinnerOf-ranked g.0 gs a.1 d.0)
      (HasOneEach-ranked gs a.1 d.1)

members-ranked :
    (q : IndustryProposal → Bool) (gs : List Group) → members q (ranked gs) ≡ tally q gs
unfolding ranked tally members
members-ranked q [] = refl
members-ranked q (g ∷ gs) = omega (
  arith,
  members-with_winner q (sort is_before g.1) (ranked gs),
  count-sort is_before q g.1,
  members-ranked q gs,
)

-- The result of the merge: each winner leads its alternates, no two winners are of one industry, and the
-- winners and alternates are the proposals.
pub record IsRanking (ps : List IndustryProposal) (rs : List Ranked) : Type 0 where
  pub leads : All Leads rs
  pub one_each : HasOneEach rs
  pub kept : (q : IndustryProposal → Bool) → members q rs ≡ count q ps

-- The merge gives each industry one winner, of a source whose priority no alternate of that industry
-- exceeds; every proposal is a winner or an alternate, as often as it was proposed.
pub dedup_with_alternates-IsRanking :
    (ps : List IndustryProposal) → IsRanking ps (dedup_with_alternates ps)
unfolding dedup_with_alternates tally Distinct
dedup_with_alternates-IsRanking ps = record {
  leads = Leads-ranked (grouped ps []) (AllOf-grouped ps [] tt);
  one_each = HasOneEach-ranked (grouped ps []) (AllOf-grouped ps [] tt) (Distinct-grouped ps [] tt);
  kept = λ q. members-ranked q (grouped ps []) ∙ tally-grouped q ps [] ∙ omega arith;
}
