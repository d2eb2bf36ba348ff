-- ===== src/Deal/StateMachine/Milestones.antt =====
-- The substages that lie on every way from the first substage to the won one.
use nativ.Prelude.{
  ℕ, ◌≡◌, refl, subst, Bool, true, false, List, [], ◌∷◌, ◌||◌, arith, inl, inr, leb, ltb, ltb→lt,
  ◌≤◌, ◌<◌, all, Bool-cases,
}
use nativ.Deal.Substage.{
  Substage, new_lead, initial_call_scheduled, initial_call_completed, brief_received, qualified,
  proposal_drafting, proposal_sent, under_review, negotiation, terms_agreed, contract_drafting,
  contract_in_review_brand, contract_in_review_talent, contract_revisions, contract_executed,
  pre_production, content_in_production, pending_brand_approval, revisions_requested,
  approved_for_posting, live, performance_window, invoice_sent, invoice_paid,
  post_campaign_reporting, archived, same, same-eq, same_refl,
}
use nativ.Deal.Transitions.{member}
use nativ.Deal.StateMachine.Edges.{targets, IsEdge, member-all, edge_check}

-- How far a substage is on the way to the won one; the exits are at 0.
abbrev pub order : Substage → ℕ
order new_lead = 1
order initial_call_scheduled = 2
order initial_call_completed = 3
order brief_received = 4
order qualified = 5
order proposal_drafting = 6
order proposal_sent = 7
order under_review = 8
order negotiation = 8
order terms_agreed = 9
order contract_drafting = 10
order contract_in_review_brand = 11
order contract_in_review_talent = 11
order contract_revisions = 11
order contract_executed = 12
order pre_production = 13
order content_in_production = 14
order pending_brand_approval = 15
order revisions_requested = 15
order approved_for_posting = 16
order live = 17
order performance_window = 18
order invoice_sent = 19
order invoice_paid = 20
order post_campaign_reporting = 21
order archived = 22
order _ = 0

abbrev pub milestones : List Substage
milestones =
    qualified ∷ proposal_drafting ∷ proposal_sent ∷ terms_agreed ∷ contract_drafting
    ∷ contract_executed ∷ pre_production ∷ content_in_production ∷ pending_brand_approval
    ∷ approved_for_posting ∷ live ∷ performance_window ∷ invoice_sent ∷ invoice_paid
    ∷ post_campaign_reporting ∷ []

-- An edge that ends behind `b` starts at `b` or behind it.
abbrev crosses : Substage → Substage → Substage → Bool
crosses b s t = leb (order t) (order b) || ltb (order b) (order s) || same s b

crosses_rows : (s : Substage) → all (λ t. all (λ b. crosses b s t) milestones) (targets s) ≡ true
unfolding targets all same
crosses_rows new_lead = refl
crosses_rows _ = refl

-- A way along edges, with the substages that it visits, the last one first.
pub data Trail (s : Substage) : Substage → List Substage → Type 0 where
  start : Trail s s (s ∷ [])
  move : {t u : Substage} {vs : List Substage} → Trail s t vs → IsEdge t u → Trail s u (u ∷ vs)

end_visited : {s t : Substage} {vs : List Substage} → Trail s t vs → member t vs ≡ true
unfolding member
end_visited {s} start = ground (arith, same_refl s)
end_visited (move {u = u} w e) = ground (arith, same_refl u)

module _ (b : Substage) (cut : (s t : Substage) → IsEdge s t → crosses b s t ≡ true) where
  at_cut :
      (t u : Substage) → IsEdge t u → order b < order u → ltb (order b) (order t) ≡ false → t ≡ b
  at_cut t u e k near = same-eq t b (ground (arith, cut t u e))

  passes :
      {s t : Substage} {vs : List Substage}
      → Trail s t vs
      → order s ≤ order b
      → order b < order t
      → member b vs ≡ true
  unfolding member
  passes start h k = absurd (omega arith)
  passes (move {t = t} {u = u} {vs = vs} w e) h k = elim (Bool-cases (ltb (order b) (order t))) [
    | inl far ↦ ground (arith, passes w h (ltb→lt (order b) (order t) far))
    | inr near ↦
        ground (arith, subst (λ x. member x vs ≡ true) (at_cut t u e k near) (end_visited w))
  ]

all-pointwise :
    (p : Substage → Bool) (xs : List Substage)
    → ((b : Substage) → member b xs ≡ true → p b ≡ true)
    → all p xs ≡ true
unfolding all member
all-pointwise p [] h = refl
all-pointwise p (x ∷ xs) h =
    ground (
      arith,
      h x (ground (arith, same_refl x)),
      all-pointwise p xs (λ b m. h b (ground (arith, m))),
    )

milestone_cut :
    (b : Substage)
    → member b milestones ≡ true
    → (s t : Substage) → IsEdge s t
    → crosses b s t ≡ true
milestone_cut b m s t e =
    member-all (λ c. crosses c s t) b milestones m
      (edge_check (λ x y. all (λ c. crosses c x y) milestones) crosses_rows s t e)

milestone_order : (b : Substage) → member b milestones ≡ true → (1 ≤ order b) × (order b < 22)
unfolding member same
milestone_order new_lead m = cc
milestone_order _ m = ground arith

-- A way from the first substage to the won one visits every milestone.
pub won_passes :
    (vs : List Substage) → Trail new_lead archived vs → all (λ b. member b vs) milestones ≡ true
won_passes vs w =
    all-pointwise (λ b. member b vs) milestones
      λ b m. passes b (milestone_cut b m) w (milestone_order b m).0 (milestone_order b m).1
