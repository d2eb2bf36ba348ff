-- ===== src/Deal/StateMachine/Edges.antt =====
-- The edges of the table TRANSITIONS, and a way to prove a fact of all of them by evaluation.
use nativ.Prelude.{◌≡◌, Bool, true, List, [], ◌∷◌, arith, all, subst, sym, Bool-cases, inl, inr}
use nativ.Deal.Substage.{Substage, same, same-eq}
use nativ.Deal.Transitions.{transitions, member}
use nativ.Deal.StateMachine.{or_empty}

unfoldable pub targets : Substage → List Substage
unfolding transitions or_empty
targets s = or_empty (transitions s)

abbrev pub IsEdge : Substage → Substage → Type 0
IsEdge s t = member t (targets s) ≡ true

pub member-all :
    (p : Substage → Bool) (t : Substage) (xs : List Substage)
    → member t xs ≡ true
    → all p xs ≡ true
    → p t ≡ true
unfolding member all
member-all p t [] h a = cc
member-all p t (x ∷ xs) h a = elim (Bool-cases (same t x)) [
  | inl e ↦ subst (λ y. p y ≡ true) (sym (same-eq t x e)) (ground arith)
  | inr n ↦ member-all p t xs (ground arith) (ground arith)
]

-- A test that holds along each row of the table holds of each edge.
pub edge_check :
    (p : Substage → Substage → Bool)
    → ((s : Substage) → all (p s) (targets s) ≡ true)
    → (s t : Substage) → IsEdge s t
    → p s t ≡ true
edge_check p rows s t h = member-all (p s) t (targets s) h (rows s)
