-- ===== src/Discovery/Policy/Exclusivity.antt =====
-- An exclusivity that is active keeps its industry out.
use nativ.Prelude.{
  ℕ, zero, suc, ◌≡◌, refl, sym, subst, ap, arith, String, Bool, true, false, Option, none, some,
  List, [], ◌∷◌, ◌=s◌, eq_refl, eq_iff, any, All, Bool-cases, inl, inr,
}
use nativ.Json.{Json, Items, Fields, str, obj, nil, cons, get}
use nativ.Discovery.Policy.{
  QualifiedCandidate, is_exclusivity_active, items_or_empty, with_industry, active_industries,
  is_in, warn, blocked_industries, active_exclusivity_industries, turn, apply_filters,
}

unfoldable pub item_at : ℕ → Items → Option Json
item_at n nil = none
item_at zero (cons x xs) = some x
item_at (suc n) (cons x xs) = item_at n xs

some-injective {ℓ} : {A : Type ℓ} {x y : A} → ◌≡◌ {A = Option A} (some x) (some y) → x ≡ y
some-injective h = cc

is_in-with_industry :
    (i : String) (o : Option Json) (xs : List String)
    → is_in i xs ≡ true
    → is_in i (with_industry o xs) ≡ true
unfolding is_in any with_industry
is_in-with_industry i none xs h = h
is_in-with_industry i (some (str s)) xs h = ground (arith, h)
is_in-with_industry i (some _) xs h = h

is_in-added_self :
    (i : String) (xs : List String) → is_in i (with_industry (some (str i)) xs) ≡ true
unfolding is_in any with_industry
is_in-added_self i xs = rw (eq_refl i) refl

module _ (from_iso : String → Option ℕ) (today : ℕ) where
  -- the industries of a list, after those of its tail
  active_industries_head :
      (x : Json) (xs : Items) (i : String)
      → is_in i (active_industries from_iso today xs) ≡ true
      → is_in i (active_industries from_iso today (cons x xs)) ≡ true
  unfolding active_industries
  active_industries_head (obj entry) xs i h =
      elim (Bool-cases (is_exclusivity_active from_iso entry today)) [
        | inl still ↦ rw still (
            is_in-with_industry i (get "industry_id" entry) (active_industries from_iso today xs) h)
        | inr over ↦ rw over h
      ]
  active_industries_head _ xs i h = h

  module _ (entry : Fields) (i : String)
      (active : is_exclusivity_active from_iso entry today ≡ true)
      (named : get "industry_id" entry ≡ some (str i)) where
    active_industries_self :
        (xs : Items) → is_in i (active_industries from_iso today (cons (obj entry) xs)) ≡ true
    unfolding active_industries
    active_industries_self xs =
        rw (active, named) (is_in-added_self i (active_industries from_iso today xs))

    pub active_industries-is_in :
        (n : ℕ) (xs : Items)
        → item_at n xs ≡ some (obj entry)
        → is_in i (active_industries from_iso today xs) ≡ true
    unfolding item_at
    active_industries-is_in n nil h = cc
    active_industries-is_in zero (cons x xs) h =
        subst (λ y. is_in i (active_industries from_iso today (cons y xs)) ≡ true)
          (sym (some-injective h)) (active_industries_self xs)
    active_industries-is_in (suc n) (cons x xs) h =
        active_industries_head x xs i (active_industries-is_in n xs h)

module _ (from_iso : String → Option ℕ) (today : ℕ) (preferences : Fields)
    (do_not_recontact : List String) (industries : Fields) (i : String)
    (closed : is_in i (active_exclusivity_industries from_iso today preferences) ≡ true) where
  abbrev IsElsewhere : QualifiedCandidate → Type 0
  IsElsewhere c = (c.industry_id =s i) ≡ false

  -- A text that is not in the set is not the one that is.
  elsewhere :
      (t : String)
      → is_in t (active_exclusivity_industries from_iso today preferences) ≡ false
      → (t =s i) ≡ false
  elsewhere t absent = elim (Bool-cases (t =s i)) [
    | inl same ↦ absurd (
        cc (
          closed,
          absent,
          ap (λ x. is_in x (active_exclusivity_industries from_iso today preferences))
              ((eq_iff t i).0 same),
        ))
    | inr other ↦ other
  ]

  IsElsewhere-warn : (b : Bool) (c : QualifiedCandidate) → IsElsewhere c → IsElsewhere (warn b c)
  unfolding warn
  IsElsewhere-warn false c h = h
  IsElsewhere-warn true c h = h

  turn-IsElsewhere :
      (c : QualifiedCandidate) (kept refused : List QualifiedCandidate)
      → All IsElsewhere kept
      → All IsElsewhere
          (turn from_iso today preferences do_not_recontact industries c (kept, refused)).0
  unfolding turn
  turn-IsElsewhere c kept refused h = elim (Bool-cases (is_in c.brand_id do_not_recontact)) [
    | inl dnr ↦ rw dnr h
    | inr free ↦ elim (Bool-cases (is_in c.industry_id (blocked_industries preferences))) [
      | inl barred ↦ rw (free, barred) h
      | inr fine ↦
          elim (Bool-cases
            (is_in c.industry_id (active_exclusivity_industries from_iso today preferences))) [
              | inl taken ↦ rw (free, fine, taken) h
              | inr untaken ↦
                  rw (free, fine, untaken)
                    (IsElsewhere-warn _ c (elsewhere c.industry_id untaken), h)
            ]
    ]
  ]

  apply_filters-IsElsewhere :
      (cs : List QualifiedCandidate)
      → All IsElsewhere (apply_filters from_iso today preferences do_not_recontact industries cs).0
  unfolding apply_filters
  apply_filters-IsElsewhere [] = tt
  apply_filters-IsElsewhere (c ∷ cs) =
      turn-IsElsewhere c (apply_filters from_iso today preferences do_not_recontact industries cs).0
        (apply_filters from_iso today preferences do_not_recontact industries cs).1
        (apply_filters-IsElsewhere cs)

-- Where some entry of the talent's exclusivities is active and names an industry, no candidate that the
-- filter keeps is of that industry.
pub apply_filters_exclusive :
    (from_iso : String → Option ℕ) (today : ℕ) (preferences : Fields)
    (do_not_recontact : List String) (industries : Fields) (n : ℕ) (entry : Fields) (i : String)
    → item_at n (items_or_empty (get "active_exclusivities" preferences)) ≡ some (obj entry)
    → is_exclusivity_active from_iso entry today ≡ true
    → get "industry_id" entry ≡ some (str i)
    → (cs : List QualifiedCandidate)
    → All
        (λ (c : QualifiedCandidate). (c.industry_id =s i) ≡ false)
        (apply_filters from_iso today preferences do_not_recontact industries cs).0
unfolding active_exclusivity_industries
apply_filters_exclusive from_iso today preferences dnr industries n entry i at_n active named cs =
    apply_filters-IsElsewhere from_iso today preferences dnr industries i
      (active_industries-is_in from_iso today entry i active named n
        (items_or_empty (get "active_exclusivities" preferences)) at_n)
      cs
