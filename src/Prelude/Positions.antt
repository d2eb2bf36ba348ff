-- ===== src/Prelude/Positions.antt =====
-- What stands at a position after a write, and what a search finds.
use nativ.Prelude.{
  ℕ, zero, suc, ◌≡◌, ◌≢◌, refl, sym, ap, subst, ◌∙◌, Bool, false, Option, some, List, [], ◌∷◌, ◌++◌,
  get_elem?, first, replace_first, update_latest, any, Bool-cases, inl, inr,
}

pub some-injective {ℓ} : {A : Type ℓ} {x y : A} → ◌≡◌ {A = Option A} (some x) (some y) → x ≡ y
some-injective h = cc

pub get_elem?-append {ℓ} :
    {A : Type ℓ} (xs ys : List A) (n : ℕ) (d : A)
    → get_elem? xs n ≡ some d
    → get_elem? (xs ++ ys) n ≡ some d
get_elem?-append [] ys n d h = cc
get_elem?-append (x ∷ xs) ys zero d h = h
get_elem?-append (x ∷ xs) ys (suc n) d h = get_elem?-append xs ys n d h

module _ {ℓ} {A : Type ℓ} (p : A → Bool) where
  pub get_elem?-update_latest :
      (f : A → A) (xs : List A) (n : ℕ) (d : A)
      → get_elem? xs n ≡ some d
      → p d ≡ false
      → get_elem? (update_latest p f xs) n ≡ some d
  unfolding update_latest
  get_elem?-update_latest f [] n d h unfit = h
  get_elem?-update_latest f (x ∷ xs) zero d h unfit =
      let out : p x ≡ false = subst (λ y. p y ≡ false) (sym (some-injective h)) unfit in
      elim (Bool-cases (any p xs)) [ inl later ↦ rw later h | inr here ↦ rw (here, out) h ]
  get_elem?-update_latest f (x ∷ xs) (suc n) d h unfit = elim (Bool-cases (any p xs)) [
    | inl later ↦ rw later (get_elem?-update_latest f xs n d h unfit)
    | inr here ↦ elim (Bool-cases (p x)) [
      | inl fits ↦ rw (here, fits) h
      | inr out ↦ rw (here, out) h
    ]
  ]

  -- A write to the first item that passes leaves an item that is not that one.
  pub get_elem?-replace_first :
      (y : A) (xs : List A) (n : ℕ) (d r : A)
      → get_elem? xs n ≡ some d
      → first p xs ≡ some r
      → r ≢ d
      → get_elem? (replace_first p y xs) n ≡ some d
  unfolding first replace_first
  get_elem?-replace_first y [] n d r h found ne = h
  get_elem?-replace_first y (x ∷ xs) zero d r h found ne = elim (Bool-cases (p x)) [
    | inl fits ↦ absurd (ne (sym (some-injective (rw fits at found)) ∙ some-injective h))
    | inr out ↦ rw out h
  ]
  get_elem?-replace_first y (x ∷ xs) (suc n) d r h found ne = elim (Bool-cases (p x)) [
    | inl fits ↦ rw fits h
    | inr out ↦ rw out (get_elem?-replace_first y xs n d r h (rw out at found) ne)
  ]

  pub replace_first_same : (y : A) (xs : List A) → first p xs ≡ some y → replace_first p y xs ≡ xs
  unfolding first replace_first
  replace_first_same y [] found = refl
  replace_first_same y (x ∷ xs) found = elim (Bool-cases (p x)) [
    | inl fits ↦ rw fits (ap (λ z. z ∷ xs) (sym (some-injective (rw fits at found))))
    | inr out ↦ rw out (ap (λ zs. x ∷ zs) (replace_first_same y xs (rw out at found)))
  ]
