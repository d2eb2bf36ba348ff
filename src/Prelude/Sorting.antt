-- ===== src/Prelude/Sorting.antt =====
-- Python's `sorted`, which is stable: the items in order, equal ones as they stood.
use nativ.Prelude.{
  ◌≡◌, refl, Bool, true, false, List, [], ◌∷◌, count, All, if◌then◌else◌, Bool-cases, inl, inr,
  arith, ◌⊎◌,
}

module _ {ℓ} {A : Type ℓ} (before : A → A → Bool) where
  insert : A → List A → List A
  insert x [] = x ∷ []
  insert x (y ∷ ys) = if before x y then x ∷ y ∷ ys else y ∷ insert x ys

  unfoldable pub sort : List A → List A
  unfolding insert
  sort [] = []
  sort (x ∷ xs) = insert x (sort xs)

  -- Every item comes before the ones behind it.
  abbrev pub IsSorted : List A → Type 0
  IsSorted [] = Unit
  IsSorted (x ∷ xs) = All (λ y. before x y ≡ true) xs × IsSorted xs

  count-insert : (q : A → Bool) (x : A) (xs : List A) → count q (insert x xs) ≡ count q (x ∷ xs)
  unfolding count insert
  count-insert q x [] = refl
  count-insert q x (y ∷ ys) = ground (arith, count-insert q x ys)

  All-insert_of {κ} : (P : A → Type κ) (x : A) (xs : List A) → P x → All P xs → All P (insert x xs)
  unfolding insert
  All-insert_of P x [] h a = (h, tt)
  All-insert_of P x (y ∷ ys) h a = elim (Bool-cases (before x y)) [
    | inl first ↦ rw first (h, a)
    | inr later ↦ rw later (a.0, All-insert_of P x ys h a.1)
  ]

  pub All-sort {κ} : (P : A → Type κ) (xs : List A) → All P xs → All P (sort xs)
  unfolding sort
  All-sort P [] a = tt
  All-sort P (x ∷ xs) a = All-insert_of P x (sort xs) a.0 (All-sort P xs a.1)

  -- Sorting keeps the items.
  pub count-sort : (q : A → Bool) (xs : List A) → count q (sort xs) ≡ count q xs
  unfolding count sort
  count-sort q [] = refl
  count-sort q (x ∷ xs) = ground (arith, count-insert q x (sort xs), count-sort q xs)

  module _ (total : (x y : A) → (before x y ≡ true) ⊎ (before y x ≡ true))
      (trans : (x y z : A) → before x y ≡ true → before y z ≡ true → before x z ≡ true) where
    All-insert :
        (x y : A) (ys : List A)
        → before y x ≡ true
        → All (λ z. before y z ≡ true) ys
        → All (λ z. before y z ≡ true) (insert x ys)
    unfolding insert
    All-insert x y [] h a = (h, tt)
    All-insert x y (z ∷ zs) h a = elim (Bool-cases (before x z)) [
      | inl first ↦ rw first (h, a)
      | inr later ↦ rw later (a.0, All-insert x y zs h a.1)
    ]

    All-trans :
        (x y : A) (ys : List A)
        → before x y ≡ true
        → All (λ z. before y z ≡ true) ys
        → All (λ z. before x z ≡ true) ys
    All-trans x y [] h a = tt
    All-trans x y (z ∷ zs) h a = (trans x y z h a.0, All-trans x y zs h a.1)

    other_way : (x y : A) → before x y ≡ false → before y x ≡ true
    other_way x y h = elim (total x y) [ inl e ↦ cc (e, h) | inr e ↦ e ]

    insert-IsSorted : (x : A) (ys : List A) → IsSorted ys → IsSorted (insert x ys)
    unfolding insert
    insert-IsSorted x [] s = (tt, tt)
    insert-IsSorted x (y ∷ ys) s = elim (Bool-cases (before x y)) [
      | inl first ↦ rw first ((first, All-trans x y ys first s.0), s)
      | inr later ↦ rw later (All-insert x y ys (other_way x y later) s.0, insert-IsSorted x ys s.1)
    ]

    pub sort-IsSorted : (xs : List A) → IsSorted (sort xs)
    unfolding sort
    sort-IsSorted [] = tt
    sort-IsSorted (x ∷ xs) = insert-IsSorted x (sort xs) (sort-IsSorted xs)
