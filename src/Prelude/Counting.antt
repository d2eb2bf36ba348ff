-- ===== src/Prelude/Counting.antt =====
-- How many items pass a test, after a write.
use nativ.Prelude.{
  ◌≤◌, ◌≡◌, refl, ◌+◌, Bool, true, false, some, List, [], ◌∷◌, ◌++◌, count, any, first,
  replace_first, update_latest, Bool-cases, inl, inr, arith,
}
use nativ.Prelude.Positions.{some-injective}

module _ {ℓ} {A : Type ℓ} (q : A → Bool) where
  pub count-append : (xs ys : List A) → count q (xs ++ ys) ≡ count q xs + count q ys
  unfolding count
  count-append [] ys = omega arith
  count-append (x ∷ xs) ys = elim (Bool-cases (q x)) [
    | inl fits ↦ rw fits (omega (arith, count-append xs ys))
    | inr out ↦ rw out (count-append xs ys)
  ]

  pub any_of_count : (xs : List A) → any q xs ≡ false → count q xs ≡ 0
  unfolding any count
  any_of_count [] h = refl
  any_of_count (x ∷ xs) h = ground (arith, any_of_count xs, h)

  pub count_of_any : (xs : List A) → any q xs ≡ true → 1 ≤ count q xs
  unfolding any count
  count_of_any [] h = cc (h)
  count_of_any (x ∷ xs) h = ground (arith, count_of_any xs, h)

  pub count-replace_first-le :
      (p : A → Bool) (y r : A) (xs : List A)
      → first p xs ≡ some r
      → (q y ≡ true → q r ≡ true)
      → count q (replace_first p y xs) ≤ count q xs
  unfolding count first replace_first
  count-replace_first-le p y r [] found keep_it = omega arith
  count-replace_first-le p y r (x ∷ xs) found keep_it = elim (Bool-cases (p x)) [
    | inl fits ↦
        let same : x ≡ r = some-injective (rw fits at found) in
        rw (fits, same) (ground (arith, keep_it))
    | inr out ↦ rw out (ground (arith, count-replace_first-le p y r xs (rw out at found) keep_it))
  ]

  pub count-update_latest-le :
      (p : A → Bool) (f : A → A) (xs : List A)
      → ((x : A) → q (f x) ≡ false)
      → count q (update_latest p f xs) ≤ count q xs
  unfolding count update_latest
  count-update_latest-le p f [] out = omega arith
  count-update_latest-le p f (x ∷ xs) out = ground (arith, count-update_latest-le p f xs out, out x)

  pub count-update_latest :
      (f : A → A) (xs : List A)
      → ((x : A) → q (f x) ≡ false)
      → count q xs ≤ 1
      → count q (update_latest q f xs) ≡ 0
  unfolding count update_latest
  count-update_latest f [] out lone = refl
  count-update_latest f (x ∷ xs) out lone = elim (Bool-cases (any q xs)) [
    | inl later ↦ ground (arith, later, count_of_any xs later, count-update_latest f xs out, lone)
    | inr here ↦ ground (arith, here, any_of_count xs here, out x)
  ]
