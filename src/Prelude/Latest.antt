-- ===== src/Prelude/Latest.antt =====
-- The last item that passes a test, after a write.
use nativ.Prelude.{
  ◌≤◌, ◌≡◌, refl, sym, ap, ◌∙◌, Bool, true, false, none, some, List, [], ◌∷◌, ◌++◌, latest,
  update_latest, first, replace_first, count, any, Bool-cases, Option-cases, inl, inr, arith,
  if◌then◌else◌,
}
use nativ.Prelude.Counting.{count_of_any}
use nativ.Prelude.Positions.{some-injective}

module _ {ℓ} {A : Type ℓ} (p : A → Bool) where
  pub latest-append_one :
      (xs : List A) (y : A) → latest p (xs ++ y ∷ []) ≡ (if p y then some y else latest p xs)
  unfolding latest
  latest-append_one [] y = refl
  latest-append_one (x ∷ xs) y = elim (Bool-cases (p y)) [
    | inl fits ↦ rw (latest-append_one xs y, fits) refl
    | inr out ↦ rw (latest-append_one xs y, out) refl
  ]

  latest-out : (x : A) (xs : List A) → p x ≡ false → latest p (x ∷ xs) ≡ latest p xs
  unfolding latest
  latest-out x xs out = elim (Option-cases (latest p xs)) [
    | inl nothing ↦ rw (nothing, out) refl
    | inr (y, found) ↦ rw found refl
  ]

  latest-cong :
      (x : A) (xs ys : List A) → latest p xs ≡ latest p ys → latest p (x ∷ xs) ≡ latest p (x ∷ ys)
  unfolding latest
  latest-cong x xs ys same = rw same refl

  pub latest-none : (xs : List A) → any p xs ≡ false → latest p xs ≡ none
  unfolding latest any
  latest-none [] h = refl
  latest-none (x ∷ xs) h = elim (Bool-cases (p x)) [
    | inl fits ↦ cc (rw fits at h)
    | inr out ↦ latest-out x xs out ∙ latest-none xs (rw out at h)
  ]

  -- What is found passes the test, and is there.
  pub latest-passes : (xs : List A) (r : A) → latest p xs ≡ some r → p r ≡ true
  unfolding latest
  latest-passes [] r h = cc (h)
  latest-passes (x ∷ xs) r h = elim (Option-cases (latest p xs)) [
    | inl nothing ↦ elim (Bool-cases (p x)) [
      | inl fits ↦ ap p (sym (some-injective (rw (nothing, fits) at h))) ∙ fits
      | inr out ↦ cc (rw (nothing, out) at h)
    ]
    | inr (y, found) ↦ latest-passes xs r (rw found (rw found at h))
  ]

  pub latest-update_latest :
      (q : A → Bool) (f : A → A) (xs : List A)
      → ((x : A) → q x ≡ true → p x ≡ false)
      → ((x : A) → p (f x) ≡ false)
      → latest p (update_latest q f xs) ≡ latest p xs
  unfolding latest update_latest
  latest-update_latest q f [] apart out = refl
  latest-update_latest q f (x ∷ xs) apart out = elim (Bool-cases (any q xs)) [
    | inl later ↦
        rw later (latest-cong x (update_latest q f xs) xs (latest-update_latest q f xs apart out))
    | inr here ↦ elim (Bool-cases (q x)) [
      | inl fits ↦
          rw (here, fits) (latest-out (f x) xs (out x) ∙ sym (latest-out x xs (apart x fits)))
      | inr unfit ↦ rw (here, unfit) refl
    ]
  ]

  -- A write that puts no item that passes for none that does.
  pub latest-replace_first_other :
      (s : A → Bool) (y r : A) (xs : List A)
      → first s xs ≡ some r
      → p r ≡ false
      → p y ≡ false
      → latest p (replace_first s y xs) ≡ latest p xs
  unfolding latest first replace_first
  latest-replace_first_other s y r [] found gone out = cc
  latest-replace_first_other s y r (x ∷ xs) found gone out = elim (Bool-cases (s x)) [
    | inl fits ↦ rw fits (
        latest-out y xs out
        ∙ sym (latest-out x xs (ap p (some-injective (rw fits at found)) ∙ gone)))
    | inr miss ↦ rw miss (
        latest-cong x (replace_first s y xs) xs
          (latest-replace_first_other s y r xs (rw miss at found) gone out))
  ]

  latest-append_front :
      (y : A) (xs : List A) → any p xs ≡ false → latest p (y ∷ xs) ≡ (if p y then some y else none)
  unfolding latest
  latest-append_front y xs alone = rw (latest-none xs alone) refl

  count_out : (x : A) (xs : List A) → p x ≡ false → count p (x ∷ xs) ≤ 1 → count p xs ≤ 1
  unfolding count
  count_out x xs out lone = rw out at lone

  alone_of : (x : A) (xs : List A) → p x ≡ true → count p (x ∷ xs) ≤ 1 → any p xs ≡ false
  unfolding count
  alone_of x xs fits lone = elim (Bool-cases (any p xs)) [
    | inl more ↦ absurd (omega (arith, count_of_any p xs more, rw fits at lone))
    | inr none_left ↦ none_left
  ]

  passes_of :
      (s : A → Bool) (xs : List A) (r : A) → first s xs ≡ some r → p r ≡ true → 1 ≤ count p xs
  unfolding first count
  passes_of s [] r found fits = cc (found)
  passes_of s (x ∷ xs) r found fits = elim (Bool-cases (s x)) [
    | inl hit ↦ rw (ap p (some-injective (rw hit at found)) ∙ fits) (omega arith)
    | inr miss ↦ ground (arith, passes_of s xs r (rw miss at found) fits)
  ]

  out_of :
      (s : A → Bool) (x : A) (xs : List A) (r : A)
      → first s xs ≡ some r
      → p r ≡ true
      → count p (x ∷ xs) ≤ 1
      → p x ≡ false
  unfolding count
  out_of s x xs r found fits lone = elim (Bool-cases (p x)) [
    | inl too ↦ absurd (omega (arith, passes_of s xs r found fits, rw too at lone))
    | inr out ↦ out
  ]

  -- A write to the one item that passes.
  pub latest-replace_first :
      (s : A → Bool) (y r : A) (xs : List A)
      → first s xs ≡ some r
      → p r ≡ true
      → count p xs ≤ 1
      → latest p (replace_first s y xs) ≡ (if p y then some y else none)
  unfolding first replace_first
  latest-replace_first s y r [] found fits lone = cc (found)
  latest-replace_first s y r (x ∷ xs) found fits lone = elim (Bool-cases (s x)) [
    | inl hit ↦
        let here : p x ≡ true = ap p (some-injective (rw hit at found)) ∙ fits in
        rw hit (latest-append_front y xs (alone_of x xs here lone))
    | inr miss ↦
        let out : p x ≡ false = out_of s x xs r (rw miss at found) fits lone in
        rw miss (
          latest-out x (replace_first s y xs) out
          ∙ latest-replace_first s y r xs (rw miss at found) fits (count_out x xs out lone))
  ]

  -- What is found counts for every test that it passes.
  found_counts :
      (s : A → Bool) (xs : List A) (r : A) → latest p xs ≡ some r → s r ≡ true → 1 ≤ count s xs
  unfolding latest count
  found_counts s [] r found fits = cc (found)
  found_counts s (x ∷ xs) r found fits = elim (Option-cases (latest p xs)) [
    | inl nothing ↦ elim (Bool-cases (p x)) [
      | inl here ↦ rw (ap s (some-injective (rw (nothing, here) at found)) ∙ fits) (omega arith)
      | inr out ↦ cc (rw (nothing, out) at found)
    ]
    | inr (y, later) ↦ ground (arith, found_counts s xs r (later ∙ rw later at found) fits)
  ]

  -- A test that one item passes finds what a search finds.
  pub first_of_latest :
      (s : A → Bool) (xs : List A) (r : A)
      → latest p xs ≡ some r
      → s r ≡ true
      → count s xs ≤ 1
      → first s xs ≡ some r
  unfolding latest first count
  first_of_latest s [] r found fits lone = cc (found)
  first_of_latest s (x ∷ xs) r found fits lone = elim (Option-cases (latest p xs)) [
    | inl nothing ↦ elim (Bool-cases (p x)) [
      | inl here ↦
          let same : x ≡ r = some-injective (rw (nothing, here) at found) in
          rw (ap s same ∙ fits) (ap some same)
      | inr out ↦ cc (rw (nothing, out) at found)
    ]
    | inr (y, later) ↦
        let deep : latest p xs ≡ some r = later ∙ rw later at found in
        elim (Bool-cases (s x)) [
          | inl too ↦ absurd (omega (arith, found_counts s xs r deep fits, rw too at lone))
          | inr out ↦ rw out (first_of_latest s xs r deep fits (rw out at lone))
        ]
  ]
