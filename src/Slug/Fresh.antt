-- ===== src/Slug/Fresh.antt =====
-- The loop of app/utils/slugify.py over `-2`, `-3`, …: it ends, on a slug that nobody has.
use nativ.Prelude.{
  ℕ, zero, suc, ◌+◌, ◌≤◌, ◌<◌, ◌≡◌, ◌≢◌, refl, arith, String, true, false, Option, none, some, List,
  [], ◌∷◌, any, length, ok, if◌then◌else◌, Bool-cases, inl, inr, ◌=s◌, eq_iff,
}
use nativ.Text.{is_empty, strip}
use nativ.Slug.{taken, numbered, next_free, unique, slugify, base_of}
use nativ.Slug.Decimal.{numbered-injective}
use nativ.Slug.Shape.{IsSlug, base_of-IsSlug, numbered-IsSlug}

-- `existing - {s}`
without : String → List String → List String
without s [] = []
without s (x ∷ xs) = let rest = without s xs in if x =s s then rest else x ∷ rest

length-without-le : (s : String) (xs : List String) → length (without s xs) ≤ length xs
unfolding without
length-without-le s [] = omega arith
length-without-le s (x ∷ xs) = ground (arith, length-without-le s xs)

length-without :
    (s : String) (xs : List String) → taken s xs ≡ true → length (without s xs) < length xs
unfolding without any
length-without s [] h = cc
length-without s (x ∷ xs) h = ground (arith, length-without s xs, length-without-le s xs)

-- A slug other than the removed one stays.
taken-without :
    (s t : String) (xs : List String) → s ≢ t → taken t xs ≡ true → taken t (without s xs) ≡ true
unfolding without any
taken-without s t [] ne h = cc
taken-without s t (x ∷ xs) ne h = ground (arith, taken-without s t xs ne, eq_iff x s, eq_iff x t)

-- More rounds than there are slugs left to meet.
next_free_found :
    (rounds : ℕ) (base : String) (existing pool : List String) (n : ℕ)
    → length pool < rounds
    → ((m : ℕ)
        → n ≤ m
        → taken (numbered base m) existing ≡ true
        → taken (numbered base m) pool ≡ true)
    → (m : ℕ) × (next_free rounds base existing n ≡ some (numbered base m))
      × (taken (numbered base m) existing ≡ false)
unfolding next_free
next_free_found zero base existing pool n room inside = absurd (omega arith)
next_free_found (suc rounds) base existing pool n room inside =
    elim (Bool-cases (taken (numbered base n) existing)) [
      | inr free ↦ (n, rw free, free)
      | inl held ↦ rw held (
          next_free_found rounds base existing (without (numbered base n) pool) (n + 1)
            (omega (arith, length-without (numbered base n) pool (inside n (omega arith) held)))
            λ m after there.
              taken-without (numbered base n) (numbered base m) pool
                (λ same. absurd (omega (arith, numbered-injective base n m same)))
                (inside m (omega arith) there))
    ]

-- the slug is none of those that the caller gave
abbrev pub IsFree : String → Option (List String) → Type 0
IsFree s none = Unit
IsFree s (some existing) = taken s existing ≡ false

unique_found :
    (base : String) (existing : Option (List String))
    → IsSlug base
    → (s : String) × (unique base existing ≡ ok s) × IsSlug s × IsFree s existing
unfolding unique
unique_found base none shape = (base, refl, shape, tt)
unique_found base (some existing) shape = elim (Bool-cases (taken base existing)) [
  | inr free ↦ (base, rw free, shape, free)
  | inl held ↦
      let (m, found, free) =
        next_free_found (suc (length existing)) base existing existing 2 (omega arith)
          (λ m after there. there) in
      (numbered base m, rw (held, found), numbered-IsSlug base m shape, free)
]

-- `slugify` returns on every text that is not blank and whose base is not empty, also where it has
-- to count: the rounds are enough. The result consists of runs of lower-case letters and digits
-- with single dashes between them, and is none of the slugs that the caller gave.
pub slugify_returns :
    (fold : String → String) (text : String) (existing : Option (List String))
    → is_empty (strip text) ≡ false
    → is_empty (base_of (fold text)) ≡ false
    → (s : String) × (slugify fold text existing ≡ ok s) × IsSlug s × IsFree s existing
unfolding slugify
slugify_returns fold text existing visible base =
    let (s, returned, shape, free) =
      unique_found (base_of (fold text)) existing (base_of-IsSlug (fold text) base) in
    (s, rw (visible, base, returned), shape, free)
