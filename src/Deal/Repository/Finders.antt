-- ===== src/Deal/Repository/Finders.antt =====
-- What the two pipeline scanners return, and when they return nothing.
use nativ.Prelude.{
  ℕ, zero, suc, ◌≤◌, String, ◌≡◌, refl, ap, ◌∙◌, Bool, true, false, ◌&&◌, Option, List, [], ◌∷◌,
  ◌++◌, arith, length, take, keep, All,
}
use nativ.Deal.Row.{Deal}
use nativ.Deal.Repository.Scanners.{
  awaits_archive, archive_gates_met, find_ready_for_archive, awaits_prep_pack, enqueue_stale,
  find_ready_for_prep_pack,
}

module _ {ℓ} {A : Type ℓ} where
  take_all : (n : ℕ) (xs : List A) → length xs ≤ n → take n xs ≡ xs
  take_all zero [] h = refl
  take_all zero (x ∷ xs) h = elim h [ ]
  take_all (suc n) [] h = refl
  take_all (suc n) (x ∷ xs) h = ap (λ l. x ∷ l) (take_all n xs (omega arith))

  take_front : (n : ℕ) (xs ys : List A) → n ≤ length xs → take n (xs ++ ys) ≡ take n xs
  take_front zero xs ys h = refl
  take_front (suc n) [] ys h = elim h [ ]
  take_front (suc n) (x ∷ xs) ys h = ap (λ l. x ∷ l) (take_front n xs ys (omega arith))

  keep-keep : (p q : A → Bool) (xs : List A) → keep q (keep p xs) ≡ keep (λ x. p x && q x) xs
  unfolding keep
  keep-keep p q [] = refl
  keep-keep p q (x ∷ xs) = ground (arith, keep-keep p q xs)

  keep-append : (p : A → Bool) (xs ys : List A) → keep p (xs ++ ys) ≡ keep p xs ++ keep p ys
  unfolding keep
  keep-append p [] ys = refl
  keep-append p (x ∷ xs) ys = ground (arith, keep-append p xs ys)

  keep-All : (p : A → Bool) (xs : List A) → All (λ x. p x ≡ true) xs → keep p xs ≡ xs
  unfolding keep
  keep-All p [] h = refl
  keep-All p (x ∷ xs) h = rw h.0 (ap (λ l. x ∷ l) (keep-All p xs h.1))

  keep-take_none :
      (q : A → Bool) (n : ℕ) (xs : List A) → All (λ x. q x ≡ false) xs → keep q (take n xs) ≡ []
  unfolding keep
  keep-take_none q zero xs h = refl
  keep-take_none q (suc n) [] h = refl
  keep-take_none q (suc n) (x ∷ xs) h = rw h.0 (keep-take_none q n xs h.1)

-- While no more deals than the limit wait at the reporting step, the scanner returns exactly the
-- waiting deals whose three gates are set.
find_ready_for_archive_exact :
    (agency : String) (limit : ℕ) (rows : List Deal)
    → length (keep (awaits_archive agency) rows) ≤ limit
    → find_ready_for_archive agency limit rows
      ≡ keep (λ d. awaits_archive agency d && archive_gates_met d.doc) rows
unfolding find_ready_for_archive
find_ready_for_archive_exact agency limit rows h =
    ap (keep (λ d. archive_gates_met d.doc)) (take_all limit _ h)
    ∙ keep-keep (awaits_archive agency) (λ d. archive_gates_met d.doc) rows

-- Where the oldest rows fill the limit with waiting deals whose gates are not set, the scanner
-- returns nothing, whatever deals are ready behind them.
find_ready_for_archive_starves :
    (agency : String) (limit : ℕ) (front back : List Deal)
    → All (λ d. awaits_archive agency d ≡ true) front
    → All (λ d. archive_gates_met d.doc ≡ false) front
    → limit ≤ length front
    → find_ready_for_archive agency limit (front ++ back) ≡ []
unfolding find_ready_for_archive
find_ready_for_archive_starves agency limit front back waits unmet h =
    rw (keep-append, keep-All (awaits_archive agency) front waits, take_front limit front _ h)
      (keep-take_none (λ d. archive_gates_met d.doc) limit front unmet)

-- While no more deals than the limit wait for a prep pack, the scanner returns exactly the waiting
-- deals whose debounce stamp is stale.
find_ready_for_prep_pack_exact :
    (parse_iso : String → Option ℕ) (now : ℕ) (agency : String) (limit : ℕ) (rows : List Deal)
    → length (keep (awaits_prep_pack agency) rows) ≤ limit
    → find_ready_for_prep_pack parse_iso now agency limit rows
      ≡ keep (λ d. awaits_prep_pack agency d && enqueue_stale parse_iso now d.doc) rows
unfolding find_ready_for_prep_pack
find_ready_for_prep_pack_exact parse_iso now agency limit rows h =
    ap (keep (λ d. enqueue_stale parse_iso now d.doc)) (take_all limit _ h)
    ∙ keep-keep (awaits_prep_pack agency) (λ d. enqueue_stale parse_iso now d.doc) rows
