-- ===== src/Enrichment/Dedupe/Sources.antt =====
-- The merge keeps the sources: none is lost, none is made up.
use nativ.Prelude.{
  ℕ, zero, suc, ◌<◌, ◌+◌, ◌≤◌, ◌≡◌, refl, ap, arith, Bool, Option, none, some, List, [], ◌∷◌, ◌++◌,
  length, if◌then◌else◌, Bool-cases, inl, inr,
}
use nativ.Json.{Json}
use nativ.Enrichment.Dedupe.{
  Person, Key, same_key, Book, look_up, found_under, or_else_position, linkedin_key, name_key,
  email_key, key_text, email_domain, match_of, merge_into, get_elem?, set, entry, given_key,
  registered, opened, merge_at, place, take_in, take_all, run,
}

module _ (f : Json → Bool) where
  -- how many of the sources pass a test
  unfoldable pub count : List Json → ℕ
  count [] = 0
  count (x ∷ xs) = if f x then suc (count xs) else count xs

  unfoldable pub tally : List Person → ℕ
  unfolding count
  tally [] = 0
  tally (p ∷ ps) = count p.sources + tally ps

  count-append : (xs ys : List Json) → count (xs ++ ys) ≡ count xs + count ys
  unfolding count
  count-append [] ys = omega arith
  count-append (x ∷ xs) ys = elim (Bool-cases (f x)) [
    | inl yes_it ↦ rw yes_it (omega (arith, count-append xs ys))
    | inr not_it ↦ rw not_it (count-append xs ys)
  ]

  tally-append : (ps : List Person) (c : Person) → tally (ps ++ c ∷ []) ≡ tally ps + count c.sources
  unfolding tally
  tally-append [] c = omega arith
  tally-append (p ∷ ps) c = omega (arith, tally-append ps c)

  count_same :
      (x p : Person) → ◌≡◌ {A = Option Person} (some x) (some p) → count x.sources ≡ count p.sources
  count_same x p h = cc

  tally-set :
      (ps : List Person) (i : ℕ) (p q : Person)
      → get_elem? ps i ≡ some p
      → tally (set ps i q) + count p.sources ≡ tally ps + count q.sources
  unfolding tally set get_elem?
  tally-set [] i p q h = cc
  tally-set (x ∷ ps) zero p q h = omega (arith, count_same x p h)
  tally-set (x ∷ ps) (suc i) p q h = omega (arith, tally-set ps i p q h)

length-append : (ps : List Person) (c : Person) → length (ps ++ c ∷ []) ≡ suc (length ps)
length-append [] c = refl
length-append (p ∷ ps) c = ap suc (length-append ps c)

length-set : (ps : List Person) (i : ℕ) (q : Person) → length (set ps i q) ≡ length ps
unfolding set
length-set [] i q = refl
length-set (p ∷ ps) zero q = refl
length-set (p ∷ ps) (suc i) q = ap suc (length-set ps i q)

-- Every entry is the position of a keeper.
abbrev IsWithin : ℕ → List (Key × ℕ) → Type 0
IsWithin n es = (k : Key) (i : ℕ) → look_up k es ≡ some i → i < n

IsWithin-entry :
    (n i : ℕ) (o : Option Key) (es : List (Key × ℕ))
    → i < n
    → IsWithin n es
    → IsWithin n (entry o i es)
unfolding entry look_up
IsWithin-entry n i none es h inv k j found = inv k j found
IsWithin-entry n i (some x) es h inv k j found = elim (Bool-cases (same_key x k)) [
  | inl here ↦ ground (arith, here, found, h)
  | inr there ↦ inv k j (ground (arith, there, found))
]

IsWithin-found_under :
    (n i : ℕ) (o : Option Key) (es : List (Key × ℕ))
    → IsWithin n es
    → found_under o es ≡ some i
    → i < n
unfolding found_under
IsWithin-found_under n i none es inv found = cc
IsWithin-found_under n i (some k) es inv found = inv k i found

-- Of two positions that are within, the one that is chosen is.
or_else_within :
    (n i : ℕ) (x y : Option ℕ)
    → ((j : ℕ) → x ≡ some j → j < n)
    → ((j : ℕ) → y ≡ some j → j < n)
    → or_else_position x y ≡ some i
    → i < n
unfolding or_else_position
or_else_within n i none y hx hy h = hy i h
or_else_within n i (some j) y hx hy h = hx i h

match_of-within :
    (n i : ℕ) (c : Person) (es : List (Key × ℕ)) → IsWithin n es → match_of c es ≡ some i → i < n
unfolding match_of
match_of-within n i c es inv =
    let l = linkedin_key (key_text c.linkedin_url) in
    let d = name_key c.name (email_domain c.email_address) in
    let e = email_key (key_text c.email_address) in
    or_else_within n i (found_under l es) (or_else_position (found_under d es) (found_under e es))
      (λ j. IsWithin-found_under n j l es inv)
      λ j.
        or_else_within n j (found_under d es) (found_under e es)
          (λ m. IsWithin-found_under n m d es inv) λ m. IsWithin-found_under n m e es inv

IsWithin-more : (n m : ℕ) (es : List (Key × ℕ)) → n ≤ m → IsWithin n es → IsWithin m es
IsWithin-more n m es le inv k i found = omega (arith, inv k i found, le)

IsWithin-entries :
    (n i : ℕ) (x y z : Option Key) (es : List (Key × ℕ))
    → i < n
    → IsWithin n es
    → IsWithin n (entry x i (entry y i (entry z i es)))
IsWithin-entries n i x y z es h inv =
    IsWithin-entry n i x (entry y i (entry z i es)) h
      (IsWithin-entry n i y (entry z i es) h (IsWithin-entry n i z es h inv))

abbrev IsSound : Book → Type 0
IsSound b = IsWithin (length b.keepers) b.index

elem_at : (ps : List Person) (i : ℕ) → i < length ps → (p : Person) × (get_elem? ps i ≡ some p)
unfolding get_elem?
elem_at [] i h = absurd (omega (arith, h))
elem_at (p ∷ ps) zero h = (p, refl)
elem_at (p ∷ ps) (suc i) h = elem_at ps i (omega (arith, h))

IsSound-merge_at :
    (c : Person) (i : ℕ) (b : Book) (o : Option Person)
    → i < length b.keepers
    → IsSound b
    → IsSound (merge_at c i b o)
unfolding merge_at registered
IsSound-merge_at c i b none h inv = inv
IsSound-merge_at c i b (some p) h inv =
    IsWithin-more (length b.keepers) (length (set b.keepers i (merge_into p c)))
      (registered (merge_into p c) i b.index)
      (omega (arith, length-set b.keepers i (merge_into p c)))
      (IsWithin-entries (length b.keepers) i (email_key (given_key (merge_into p c).email_address))
        (name_key (merge_into p c).name (email_domain (merge_into p c).email_address))
        (linkedin_key (given_key (merge_into p c).linkedin_url)) b.index h inv)

IsSound-place :
    (c : Person) (b : Book) (o : Option ℕ)
    → IsSound b
    → match_of c b.index ≡ o
    → IsSound (place c b o)
unfolding place opened
IsSound-place c b none inv new =
    IsWithin-entries (length (b.keepers ++ c ∷ [])) (length b.keepers)
      (email_key (key_text c.email_address)) (name_key c.name (email_domain c.email_address))
      (linkedin_key (key_text c.linkedin_url)) b.index (omega (arith, length-append b.keepers c))
      (IsWithin-more (length b.keepers) (length (b.keepers ++ c ∷ [])) b.index
        (omega (arith, length-append b.keepers c)) inv)
IsSound-place c b (some i) inv chosen =
    IsSound-merge_at c i b (get_elem? b.keepers i)
      (match_of-within (length b.keepers) i c b.index inv chosen) inv

count-merge_into :
    (f : Json → Bool) (p c : Person)
    → count f (merge_into p c).sources ≡ count f p.sources + count f c.sources
unfolding merge_into
count-merge_into f p c = count-append f p.sources c.sources

tally-merge_at :
    (f : Json → Bool) (c : Person) (i : ℕ) (b : Book) (p : Person)
    → get_elem? b.keepers i ≡ some p
    → tally f (merge_at c i b (some p)).keepers ≡ tally f b.keepers + count f c.sources
unfolding merge_at
tally-merge_at f c i b p at_i =
    omega (arith, tally-set f b.keepers i p (merge_into p c) at_i, count-merge_into f p c)

tally-place :
    (f : Json → Bool) (c : Person) (b : Book) (o : Option ℕ)
    → IsSound b
    → match_of c b.index ≡ o
    → tally f (place c b o).keepers ≡ tally f b.keepers + count f c.sources
unfolding place
tally-place f c b none inv new = tally-append f b.keepers c
tally-place f c b (some i) inv chosen =
    let (p, at_i) =
      elem_at b.keepers i (match_of-within (length b.keepers) i c b.index inv chosen) in
    rw at_i (tally-merge_at f c i b p at_i)

tally-take_all :
    (f : Json → Bool) (cs : List Person) (b : Book)
    → IsSound b
    → tally f (take_all cs b).keepers ≡ tally f b.keepers + tally f cs
unfolding take_all take_in tally
tally-take_all f [] b inv = omega arith
tally-take_all f (c ∷ cs) b inv = omega (
  arith,
  tally-take_all f cs (take_in c b) (IsSound-place c b (match_of c b.index) inv refl),
  tally-place f c b (match_of c b.index) inv refl,
)

IsSound-empty : IsSound (record { keepers = []; index = [] })
unfolding look_up
IsSound-empty k i found = cc (found)

-- Whatever test a source is put to, the merged contacts have as many sources that pass it as the contacts
-- of the input had.
pub tally-run : (f : Json → Bool) (cs : List Person) → tally f (run cs) ≡ tally f cs
unfolding run tally
tally-run f cs =
    omega (arith, tally-take_all f cs (record { keepers = []; index = [] }) IsSound-empty)
