-- ===== src/Enrichment/Dedupe/Linkedin.antt =====
-- No two keepers of the merge have one LinkedIn address.
use nativ.Prelude.{
  ℕ, zero, suc, ◌≡◌, ◌≢◌, refl, sym, subst, ap, ◌∙◌, arith, String, Bool, false, not, ◌&&◌, Option,
  none, some, List, [], ◌∷◌, ◌++◌, length, if◌then◌else◌, ◌=s◌, ◌==◌, eq_refl, eq_iff, Bool-cases,
  ==_iff, ◌⊎◌, inl, inr,
}
use nativ.Text.{lower, strip}
use nativ.Enrichment.Dedupe.{
  Person, Key, by_linkedin, same_key, Book, look_up, or_none, key_text, email_domain, found_under,
  or_else_position, linkedin_key, name_key, email_key, match_of, prefer, is_given, merge_into,
  get_elem?, set, entry, given_key, registered, opened, merge_at, place, take_in, take_all, run,
}

get_elem?-set_self :
    (ps : List Person) (i : ℕ) (p q : Person)
    → get_elem? ps i ≡ some p
    → get_elem? (set ps i q) i ≡ some q
unfolding get_elem? set
get_elem?-set_self [] i p q h = cc
get_elem?-set_self (x ∷ ps) zero p q h = refl
get_elem?-set_self (x ∷ ps) (suc i) p q h = get_elem?-set_self ps i p q h

get_elem?-set_other :
    (ps : List Person) (i j : ℕ) (q : Person) → i ≢ j → get_elem? (set ps i q) j ≡ get_elem? ps j
unfolding get_elem? set
get_elem?-set_other [] i j q ne = refl
get_elem?-set_other (x ∷ ps) zero zero q ne = absurd (ne refl)
get_elem?-set_other (x ∷ ps) zero (suc j) q ne = refl
get_elem?-set_other (x ∷ ps) (suc i) zero q ne = refl
get_elem?-set_other (x ∷ ps) (suc i) (suc j) q ne =
    get_elem?-set_other ps i j q (λ e. ne (ap suc e))

apart : (i j : ℕ) → (i == j) ≡ false → i ≢ j
apart i j differ e = cc (differ, (==_iff i j).1 e)

-- An entry of a person: the position holds a person with that LinkedIn address.
abbrev linkedin_of : Person → Option String
linkedin_of p = key_text p.linkedin_url

-- Every keeper with an address is the one that the index has under it.
abbrev IsIndexed : Book → Type 0
IsIndexed b =
    (i : ℕ) (p : Person) (k : String)
    → get_elem? b.keepers i ≡ some p
    → linkedin_of p ≡ some k
    → look_up (by_linkedin k) b.index ≡ some i

get_elem?-append :
    (ps : List Person) (c p : Person) (i : ℕ)
    → get_elem? (ps ++ c ∷ []) i ≡ some p
    → (get_elem? ps i ≡ some p) ⊎ ((i ≡ length ps) × (c ≡ p))
unfolding get_elem?
get_elem?-append [] c p zero h = inr (refl, cc)
get_elem?-append [] c p (suc i) h = cc
get_elem?-append (x ∷ ps) c p zero h = inl h
get_elem?-append (x ∷ ps) c p (suc i) h = elim (get_elem?-append ps c p i h) [
  | inl old ↦ inl old
  | inr (at_end, same) ↦ inr (omega (arith, at_end), same)
]

-- whether a key is that of a LinkedIn address
hits : String → Option Key → Bool
unfolding same_key
hits k none = false
hits k (some x) = same_key x (by_linkedin k)

some-injective {ℓ} : {A : Type ℓ} {x y : A} → ◌≡◌ {A = Option A} (some x) (some y) → x ≡ y
some-injective h = cc

blank_key : (s k : String) → s ≡ "" → key_text (some s) ≡ some k → ⊥
unfolding key_text or_none lower strip
blank_key s k empty h = cc (subst (λ t. key_text (some t) ≡ some k) empty h)

-- Two readings of a text as a key: they differ on a blank text only.
given_key-key_text : (u : Option String) (k : String) → key_text u ≡ some k → given_key u ≡ some k
unfolding key_text given_key or_none
given_key-key_text none k h = cc
given_key-key_text (some s) k h = elim (Bool-cases (s =s "")) [
  | inl empty ↦ absurd (blank_key s k ((eq_iff s "").0 empty) h)
  | inr full ↦ rw full (ground (arith, h))
]

key_text-given_key :
    (u : Option String) (k : String)
    → given_key u ≡ some k
    → (k =s "") ≡ false
    → key_text u ≡ some k
unfolding key_text given_key or_none
key_text-given_key none k h full = cc
key_text-given_key (some s) k h full = ground (arith, h, full)

key_text_full : (u : Option String) (k : String) → key_text u ≡ some k → (k =s "") ≡ false
unfolding key_text or_none
key_text_full none k h = cc
key_text_full (some s) k h = ground (arith, h)

hits-email_key : (k : String) (o : Option String) → hits k (email_key o) ≡ false
unfolding hits email_key
hits-email_key k none = refl
hits-email_key k (some e) = refl

hits-name_key : (k name : String) (o : Option String) → hits k (name_key name o) ≡ false
unfolding hits name_key
hits-name_key k name none = refl
hits-name_key k name (some e) = refl

look_up-entry :
    (k : String) (key : Option Key) (i : ℕ) (es : List (Key × ℕ))
    → look_up (by_linkedin k) (entry key i es)
      ≡ (if hits k key then some i else look_up (by_linkedin k) es)
unfolding look_up entry hits
look_up-entry k none i es = refl
look_up-entry k (some x) i es = refl

-- The three entries of a person, as a look-up of a LinkedIn address sees them.
look_up-entries :
    (k name : String) (l d e : Option String) (i : ℕ) (es : List (Key × ℕ))
    → look_up
        (by_linkedin k)
        (entry (email_key e) i (entry (name_key name d) i (entry (linkedin_key l) i es)))
      ≡ (if hits k (linkedin_key l) then some i else look_up (by_linkedin k) es)
look_up-entries k name l d e i es =
    rw (look_up-entry, hits-email_key, look_up-entry, hits-name_key, look_up-entry) refl

-- A key that the person has is found under its position; any other, where it was.
look_up_own :
    (k : String) (l : Option String) (i : ℕ) (o : Option ℕ)
    → l ≡ some k
    → (if hits k (linkedin_key l) then some i else o) ≡ some i
unfolding hits linkedin_key
look_up_own k l i o h = rw (h, eq_refl) refl

look_up_foreign :
    (k : String) (l : Option String) (i j : ℕ) (o : Option ℕ)
    → o ≡ some j
    → (l ≡ some k → ⊥)
    → (if hits k (linkedin_key l) then some i else o) ≡ some j
unfolding hits linkedin_key
look_up_foreign k none i j o found ne = found
look_up_foreign k (some g) i j o found ne = elim (Bool-cases (g =s k)) [
  | inl same ↦ absurd (ne (ap some ((eq_iff g k).0 same)))
  | inr other ↦ rw other found
]

-- An address that the index has decides the match.
match_of-linkedin :
    (c : Person) (es : List (Key × ℕ)) (k : String) (j : ℕ)
    → key_text c.linkedin_url ≡ some k
    → look_up (by_linkedin k) es ≡ some j
    → match_of c es ≡ some j
unfolding match_of found_under linkedin_key or_else_position
match_of-linkedin c es k j has_key found = rw (has_key, found) refl

IsIndexed-opened :
    (c : Person) (b : Book) → IsIndexed b → match_of c b.index ≡ none → IsIndexed (place c b none)
unfolding place opened match_of found_under linkedin_key or_else_position
IsIndexed-opened c b inv new i p k at_i has_key = elim (get_elem?-append b.keepers c p i at_i) [
  | inl old ↦
      look_up-entries k c.name (key_text c.linkedin_url) (email_domain c.email_address)
        (key_text c.email_address) (length b.keepers) b.index
      ∙ look_up_foreign k (key_text c.linkedin_url) (length b.keepers) i
          (look_up (by_linkedin k) b.index) (inv i p k old has_key)
          λ same. cc (match_of-linkedin c b.index k i same (inv i p k old has_key), new)
  | inr (at_end, same) ↦
      look_up-entries k c.name (key_text c.linkedin_url) (email_domain c.email_address)
        (key_text c.email_address) (length b.keepers) b.index
      ∙ look_up_own k (key_text c.linkedin_url) (length b.keepers) (look_up (by_linkedin k) b.index)
          (rw same has_key)
      ∙ ap some (sym at_end)
]

-- The address of a merge comes from one of the two.
merge_into-linkedin :
    (p c : Person) (k : String)
    → given_key (merge_into p c).linkedin_url ≡ some k
    → (given_key p.linkedin_url ≡ some k) ⊎ (given_key c.linkedin_url ≡ some k)
unfolding merge_into prefer
merge_into-linkedin p c k h =
    elim (Bool-cases (not (is_given p.linkedin_url) && is_given c.linkedin_url)) [
      | inl taken ↦ inr (ground (arith, taken, h))
      | inr kept ↦ inl (ground (arith, kept, h))
    ]

module _ (c p : Person) (i : ℕ) (b : Book) (inv : IsIndexed b)
    (at_i : get_elem? b.keepers i ≡ some p) (chosen : match_of c b.index ≡ some i) where
  -- Another keeper's address is not the merged one.
  foreign :
      (j : ℕ) (q : Person) (k : String)
      → i ≢ j
      → get_elem? b.keepers j ≡ some q
      → linkedin_of q ≡ some k
      → given_key (merge_into p c).linkedin_url ≡ some k
      → ⊥
  foreign j q k ne at_j has_key same =
      let full = key_text_full q.linkedin_url k has_key in
      let found = inv j q k at_j has_key in
      elim (merge_into-linkedin p c k same) [
        | inl mine ↦ ne (
            some-injective
              (sym (inv i p k at_i (key_text-given_key p.linkedin_url k mine full)) ∙ found))
        | inr given ↦ ne (
            some-injective (
              sym chosen
              ∙ match_of-linkedin c b.index k j (key_text-given_key c.linkedin_url k given full)
                  found))
      ]

  -- The merged keeper is found under its address, and every other keeper under its own.
  merged_here :
      (q : Person) (k : String)
      → get_elem? (set b.keepers i (merge_into p c)) i ≡ some q
      → linkedin_of q ≡ some k
      → look_up (by_linkedin k) (registered (merge_into p c) i b.index) ≡ some i
  unfolding registered
  merged_here q k at_j has_key =
      look_up-entries k (merge_into p c).name (given_key (merge_into p c).linkedin_url)
        (email_domain (merge_into p c).email_address) (given_key (merge_into p c).email_address) i
        b.index
      ∙ look_up_own k (given_key (merge_into p c).linkedin_url) i (look_up (by_linkedin k) b.index)
          (given_key-key_text (merge_into p c).linkedin_url k (
            ap linkedin_of
              (some-injective (sym (get_elem?-set_self b.keepers i p (merge_into p c) at_i) ∙ at_j))
            ∙ has_key))

  merged_there :
      (j : ℕ) (q : Person) (k : String)
      → i ≢ j
      → get_elem? b.keepers j ≡ some q
      → linkedin_of q ≡ some k
      → look_up (by_linkedin k) (registered (merge_into p c) i b.index) ≡ some j
  unfolding registered
  merged_there j q k ne at_j has_key =
      look_up-entries k (merge_into p c).name (given_key (merge_into p c).linkedin_url)
        (email_domain (merge_into p c).email_address) (given_key (merge_into p c).email_address) i
        b.index
      ∙ look_up_foreign k (given_key (merge_into p c).linkedin_url) i j
          (look_up (by_linkedin k) b.index) (inv j q k at_j has_key) (foreign j q k ne at_j has_key)

  IsIndexed-merged : IsIndexed (merge_at c i b (some p))
  unfolding merge_at
  IsIndexed-merged j q k at_j has_key = elim (Bool-cases (i == j)) [
    | inl here ↦
        let same = (==_iff i j).0 here in
        merged_here q k
          (subst (λ n. get_elem? (set b.keepers i (merge_into p c)) n ≡ some q) (sym same) at_j)
          has_key
        ∙ ap some same
    | inr there ↦
        merged_there j q k (apart i j there)
          (sym (get_elem?-set_other b.keepers i j (merge_into p c) (apart i j there)) ∙ at_j)
          has_key
  ]

IsIndexed-merge_at :
    (c : Person) (i : ℕ) (b : Book) (o : Option Person)
    → IsIndexed b
    → get_elem? b.keepers i ≡ o
    → match_of c b.index ≡ some i
    → IsIndexed (merge_at c i b o)
unfolding merge_at
IsIndexed-merge_at c i b none inv at_i chosen = inv
IsIndexed-merge_at c i b (some p) inv at_i chosen = IsIndexed-merged c p i b inv at_i chosen

IsIndexed-place :
    (c : Person) (b : Book) (o : Option ℕ)
    → IsIndexed b
    → match_of c b.index ≡ o
    → IsIndexed (place c b o)
unfolding place
IsIndexed-place c b none inv new = IsIndexed-opened c b inv new
IsIndexed-place c b (some i) inv chosen =
    IsIndexed-merge_at c i b (get_elem? b.keepers i) inv refl chosen

IsIndexed-take_all : (cs : List Person) (b : Book) → IsIndexed b → IsIndexed (take_all cs b)
unfolding take_all take_in
IsIndexed-take_all [] b inv = inv
IsIndexed-take_all (c ∷ cs) b inv =
    IsIndexed-take_all cs (take_in c b) (IsIndexed-place c b (match_of c b.index) inv refl)

IsIndexed-empty : IsIndexed (record { keepers = []; index = [] })
unfolding get_elem?
IsIndexed-empty i p k found has_key = cc (found)

-- Two positions of the merged list whose contacts have the same LinkedIn address, read without the blanks
-- around it and in lower case, are one position.
pub run-linkedin_unique :
    (cs : List Person) (i j : ℕ) (p q : Person) (k : String)
    → get_elem? (run cs) i ≡ some p
    → get_elem? (run cs) j ≡ some q
    → key_text p.linkedin_url ≡ some k
    → key_text q.linkedin_url ≡ some k
    → i ≡ j
unfolding run
run-linkedin_unique cs i j p q k at_i at_j p_has q_has =
    let inv = IsIndexed-take_all cs (record { keepers = []; index = [] }) IsIndexed-empty in
    some-injective (sym (inv i p k at_i p_has) ∙ inv j q k at_j q_has)
