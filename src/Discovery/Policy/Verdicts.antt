-- ===== src/Discovery/Policy/Verdicts.antt =====
-- The filter against what the preferences say of a candidate.
use Prim.Native.String.{◌++◌ as ◌++s◌}
use nativ.Prelude.{
  ℕ, zero, suc, ◌+◌, ◌≤◌, ◌≡◌, refl, ap, String, Bool, true, false, not, ◌&&◌, Option, none, some,
  List, [], ◌∷◌, ◌++◌, arith, ◌⊎◌, inl, inr, Bool-cases, All, any, count, ◌=s◌, eq_iff, eq_refl,
}
use nativ.Prelude.Positions.{some-injective}
use nativ.Json.{Json, Items, Fields, null, bool, num, str, arr, obj, nil, cons, get, truthy}
use nativ.Discovery.Policy.{
  QualifiedCandidate, first_chars, ends_later, is_open_end, is_exclusivity_active,
  is_sensitive_industry, items_or_empty, texts_of, with_industry, active_industries, is_in, block,
  warn, blocked_industries, preferred_industries, active_exclusivity_industries, turn,
  apply_filters,
}
use nativ.Discovery.Policy.Exclusivity.{item_at, active_industries-is_in}

-- A text that a list of the preferences holds.
abbrev pub IsListed : String → Items → Type 0
IsListed i xs = (n : ℕ) × (item_at n xs ≡ some (str i))

IsListed-there : (i : String) (x : Json) (xs : Items) → IsListed i xs → IsListed i (cons x xs)
unfolding item_at
IsListed-there i x xs (n, h) = (suc n, h)

IsListed-texts_of : (i : String) (xs : Items) → is_in i (texts_of xs) ≡ true → IsListed i xs
unfolding texts_of is_in any item_at
IsListed-texts_of i nil h = cc (h)
IsListed-texts_of i (cons (str s) xs) h = elim (Bool-cases (s =s i)) [
  | inl same ↦ (0, ap (λ t. some (str t)) ((eq_iff s i).0 same))
  | inr other ↦ IsListed-there i (str s) xs (IsListed-texts_of i xs (rw other at h))
]
IsListed-texts_of i (cons null xs) h = IsListed-there i _ xs (IsListed-texts_of i xs h)
IsListed-texts_of i (cons (bool b) xs) h = IsListed-there i _ xs (IsListed-texts_of i xs h)
IsListed-texts_of i (cons (num n) xs) h = IsListed-there i _ xs (IsListed-texts_of i xs h)
IsListed-texts_of i (cons (arr ys) xs) h = IsListed-there i _ xs (IsListed-texts_of i xs h)
IsListed-texts_of i (cons (obj m) xs) h = IsListed-there i _ xs (IsListed-texts_of i xs h)

text_in : Json → List String → List String
text_in (str s) rest = s ∷ rest
text_in _ rest = rest

texts_of-text_in : (x : Json) (xs : Items) → texts_of (cons x xs) ≡ text_in x (texts_of xs)
unfolding texts_of text_in
texts_of-text_in (str s) xs = refl
texts_of-text_in _ xs = refl

is_in-text_in :
    (i : String) (x : Json) (rest : List String)
    → is_in i rest ≡ true
    → is_in i (text_in x rest) ≡ true
unfolding text_in is_in any
is_in-text_in i (str s) rest h = ground (arith, h)
is_in-text_in i _ rest h = h

is_in-listed : (i : String) (rest : List String) → is_in i (text_in (str i) rest) ≡ true
unfolding text_in is_in any
is_in-listed i rest = rw (eq_refl i) refl

texts_of-IsListed :
    (i : String) (n : ℕ) (xs : Items) → item_at n xs ≡ some (str i) → is_in i (texts_of xs) ≡ true
unfolding item_at
texts_of-IsListed i n nil h = cc
texts_of-IsListed i zero (cons x xs) h =
    rw (texts_of-text_in x xs, some-injective h) (is_in-listed i (texts_of xs))
texts_of-IsListed i (suc n) (cons x xs) h =
    rw (texts_of-text_in x xs) (is_in-text_in i x (texts_of xs) (texts_of-IsListed i n xs h))

no_member : (i : String) {P : Type 0} → is_in i [] ≡ true → P
unfolding is_in any
no_member i h = cc (h)

module _ (from_iso : String → Option ℕ) (today : ℕ) where
  -- An end that has not come: none is set, or the day that the text begins with is today or later.
  pub IsOpen : Option Json → Type 0
  IsOpen none = Unit
  IsOpen (some (str s)) =
      (s ≡ "") ⊎ ((d : ℕ) × (from_iso (first_chars 10 s) ≡ some d) × (today ≤ d))
  IsOpen (some v) = truthy v ≡ false

  day_of : (o : Option ℕ) → ends_later today o ≡ true → (d : ℕ) × (o ≡ some d) × (today ≤ d)
  unfolding ends_later
  day_of none h = cc (h)
  day_of (some d) h = (d, refl, ground (arith, h))

  falsy_of : (b : Bool) → not b ≡ true → b ≡ false
  falsy_of true h = cc (h)
  falsy_of false h = refl

  IsOpen-is_open_end : (o : Option Json) → is_open_end from_iso today o ≡ true → IsOpen o
  unfolding IsOpen is_open_end
  IsOpen-is_open_end none h = tt
  IsOpen-is_open_end (some (str s)) h = elim (Bool-cases (s =s "")) [
    | inl empty ↦ inl ((eq_iff s "").0 empty)
    | inr full ↦ inr (day_of (from_iso (first_chars 10 s)) (rw full at h))
  ]
  IsOpen-is_open_end (some v) h = falsy_of (truthy v) h

  is_open_end-IsOpen : (o : Option Json) → IsOpen o → is_open_end from_iso today o ≡ true
  unfolding IsOpen is_open_end ends_later
  is_open_end-IsOpen none h = refl
  is_open_end-IsOpen (some (str s)) (inl empty) = rw ((eq_iff s "").1 empty) refl
  is_open_end-IsOpen (some (str s)) (inr (d, read, later)) = elim (Bool-cases (s =s "")) [
    | inl empty ↦ rw empty refl
    | inr full ↦ rw (full, read) (ground arith)
  ]
  is_open_end-IsOpen (some v) h = rw h refl

  -- An entry of the exclusivities that is open and names the industry.
  abbrev pub IsExclusive : String → Items → Type 0
  IsExclusive i xs =
      (n : ℕ) × (entry : Fields) × (item_at n xs ≡ some (obj entry))
      × IsOpen (get "ends_on" entry)
      × (get "industry_id" entry ≡ some (str i))

  IsExclusive-there :
      (i : String) (x : Json) (xs : Items) → IsExclusive i xs → IsExclusive i (cons x xs)
  unfolding item_at
  IsExclusive-there i x xs (n, entry, h, still, named) = (suc n, entry, h, still, named)

  is_in-with_industry_cases :
      (i : String) (o : Option Json) (rest : List String)
      → is_in i (with_industry o rest) ≡ true
      → (o ≡ some (str i)) ⊎ (is_in i rest ≡ true)
  unfolding is_in any with_industry
  is_in-with_industry_cases i (some (str s)) rest h = elim (Bool-cases (s =s i)) [
    | inl same ↦ inl (ap (λ t. some (str t)) ((eq_iff s i).0 same))
    | inr other ↦ inr (rw other at h)
  ]
  is_in-with_industry_cases i none rest h = inr h
  is_in-with_industry_cases i (some _) rest h = inr h

  IsExclusive-active_industries :
      (i : String) (xs : Items)
      → is_in i (active_industries from_iso today xs) ≡ true
      → IsExclusive i xs
  unfolding active_industries item_at is_exclusivity_active
  IsExclusive-active_industries i nil h = no_member i h
  IsExclusive-active_industries i (cons (obj entry) xs) h =
      elim (Bool-cases (is_open_end from_iso today (get "ends_on" entry))) [
        | inl open_now ↦
            elim (is_in-with_industry_cases i (get "industry_id" entry)
              (active_industries from_iso today xs) (rw open_now at h)) [
                | inl named ↦
                    (0, entry, refl, IsOpen-is_open_end (get "ends_on" entry) open_now, named)
                | inr later ↦ IsExclusive-there i _ xs (IsExclusive-active_industries i xs later)
              ]
        | inr over ↦ IsExclusive-there i _ xs (IsExclusive-active_industries i xs (rw over at h))
      ]
  IsExclusive-active_industries i (cons x xs) h =
      IsExclusive-there i _ xs (IsExclusive-active_industries i xs h)

  active_industries-IsExclusive :
      (i : String) (xs : Items)
      → IsExclusive i xs
      → is_in i (active_industries from_iso today xs) ≡ true
  unfolding is_exclusivity_active
  active_industries-IsExclusive i xs (n, entry, h, still, named) =
      active_industries-is_in from_iso today entry i
        (is_open_end-IsOpen (get "ends_on" entry) still) named n xs h

module _ (from_iso : String → Option ℕ) (today : ℕ) (preferences : Fields)
    (do_not_recontact : List String) (industries : Fields) where
  abbrev IsBlockedIndustry : String → Type 0
  IsBlockedIndustry i = IsListed i (items_or_empty (get "blocked_industries" preferences))

  abbrev IsTaken : String → Type 0
  IsTaken i = IsExclusive from_iso today i (items_or_empty (get "active_exclusivities" preferences))

  -- A candidate that some rule of the preferences is against.
  abbrev pub IsBarred : QualifiedCandidate → Type 0
  IsBarred c =
      (is_in c.brand_id do_not_recontact ≡ true)
      ⊎ IsBlockedIndustry c.industry_id
      ⊎ IsTaken c.industry_id

  -- The mark of a rule that is against it.
  abbrev pub IsMarked : QualifiedCandidate → Type 0
  IsMarked c =
      (c.blocked ≡ true)
      × (((is_in c.brand_id do_not_recontact ≡ true)
            × (c.block_reason ≡ some "do_not_recontact flag on prior deal"))
          ⊎ (IsBlockedIndustry c.industry_id
              × (c.block_reason
                  ≡ some (("industry " ++s c.industry_id) ++s " in blocked_industries")))
          ⊎ (IsTaken c.industry_id
              × (c.block_reason ≡ some ("active exclusivity in " ++s c.industry_id))))

  -- A candidate of a sensitive industry has the warning, or the industry is one that the talent prefers.
  abbrev pub IsWarned : QualifiedCandidate → Type 0
  IsWarned c =
      (is_sensitive_industry industries c.industry_id ≡ false)
      ⊎ IsListed c.industry_id (items_or_empty (get "preferred_industries" preferences))
      ⊎ (is_in
            (("industry " ++s c.industry_id)
              ++s " is flagged sensitive; not in preferred_industries")
            c.warnings
          ≡ true)

  abbrev pub of_kind : (String → String → Bool) → QualifiedCandidate → Bool
  of_kind q c = q c.brand_id c.industry_id

  pub record IsSplit (cs kept refused : List QualifiedCandidate) : Type 0 where
    pub free : All (λ c. ¬ IsBarred c) kept
    pub warned : All IsWarned kept
    pub marked : All IsMarked refused
    pub conserved :
        (q : String → String → Bool)
        → count (of_kind q) kept + count (of_kind q) refused ≡ count (of_kind q) cs

  IsBarred-absurd :
      (c : QualifiedCandidate)
      → is_in c.brand_id do_not_recontact ≡ false
      → is_in c.industry_id (blocked_industries preferences) ≡ false
      → is_in c.industry_id (active_exclusivity_industries from_iso today preferences) ≡ false
      → ¬ IsBarred c
  unfolding blocked_industries active_exclusivity_industries
  IsBarred-absurd c dnr listed taken (inl h) = cc (h, dnr)
  IsBarred-absurd c dnr listed taken (inr (inl (n, h))) =
      cc (texts_of-IsListed c.industry_id n _ h, listed)
  IsBarred-absurd c dnr listed taken (inr (inr h)) =
      cc (active_industries-IsExclusive from_iso today c.industry_id _ h, taken)

  IsBlockedIndustry-of :
      (c : QualifiedCandidate)
      → is_in c.industry_id (blocked_industries preferences) ≡ true
      → IsBlockedIndustry c.industry_id
  unfolding blocked_industries
  IsBlockedIndustry-of c h = IsListed-texts_of c.industry_id _ h

  IsTaken-of :
      (c : QualifiedCandidate)
      → is_in c.industry_id (active_exclusivity_industries from_iso today preferences) ≡ true
      → IsTaken c.industry_id
  unfolding active_exclusivity_industries
  IsTaken-of c h = IsExclusive-active_industries from_iso today c.industry_id _ h

  abbrev needs_warning : QualifiedCandidate → Bool
  needs_warning c =
      is_sensitive_industry industries c.industry_id
      && not (is_in c.industry_id (preferred_industries preferences))

  IsBarred-warn : (b : Bool) (c : QualifiedCandidate) → ¬ IsBarred c → ¬ IsBarred (warn b c)
  unfolding warn
  IsBarred-warn true c free = free
  IsBarred-warn false c free = free

  of_kind-warn :
      (q : String → String → Bool) (b : Bool) (c : QualifiedCandidate)
      → of_kind q (warn b c) ≡ of_kind q c
  unfolding warn
  of_kind-warn q true c = refl
  of_kind-warn q false c = refl

  is_in-last : (s : String) (xs : List String) → is_in s (xs ++ s ∷ []) ≡ true
  unfolding is_in any
  is_in-last s [] = rw (eq_refl s) refl
  is_in-last s (x ∷ xs) = ground (arith, is_in-last s xs)

  IsListed-of :
      (c : QualifiedCandidate)
      → is_in c.industry_id (preferred_industries preferences) ≡ true
      → IsListed c.industry_id (items_or_empty (get "preferred_industries" preferences))
  unfolding preferred_industries
  IsListed-of c h = IsListed-texts_of c.industry_id _ h

  IsWarned-warn : (c : QualifiedCandidate) → IsWarned (warn (needs_warning c) c)
  unfolding warn
  IsWarned-warn c = elim (Bool-cases (is_sensitive_industry industries c.industry_id)) [
    | inr harmless ↦ rw harmless (inl harmless)
    | inl sensitive ↦ elim (Bool-cases (is_in c.industry_id (preferred_industries preferences))) [
      | inl wanted ↦ rw (sensitive, wanted) (inr (inl (IsListed-of c wanted)))
      | inr unwanted ↦ rw (sensitive, unwanted) (inr (inr (is_in-last _ c.warnings)))
    ]
  ]

  IsSplit-keep :
      (c : QualifiedCandidate) (cs kept refused : List QualifiedCandidate)
      → ¬ IsBarred c
      → IsSplit cs kept refused
      → IsSplit (c ∷ cs) (warn (needs_warning c) c ∷ kept) refused
  unfolding count
  IsSplit-keep c cs kept refused free s = record {
    free = (IsBarred-warn (needs_warning c) c free, s.free);
    warned = (IsWarned-warn c, s.warned);
    marked = s.marked;
    conserved = λ q. rw (of_kind-warn q (needs_warning c) c) (ground (arith, s.conserved q));
  }

  IsSplit-block :
      (reason : String) (c : QualifiedCandidate) (cs kept refused : List QualifiedCandidate)
      → IsMarked (block reason c)
      → IsSplit cs kept refused
      → IsSplit (c ∷ cs) kept (block reason c ∷ refused)
  unfolding count block
  IsSplit-block reason c cs kept refused why s = record {
    free = s.free;
    warned = s.warned;
    marked = (why, s.marked);
    conserved = λ q. ground (arith, s.conserved q);
  }

  IsSplit-turn :
      (c : QualifiedCandidate) (cs kept refused : List QualifiedCandidate)
      → IsSplit cs kept refused
      → let r = turn from_iso today preferences do_not_recontact industries c (kept, refused) in
        IsSplit (c ∷ cs) r.0 r.1
  unfolding turn block
  IsSplit-turn c cs kept refused s = elim (Bool-cases (is_in c.brand_id do_not_recontact)) [
    | inl dnr ↦ rw dnr (IsSplit-block _ c cs kept refused (refl, inl (dnr, refl)) s)
    | inr free ↦ elim (Bool-cases (is_in c.industry_id (blocked_industries preferences))) [
      | inl barred ↦
          rw (free, barred)
            (IsSplit-block _ c cs kept refused
              (refl, inr (inl (IsBlockedIndustry-of c barred, refl))) s)
      | inr fine ↦
          elim (Bool-cases
            (is_in c.industry_id (active_exclusivity_industries from_iso today preferences))) [
              | inl taken ↦
                  rw (free, fine, taken)
                    (IsSplit-block _ c cs kept refused (refl, inr (inr (IsTaken-of c taken, refl)))
                      s)
              | inr untaken ↦
                  rw (free, fine, untaken)
                    (IsSplit-keep c cs kept refused (IsBarred-absurd c free fine untaken) s)
            ]
    ]
  ]

  -- The filter keeps no candidate that a rule is against, and blocks no other, each marked with such a rule: a
  -- brand that must not be contacted again, an industry that the preferences list as blocked, or one that they
  -- name in an exclusivity whose end is not set or has not come. A candidate that is kept has the warning,
  -- unless its industry is not sensitive or is a preferred one. Kept and blocked together, there are as many
  -- candidates of each brand and industry as before.
  pub apply_filters-IsSplit :
      (cs : List QualifiedCandidate)
      → let r = apply_filters from_iso today preferences do_not_recontact industries cs in
        IsSplit cs r.0 r.1
  unfolding apply_filters count
  apply_filters-IsSplit [] = record { free = tt; warned = tt; marked = tt; conserved = λ q. refl }
  apply_filters-IsSplit (c ∷ cs) =
      IsSplit-turn c cs (apply_filters from_iso today preferences do_not_recontact industries cs).0
        (apply_filters from_iso today preferences do_not_recontact industries cs).1
        (apply_filters-IsSplit cs)
