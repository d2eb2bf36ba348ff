-- ===== src/Slug/Shape.antt =====
-- What a slug looks like: the shape that the two substitutions of app/utils/slugify.py leave.
use Prim.Native.Char.{Char}
use Prim.Native.String.{◌++◌ as ◌++s◌}
use nativ.Prelude.{
  ℕ, zero, suc, ◌≡◌, ap, ◌<◌, ◌/◌, ◌%◌, ◌∙◌, ltb→lt, ==_iff, refl, arith, String, Bool, true, false,
  not, ◌&&◌, ◌||◌, ◌==◌, ltb, if◌then◌else◌, inl, inr, Bool-cases,
}
use nativ.Text.{lower, is_empty}
use text.Mathlib.TextLemmas.{nil-append, cons-append}
use nativ.Slug.{is_alnum, is_dash, digit, emit, decimal, numbered, squeeze, ltrim, rtrim, base_of}

-- The rest of a slug after a character, which was alphanumeric or a dash: alphanumeric characters
-- and single dashes, and the last one is no dash.
abbrev pub fits : Bool → String → Bool
fits after_alnum String.[] = after_alnum
fits after_alnum (String.◌∷◌ c s) =
    if is_alnum c then fits true s else after_alnum && is_dash c && fits false s

-- `[a-z0-9]+(-[a-z0-9]+)*`
abbrev pub IsSlug : String → Type 0
IsSlug s = fits false s ≡ true

-- as `fits`, but the last character may be a dash
abbrev single : Bool → String → Bool
single after_alnum String.[] = true
single after_alnum (String.◌∷◌ c s) =
    if is_alnum c then single true s else after_alnum && is_dash c && single false s

dash-not_alnum : (c : Char) → is_dash c ≡ true → is_alnum c ≡ false
dash-not_alnum c h = ground arith

squeeze-single : (in_run : Bool) (s : String) → single (not in_run) (squeeze in_run s) ≡ true
unfolding squeeze
squeeze-single in_run String.[] = refl
squeeze-single true (String.◌∷◌ c s) = ground (arith, squeeze-single false s, squeeze-single true s)
squeeze-single false (String.◌∷◌ c s) = elim (Bool-cases (is_alnum c)) [
  | inl yes_alnum ↦ rw (yes_alnum, yes_alnum) (squeeze-single false s)
  | inr no_alnum ↦ rw no_alnum (squeeze-single true s)
]

ltrim-single : (after : Bool) (s : String) → single after s ≡ true → single false (ltrim s) ≡ true
unfolding ltrim
ltrim-single after String.[] h = refl
ltrim-single after (String.◌∷◌ c s) h = ground (arith, dash-not_alnum c, ltrim-single false s)

fits-empty : (s : String) → is_empty s ≡ true → fits true s ≡ true
fits-empty String.[] h = refl
fits-empty (String.◌∷◌ c s) h = cc

rtrim-fits :
    (after : Bool) (s : String)
    → single after s ≡ true
    → is_empty (rtrim s) || fits after (rtrim s) ≡ true
unfolding rtrim
rtrim-fits after String.[] h = refl
rtrim-fits after (String.◌∷◌ c s) h =
    ground (arith, dash-not_alnum c, fits-empty (rtrim s), rtrim-fits true s, rtrim-fits false s)

pub base_of-IsSlug : (s : String) → is_empty (base_of s) ≡ false → IsSlug (base_of s)
unfolding base_of
base_of-IsSlug s h = ground (
  arith,
  rtrim-fits false (ltrim (squeeze false (lower s))),
  ltrim-single true (squeeze false (lower s)),
  squeeze-single false (lower s),
)

fits-append :
    (after : Bool) (s t : String) → fits after s ≡ true → fits after (s ++s t) ≡ fits true t
fits-append after String.[] t h = rw (nil-append, h)
fits-append after (String.◌∷◌ c s) t h = elim (Bool-cases (is_alnum c)) [
  | inl is_in ↦ rw (cons-append, is_in) (fits-append true s t (ground arith))
  | inr is_out ↦ rw (cons-append, is_out) (ground (arith, fits-append false s t))
]

alnum_below : ℕ → Bool
unfolding digit
alnum_below zero = true
alnum_below (suc n) = is_alnum (digit n) && alnum_below n

alnum_below_sound : (n : ℕ) → alnum_below n ≡ true → (d : ℕ) → d < n → is_alnum (digit d) ≡ true
unfolding alnum_below
alnum_below_sound zero h d lt = absurd (omega arith)
alnum_below_sound (suc n) h d lt = elim (Bool-cases (d == n)) [
  | inl same ↦ rw ((==_iff d n).0 same) (ground arith)
  | inr other ↦ alnum_below_sound n (ground arith) d (ground arith)
]

is_alnum-digit : (d : ℕ) → d < 10 → is_alnum (digit d) ≡ true
unfolding alnum_below
is_alnum-digit d h = alnum_below_sound 10 refl d h

emit-fits :
    (rounds n : ℕ) (out : String)
    → n < rounds
    → fits true out ≡ true
    → fits false (emit rounds n out) ≡ true
unfolding emit
emit-fits zero n out h f = absurd (omega arith)
emit-fits (suc rounds) n out h f = elim (Bool-cases (ltb n 10)) [
  | inl last ↦ rw (last, is_alnum-digit n (ltb→lt n 10 last), f)
  | inr more ↦ rw more (
      emit-fits rounds (n / 10) (String.◌∷◌ (digit (n % 10)) out) (ground arith)
        (rw (is_alnum-digit (n % 10) (omega arith), f)))
]

pub numbered-IsSlug : (base : String) (n : ℕ) → IsSlug base → IsSlug (numbered base n)
unfolding numbered decimal
numbered-IsSlug base n h =
    fits-append false base ("-" ++s decimal n) h
    ∙ ap (fits true) (cons-append "-" String.[] (decimal n))
    ∙ ap (fits false) (nil-append (decimal n))
    ∙ emit-fits (suc n) n String.[] (omega arith) refl
