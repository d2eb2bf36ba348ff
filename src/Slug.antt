-- ===== src/Slug.antt =====
-- app/utils/slugify.py. `fold` is the part that `unicodedata` and the ASCII codec do: the NFKD form of a
-- text without what is not ASCII. A set of slugs is the list of its elements.
pub mod Shape
pub mod Decimal
pub mod Fresh
use Prim.Native.Char.{Char, code}
use Prim.Native.String
use Prim.Native.String.{◌++◌ as ◌++s◌}
use nativ.Prelude.{
  ℕ, zero, suc, ◌+◌, ◌/◌, ◌%◌, String, Bool, true, false, not, ◌&&◌, ◌||◌, Option, none, some, List,
  [], ◌∷◌, any, length, Result, ok, err, ◌==◌, leb, ltb, if◌then◌else◌, ◌=s◌,
}
use nativ.Text.{char_or, lower, strip, is_empty}

abbrev pub is_alnum : Char → Bool
is_alnum c = (leb 48 (code c) && leb (code c) 57) || (leb 97 (code c) && leb (code c) 122)

abbrev pub is_dash : Char → Bool
is_dash c = code c == 45

-- `_NON_ALNUM.sub("-", s)`; the flag says that the character before belonged to a run
squeeze : Bool → String → String
squeeze in_run String.[] = String.[]
squeeze in_run (String.◌∷◌ c s) =
    let rest = squeeze (not (is_alnum c)) s in
    if is_alnum c then String.◌∷◌ c rest else if in_run then rest else String.◌∷◌ "-" rest

-- `_LEADING_TRAILING_DASH.sub("", s)`
ltrim : String → String
ltrim String.[] = String.[]
ltrim (String.◌∷◌ c s) = let rest = ltrim s in if is_dash c then rest else String.◌∷◌ c s

rtrim : String → String
rtrim String.[] = String.[]
rtrim (String.◌∷◌ c s) =
    let rest = rtrim s in if is_dash c && is_empty rest then String.[] else String.◌∷◌ c rest

unfoldable pub base_of : String → String
unfolding squeeze ltrim rtrim lower
base_of s = rtrim (ltrim (squeeze false (lower s)))

-- `str(n)`, by rounds of division; `n + 1` rounds are enough
unfoldable pub digit : ℕ → Char
unfolding char_or
digit d = char_or d "0123456789" "0"

emit : ℕ → ℕ → String → String
emit zero n out = out
emit (suc rounds) n out =
    let more = emit rounds (n / 10) (String.◌∷◌ (digit (n % 10)) out) in
    if ltb n 10 then String.◌∷◌ (digit n) out else more

unfoldable pub decimal : ℕ → String
unfolding emit
decimal n = emit (suc n) n String.[]

pub numbered : String → ℕ → String
unfolding decimal
numbered base n = base ++s "-" ++s decimal n

abbrev pub taken : String → List String → Bool
taken s existing = any (λ x. x =s s) existing

-- the loop over `n`: `none` stands for rounds that ran out
next_free : ℕ → String → List String → ℕ → Option String
unfolding numbered
next_free zero base existing n = none
next_free (suc rounds) base existing n =
    let rest = next_free rounds base existing (n + 1) in
    if taken (numbered base n) existing then rest else some (numbered base n)

pub data SlugError : Type 0 where
  -- the two `ValueError`s
  blank : SlugError
  empty_slug : String → SlugError
  -- the rounds of the model ran out
  no_number : SlugError

number_of : Option String → Result SlugError String
number_of none = err no_number
number_of (some s) = ok s

-- the part after the test of the base: one round more than there are slugs
unique : String → Option (List String) → Result SlugError String
unfolding number_of next_free
unique base none = ok base
unique base (some existing) =
    if taken base existing
    then number_of (next_free (suc (length existing)) base existing 2)
    else ok base

unfoldable pub slugify : (String → String) → String → Option (List String) → Result SlugError String
unfolding unique base_of
slugify fold text existing =
    if is_empty (strip text)
    then err blank
    else if is_empty (base_of (fold text))
    then err (empty_slug text)
    else unique (base_of (fold text)) existing

or_unknown : Result SlugError String → String
or_unknown (ok s) = s
or_unknown (err e) = "unknown"

unfoldable pub slugify_brand_name : (String → String) → String → String
unfolding or_unknown
slugify_brand_name fold name = or_unknown (slugify fold name none)
