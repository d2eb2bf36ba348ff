-- ===== src/Text.antt =====
-- The methods of `str` that the services use to normalise text. They are Python's on ASCII text:
-- outside ASCII, `lower` and `strip` leave a character as it is.
use Prim.Native.Char.{Char, code}
use nativ.Prelude.{
  ℕ, zero, suc, ◌-◌, String, Bool, true, false, ◌&&◌, ◌||◌, leb, ◌==◌, if◌then◌else◌,
}

abbrev pub is_space : Char → Bool
is_space c =
    code c == 32 || (leb 9 (code c) && leb (code c) 13) || (leb 28 (code c) && leb (code c) 31)

-- the character at a position, or the default
unfoldable pub char_or : ℕ → String → Char → Char
char_or i String.[] d = d
char_or zero (String.◌∷◌ c s) d = c
char_or (suc i) (String.◌∷◌ c s) d = char_or i s d

unfoldable pub lower_char : Char → Char
unfolding char_or
lower_char c =
    if leb 65 (code c) && leb (code c) 90
    then char_or (code c - 65) "abcdefghijklmnopqrstuvwxyz" c
    else c

-- `s.lower()`
unfoldable pub lower : String → String
unfolding lower_char
lower String.[] = String.[]
lower (String.◌∷◌ c s) = String.◌∷◌ (lower_char c) (lower s)

unfoldable pub upper_char : Char → Char
unfolding char_or
upper_char c =
    if leb 97 (code c) && leb (code c) 122
    then char_or (code c - 97) "ABCDEFGHIJKLMNOPQRSTUVWXYZ" c
    else c

-- `s.upper()`
unfoldable pub upper : String → String
unfolding upper_char
upper String.[] = String.[]
upper (String.◌∷◌ c s) = String.◌∷◌ (upper_char c) (upper s)

unfoldable pub starts_with : String → String → Bool
starts_with String.[] s = true
starts_with (String.◌∷◌ c p) String.[] = false
starts_with (String.◌∷◌ c p) (String.◌∷◌ d s) = code c == code d && starts_with p s

-- `p in s`
unfoldable pub is_substring : String → String → Bool
unfolding starts_with
is_substring p String.[] = starts_with p String.[]
is_substring p (String.◌∷◌ c s) = starts_with p (String.◌∷◌ c s) || is_substring p s

unfoldable pub lstrip : String → String
lstrip String.[] = String.[]
lstrip (String.◌∷◌ c s) = let rest = lstrip s in if is_space c then rest else String.◌∷◌ c s

abbrev pub is_empty : String → Bool
is_empty String.[] = true
is_empty (String.◌∷◌ c s) = false

unfoldable pub rstrip : String → String
rstrip String.[] = String.[]
rstrip (String.◌∷◌ c s) =
    let rest = rstrip s in if is_space c && is_empty rest then String.[] else String.◌∷◌ c rest

-- `s.strip()`
unfoldable pub strip : String → String
unfolding lstrip rstrip
strip s = rstrip (lstrip s)
