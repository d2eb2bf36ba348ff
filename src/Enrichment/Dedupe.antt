-- ===== src/Enrichment/Dedupe.antt =====
-- app/services/contact_enrichment/step_8_dedupe_merge.py. A keeper is named by its position in the list of
-- keepers; the three dicts are one list of entries, whose keys say which dict they belong to, the latest
-- entry first. The contacts of the input are distinct objects.
pub mod Linkedin
pub mod Sources
use Prim.Native.Char.{code}
use Prim.Native.String
use nativ.Prelude.{
  ℕ, zero, suc, String, Bool, true, false, not, ◌&&◌, Option, none, some, List, [], ◌∷◌, ◌++◌,
  length, if◌then◌else◌, ◌=s◌, ◌==◌,
}
use nativ.Text.{lower, strip}
use nativ.Json.{Json, truthy}

-- `EnrichedContact`, as far as the step reads or writes it
pub record Person : Type 0 where
  pub name : String
  pub title : Option String
  pub seniority : Option String
  pub function : Option String
  pub linkedin_url : Option String
  pub email_address : Option String
  pub email_verification_status : Option String
  pub location : Option Json
  pub sources : List Json

pub data Key : Type 0 where
  by_linkedin : String → Key
  by_name_domain : String → String → Key
  by_email : String → Key

unfoldable pub same_key : Key → Key → Bool
same_key (by_linkedin a) (by_linkedin b) = a =s b
same_key (by_name_domain a d) (by_name_domain b e) = (a =s b) && (d =s e)
same_key (by_email a) (by_email b) = a =s b
same_key _ _ = false

pub record Book : Type 0 where
  pub keepers : List Person
  pub index : List (Key × ℕ)

unfoldable pub look_up : Key → List (Key × ℕ) → Option ℕ
look_up k [] = none
look_up k (e ∷ es) = if same_key e.0 k then some e.1 else look_up k es

-- `s or None`
or_none : String → Option String
or_none s = if s =s "" then none else some s

-- `(x or "").strip().lower() or None`
unfoldable pub key_text : Option String → Option String
unfolding or_none
key_text none = none
key_text (some s) = or_none (lower (strip s))

after_at : String → Option String
after_at String.[] = none
after_at (String.◌∷◌ c s) = let rest = after_at s in if code c == 64 then some s else rest

-- `_email_domain`
unfoldable pub email_domain : Option String → Option String
unfolding key_text after_at
email_domain none = none
email_domain (some s) = key_text (after_at s)

-- the entry that a dict has under a key that may be missing
found_under : Option Key → List (Key × ℕ) → Option ℕ
found_under none es = none
found_under (some k) es = look_up k es

or_else_position : Option ℕ → Option ℕ → Option ℕ
or_else_position none j = j
or_else_position (some i) j = some i

linkedin_key : Option String → Option Key
linkedin_key none = none
linkedin_key (some s) = some (by_linkedin s)

name_key : String → Option String → Option Key
name_key name none = none
name_key name (some d) = some (by_name_domain (lower (strip name)) d)

email_key : Option String → Option Key
email_key none = none
email_key (some s) = some (by_email s)

-- the identity lookup, in its order of precedence
match_of : Person → List (Key × ℕ) → Option ℕ
unfolding found_under linkedin_key name_key email_key or_else_position
match_of c es = or_else_position (found_under (linkedin_key (key_text c.linkedin_url)) es) (
    or_else_position (found_under (name_key c.name (email_domain c.email_address)) es)
      (found_under (email_key (key_text c.email_address)) es))

-- Python's truth value of a text that may be missing
is_given : Option String → Bool
is_given none = false
is_given (some s) = not (s =s "")

-- `if not x and y: x = y`
unfoldable pub prefer : Option String → Option String → Option String
unfolding is_given
prefer x y = if not (is_given x) && is_given y then y else x

is_place : Option Json → Bool
is_place none = false
is_place (some v) = truthy v

-- `_merge_into`
unfoldable pub merge_into : Person → Person → Person
unfolding prefer is_given is_place
merge_into p dup = record p {
  title = prefer p.title dup.title;
  seniority = prefer p.seniority dup.seniority;
  function = prefer p.function dup.function;
  linkedin_url = prefer p.linkedin_url dup.linkedin_url;
  email_address = prefer p.email_address dup.email_address;
  email_verification_status =
      if not (is_given p.email_address) && is_given dup.email_address
      then dup.email_verification_status
      else p.email_verification_status;
  location =
      if not (is_place p.location) && is_place dup.location then dup.location else p.location;
  sources = p.sources ++ dup.sources;
}

unfoldable pub get_elem? : List Person → ℕ → Option Person
get_elem? [] i = none
get_elem? (p ∷ ps) zero = some p
get_elem? (p ∷ ps) (suc i) = get_elem? ps i

unfoldable pub set : List Person → ℕ → Person → List Person
set [] i q = []
set (p ∷ ps) zero q = q ∷ ps
set (p ∷ ps) (suc i) q = p ∷ set ps i q

-- an assignment to a dict, where there is a key
entry : Option Key → ℕ → List (Key × ℕ) → List (Key × ℕ)
entry none i es = es
entry (some k) i es = (k, i) ∷ es

-- `if x: d[x.strip().lower()] = ...`: the key of a blank text is empty
given_key : Option String → Option String
given_key none = none
given_key (some s) = if s =s "" then none else some (lower (strip s))

-- the keys that a merge registers again
registered : Person → ℕ → List (Key × ℕ) → List (Key × ℕ)
unfolding entry given_key linkedin_key name_key email_key
registered p i es = entry (email_key (given_key p.email_address)) i (
    entry (name_key p.name (email_domain p.email_address)) i
      (entry (linkedin_key (given_key p.linkedin_url)) i es))

-- the keys of a new identity
opened : Person → ℕ → List (Key × ℕ) → List (Key × ℕ)
unfolding entry linkedin_key name_key email_key
opened c i es = entry (email_key (key_text c.email_address)) i (
    entry (name_key c.name (email_domain c.email_address)) i
      (entry (linkedin_key (key_text c.linkedin_url)) i es))

merge_at : Person → ℕ → Book → Option Person → Book
unfolding registered
merge_at c i b none = b
merge_at c i b (some p) = record {
  keepers = set b.keepers i (merge_into p c);
  index = registered (merge_into p c) i b.index;
}

place : Person → Book → Option ℕ → Book
unfolding merge_at opened
place c b none = record {
  keepers = b.keepers ++ c ∷ [];
  index = opened c (length b.keepers) b.index;
}
place c b (some i) = merge_at c i b (get_elem? b.keepers i)

-- one turn of the loop
take_in : Person → Book → Book
unfolding place match_of
take_in c b = place c b (match_of c b.index)

take_all : List Person → Book → Book
unfolding take_in
take_all [] b = b
take_all (c ∷ cs) b = take_all cs (take_in c b)

-- `run`
unfoldable pub run : List Person → List Person
unfolding take_all
run contacts = (take_all contacts (record { keepers = []; index = [] })).keepers
