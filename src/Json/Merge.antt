-- ===== src/Json/Merge.antt =====
-- `_deep_merge` of app/repositories: lists replace, dicts merge. The deal, the enrollment and the
-- contact repository each have a copy of it.
use nativ.Prelude.{
  String, ◌≡◌, refl, ap, subst, ◌∙◌, false, Option, none, some, arith, ◌=s◌, eq_iff, Bool-cases,
  inl, inr,
}
use nativ.Json.{Json, Fields, obj, end, field, get, put, has}
use nativ.Json.Dict.{get-put_self, get-put_ne}

unfoldable mutual
  pub deep_merge : Fields → Fields → Fields
  deep_merge base end = base
  deep_merge base (field k v rest) = deep_merge (put k (merge_value (get k base) v) base) rest

  -- the branch on `isinstance(..., dict)`
  pub merge_value : Option Json → Json → Json
  merge_value (some (obj b)) (obj d) = obj (deep_merge b d)
  merge_value _ v = v

-- A key that the diff does not name keeps its value.
pub get-deep_merge_other :
    (k : String) (base diff : Fields)
    → has k diff ≡ false
    → get k (deep_merge base diff) ≡ get k base
unfolding deep_merge has
get-deep_merge_other k base end h = refl
get-deep_merge_other k base (field j v rest) h =
    get-deep_merge_other k (put j (merge_value (get j base) v) base) rest (ground arith)
    ∙ get-put_ne j k _ base (ground arith)

-- The keys of a dict are different from each other.
abbrev pub IsDict : Fields → Type 0
IsDict end = Unit
IsDict (field k v m) = (has k m ≡ false) × IsDict m

-- what the merge leaves under a key
abbrev pub merged : Option Json → Option Json → Option Json
merged old none = old
merged old (some v) = some (merge_value old v)

-- A merge of a diff whose keys are different from each other acts key by key: a key of the diff gets
-- the merged value, any other keeps its own.
pub get-deep_merge :
    (k : String) (base diff : Fields)
    → IsDict diff
    → get k (deep_merge base diff) ≡ merged (get k base) (get k diff)
unfolding deep_merge get
get-deep_merge k base end d = refl
get-deep_merge k base (field j v rest) d = elim (Bool-cases (j =s k)) [
  | inl e ↦ rw e (
      subst
        (λ i.
          get i (deep_merge (put j (merge_value (get j base) v) base) rest)
          ≡ some (merge_value (get i base) v))
        ((eq_iff j k).0 e) (get-deep_merge_other j _ rest d.0 ∙ get-put_self j _ base))
  | inr n ↦ rw n (
      get-deep_merge k (put j (merge_value (get j base) v) base) rest d.1
      ∙ ap (λ o. merged o (get k rest)) (get-put_ne j k _ base n))
]
