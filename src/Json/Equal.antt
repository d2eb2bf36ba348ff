-- ===== src/Json/Equal.antt =====
-- Python's `==` on the values of a document: a dict is equal to one with the same items in any order,
-- and `True` and `False` are equal to 1 and 0.
use nativ.Prelude.{
  ℕ, ◌+◌, ◌≡◌, String, Bool, true, false, ◌&&◌, Option, none, some, ◌==◌, ◌=s◌, eq_refl,
}
use nativ.Json.{
  Json, Items, Fields, null, bool, num, str, arr, obj, nil, cons, end, field, get, has,
}

abbrev as_number : Bool → ℕ
as_number true = 1
as_number false = 0

abbrev size : Fields → ℕ
size end = 0
size (field k v m) = 1 + size m

abbrev value_at : Option Json → Json
value_at none = null
value_at (some v) = v

unfoldable mutual
  pub equals : Json → Json → Bool
  equals null null = true
  equals (bool b) (bool c) = as_number b == as_number c
  equals (bool b) (num n) = as_number b == n
  equals (num n) (bool b) = n == as_number b
  equals (num n) (num m) = n == m
  equals (str s) (str t) = s =s t
  equals (arr xs) (arr ys) = equal_items xs ys
  equals (obj m) (obj n) = size m == size n && all_in m n
  equals _ _ = false

  equal_items : Items → Items → Bool
  equal_items nil nil = true
  equal_items (cons x xs) (cons y ys) = equals x y && equal_items xs ys
  equal_items _ _ = false

  all_in : Fields → Fields → Bool
  all_in end n = true
  all_in (field k v m) n = has k n && equals v (value_at (get k n)) && all_in m n

-- `d.get(k) == e.get(k)`, where a missing key reads as None
unfoldable pub same_at : Option Json → Option Json → Bool
unfolding equals
same_at none none = true
same_at none (some v) = equals null v
same_at (some v) none = equals v null
same_at (some v) (some w) = equals v w

pub same_at-str : (s : String) → same_at (some (str s)) (some (str s)) ≡ true
unfolding same_at
same_at-str s = eq_refl s
