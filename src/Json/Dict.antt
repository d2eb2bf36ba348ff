-- ===== src/Json/Dict.antt =====
-- The laws of the dictionary operations of Json.
use nativ.Prelude.{
  String, ◌≡◌, refl, false, none, some, arith, if◌then◌else◌, ◌=s◌, eq_iff, eq_refl, ap, Bool-cases,
  inl, inr,
}
use nativ.Json.{Json, Items, Fields, end, field, nil, cons, get, put, has, append}

pub get-put :
    (k j : String) (v : Json) (m : Fields)
    → get j (put k v m) ≡ (if k =s j then some v else get j m)
unfolding get put
get-put k j v end = refl
get-put k j v (field i w m) = ground (arith, eq_iff k j, eq_iff i k, eq_iff i j, get-put k j v m)

pub has-get : (k : String) (m : Fields) → has k m ≡ false → get k m ≡ none
unfolding get has
has-get k end h = refl
has-get k (field j w m) h = ground (arith, has-get k m)

pub append_assoc : (xs ys zs : Items) → append (append xs ys) zs ≡ append xs (append ys zs)
unfolding append
append_assoc nil ys zs = refl
append_assoc (cons x xs) ys zs = λ i. cons x (append_assoc xs ys zs i)

pub append-nil : (xs : Items) → append xs nil ≡ xs
unfolding append
append-nil nil = refl
append-nil (cons x xs) = λ i. cons x (append-nil xs i)

pub get-put_self : (k : String) (v : Json) (m : Fields) → get k (put k v m) ≡ some v
get-put_self k v m = rw (get-put, eq_refl) refl

pub get-put_ne :
    (k j : String) (v : Json) (m : Fields) → (k =s j) ≡ false → get j (put k v m) ≡ get j m
get-put_ne k j v m h = rw (get-put, h) refl

pub put-put : (k : String) (v w : Json) (m : Fields) → put k v (put k w m) ≡ put k v m
unfolding put
put-put k v w end = rw eq_refl refl
put-put k v w (field j x m) = elim (Bool-cases (j =s k)) [
  | inl e ↦ rw (e, e) refl
  | inr n ↦ rw (n, n) (ap (field j x) (put-put k v w m))
]
