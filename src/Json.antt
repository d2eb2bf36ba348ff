-- ===== src/Json.antt =====
-- The JSON documents that the `data` columns hold, as Python sees them: a dict keeps its keys in the
-- order of insertion. Numbers are opaque to every function here, and are written as ℕ.
pub mod Dict
pub mod Merge
pub mod Equal
use nativ.Prelude.{ℕ, zero, suc, String, Bool, true, false, Option, none, some, if◌then◌else◌, ◌=s◌}
use Prim.Native.String

mutual
  pub data Json : Type 0 where
    null : Json
    bool : Bool → Json
    num : ℕ → Json
    str : String → Json
    arr : Items → Json
    obj : Fields → Json

  pub data Items : Type 0 where
    nil : Items
    cons : Json → Items → Items

  pub data Fields : Type 0 where
    end : Fields
    field : String → Json → Fields → Fields

-- `d.get(k)`, with `none` for a key that is not there
unfoldable pub get : String → Fields → Option Json
get k end = none
get k (field j v m) = if j =s k then some v else get k m

-- `d[k] = v`: in place if the key is there, else at the end
unfoldable pub put : String → Json → Fields → Fields
put k v end = field k v end
put k v (field j w m) = if j =s k then field j v m else field j w (put k v m)

-- `k in d`
unfoldable pub has : String → Fields → Bool
has k end = false
has k (field j w m) = if j =s k then true else has k m

-- Python's truth value of a JSON value
unfoldable pub truthy : Json → Bool
truthy null = false
truthy (bool b) = b
truthy (num zero) = false
truthy (num (suc n)) = true
truthy (str s) = if s =s "" then false else true
truthy (arr nil) = false
truthy (arr (cons x xs)) = true
truthy (obj end) = false
truthy (obj (field k v m)) = true

-- `bool(d.get(k))`
unfoldable pub truthy_at : Option Json → Bool
unfolding truthy
truthy_at none = false
truthy_at (some v) = truthy v

-- appending at the end of a list
unfoldable pub append : Items → Items → Items
append nil ys = ys
append (cons x xs) ys = cons x (append xs ys)
