-- ===== src/Deal/Repository/Patch.antt =====
-- What a PATCH can change, and what it cannot.
use nativ.Prelude.{
  String, ◌≡◌, refl, ap, ◌∙◌, subst, Bool, true, false, Option, none, some, List, arith, Result, ok,
  err, Result-cases, ok-injective, inl, inr, ◌=s◌, eq_iff, ◌≢◌, All, ◌||◌, Bool-cases,
}
use nativ.Json.{Json, Fields, obj, end, field, get, has}
use nativ.Json.Merge.{deep_merge, get-deep_merge_other}
use nativ.Deal.Errors.{DealError}
use nativ.Deal.Row.{Deal}
use nativ.Deal.Repository.{
  base_filter, get_by_id, save, allowed_data_key, allowed_fields, data_diff, validate_workflow_diff,
  patch_row, patch_valid, patch_found, patch_workflow_state,
}
use nativ.Deal.Repository.Table.{
  get_by_id_found, get_by_id-save_self, get_by_id-save_other, save-All, get_by_id-All,
}

has-allowed_fields :
    (k : String) (m : Fields) → allowed_data_key k ≡ false → has k (allowed_fields m) ≡ false
unfolding allowed_fields has
has-allowed_fields k end h = refl
has-allowed_fields k (field j v m) h = elim (Bool-cases (j =s k)) [
  | inl e ↦ rw (ap allowed_data_key ((eq_iff j k).0 e) ∙ h) (has-allowed_fields k m h)
  | inr n ↦ elim (Bool-cases (allowed_data_key j)) [
    | inl a ↦ rw (a, n) (has-allowed_fields k m h)
    | inr b ↦ rw b (has-allowed_fields k m h)
  ]
]

has-data_diff :
    (k : String) (o : Option Json) → allowed_data_key k ≡ false → has k (data_diff o) ≡ false
unfolding data_diff has
has-data_diff k none h = refl
has-data_diff k (some (obj m)) h = has-allowed_fields k m h
has-data_diff k (some v) h = refl

-- What every patch leaves alone: the state machine's columns, the identity and the owner, and each
-- key of the document that is not on the allow-list.
pub record IsProtected (d d' : Deal) : Type 0 where
  pub stage : d'.stage ≡ d.stage
  pub substage : d'.substage ≡ d.substage
  pub is_terminal : d'.is_terminal ≡ d.is_terminal
  pub is_won : d'.is_won ≡ d.is_won
  pub identity : (d'.deal_id ≡ d.deal_id) × (d'.agency_id ≡ d.agency_id)
  pub others : (k : String) → allowed_data_key k ≡ false → get k d'.doc ≡ get k d.doc

patch_row-IsProtected : (diff : Fields) (d : Deal) → IsProtected d (patch_row diff d)
unfolding patch_row
patch_row-IsProtected diff d = record {
  stage = refl;
  substage = refl;
  is_terminal = refl;
  is_won = refl;
  identity = (refl, refl);
  others = λ k h.
      get-deep_merge_other k d.doc (data_diff (get "data" diff))
        (has-data_diff k (get "data" diff) h);
}

base_filter-patch_row :
    (agency : String) (diff : Fields) (d : Deal)
    → base_filter agency (patch_row diff d) ≡ base_filter agency d
unfolding base_filter patch_row
base_filter-patch_row agency diff d = refl

deal_id-patch_row : (diff : Fields) (d : Deal) → (patch_row diff d).deal_id ≡ d.deal_id
unfolding patch_row
deal_id-patch_row diff d = refl

-- The outcome of a patch that returns the row `d'` and leaves the table `after`.
pub record IsPatched (agency pk : String) (rows : List Deal) (d' : Deal) (after : List Deal)
    : Type 0 where
  pub before : Deal
  pub found : get_by_id agency pk rows ≡ some before
  pub protected : IsProtected before d'
  pub stored : get_by_id agency pk after ≡ some d'
  pub elsewhere : (key : String) → pk ≢ key → get_by_id agency key after ≡ get_by_id agency key rows

save-IsPatched :
    (agency pk : String) (diff : Fields) (rows : List Deal) (d : Deal)
    → get_by_id agency pk rows ≡ some d
    → IsPatched agency pk rows (patch_row diff d) (save agency pk (patch_row diff d) rows)
save-IsPatched agency pk diff rows d h =
    let (key, filter) = get_by_id_found agency pk rows d h in
    let key' : ((patch_row diff d).deal_id =s pk) ≡ true = rw deal_id-patch_row key in
    record {
      before = d;
      found = h;
      protected = patch_row-IsProtected diff d;
      stored =
          get_by_id-save_self agency pk rows d (patch_row diff d) h key'
            (base_filter-patch_row agency diff d ∙ filter);
      elsewhere = λ k ne. get_by_id-save_other agency pk k rows (patch_row diff d) key' ne;
    }

patch_valid-IsPatched :
    (agency pk : String) (diff : Fields) (rows : List Deal) (d d' : Deal)
    (r : Result DealError (Unit {0}))
    → get_by_id agency pk rows ≡ some d
    → (patch_valid agency pk diff rows d r).0 ≡ ok d'
    → IsPatched agency pk rows d' (patch_valid agency pk diff rows d r).1
unfolding patch_valid
patch_valid-IsPatched agency pk diff rows d d' (err x) e h = cc
patch_valid-IsPatched agency pk diff rows d d' (ok done) e h =
    subst (λ y. IsPatched agency pk rows y (save agency pk (patch_row diff d) rows))
      (ok-injective h) (save-IsPatched agency pk diff rows d e)

patch_found-IsPatched :
    (agency pk : String) (diff : Fields) (rows : List Deal) (o : Option Deal) (d' : Deal)
    → get_by_id agency pk rows ≡ o
    → (patch_found agency pk diff rows o).0 ≡ ok d'
    → IsPatched agency pk rows d' (patch_found agency pk diff rows o).1
unfolding patch_found
patch_found-IsPatched agency pk diff rows none d' e h = cc
patch_found-IsPatched agency pk diff rows (some d) d' e h =
    patch_valid-IsPatched agency pk diff rows d d' (validate_workflow_diff diff) e h

-- A patch that returns has found the row and stored its new form, which differs from the old one in
-- nothing that is protected; every other row is found as before.
pub patch_workflow_state-IsPatched :
    (agency pk : String) (diff : Fields) (rows : List Deal) (d' : Deal)
    → (patch_workflow_state agency pk diff rows).0 ≡ ok d'
    → IsPatched agency pk rows d' (patch_workflow_state agency pk diff rows).1
unfolding patch_workflow_state
patch_workflow_state-IsPatched agency pk diff rows d' h =
    patch_found-IsPatched agency pk diff rows (get_by_id agency pk rows) d' refl h

patch_found_unchanged :
    (agency pk : String) (diff : Fields) (rows : List Deal) (o : Option Deal) (e : DealError)
    → (patch_found agency pk diff rows o).0 ≡ err e
    → (patch_found agency pk diff rows o).1 ≡ rows
unfolding patch_found
patch_found_unchanged agency pk diff rows none e h = refl
patch_found_unchanged agency pk diff rows (some d) e h =
    elim (Result-cases (validate_workflow_diff diff)) [
      | inl (x, bad) ↦ rw (bad, patch_valid)
      | inr (x, good) ↦ cc (rw (good, patch_valid) at h)
    ]

-- A patch that is refused leaves the table as it was.
pub patch_workflow_state_unchanged :
    (agency pk : String) (diff : Fields) (rows : List Deal) (e : DealError)
    → (patch_workflow_state agency pk diff rows).0 ≡ err e
    → (patch_workflow_state agency pk diff rows).1 ≡ rows
unfolding patch_workflow_state
patch_workflow_state_unchanged agency pk diff rows e h =
    patch_found_unchanged agency pk diff rows (get_by_id agency pk rows) e h

-- The five keys of a diff that a patch reads.
abbrev pub reads_key : String → Bool
reads_key k =
    k =s "data"
    || k =s "next_action_due_at"
    || k =s "expected_value_usd"
    || k =s "expected_close_date"
    || k =s "primary_contact_id"

-- A diff whose single key is not `data` nor one of the four columns that a patch may assign changes
-- nothing of the row.
patch_ignores :
    (k : String) (v : Json) (d : Deal) → reads_key k ≡ false → patch_row (field k v end) d ≡ d
unfolding patch_row get data_diff deep_merge
patch_ignores k v d h = ground (arith, h)

-- A predicate of rows that the writes of a patch keep holds of every row after the patch.
module _ (P : Deal → Type 0) (diff : Fields) (keeps : (d : Deal) → P d → P (patch_row diff d)) where
  patch_valid-All :
      (agency pk : String) (rows : List Deal) (d : Deal) (r : Result DealError (Unit {0}))
      → P d
      → All P rows
      → All P (patch_valid agency pk diff rows d r).1
  unfolding patch_valid
  patch_valid-All agency pk rows d (err e) v a = a
  patch_valid-All agency pk rows d (ok done) v a =
      save-All P agency pk (patch_row diff d) rows (keeps d v) a

  patch_found-All :
      (agency pk : String) (rows : List Deal) (o : Option Deal)
      → get_by_id agency pk rows ≡ o
      → All P rows
      → All P (patch_found agency pk diff rows o).1
  unfolding patch_found
  patch_found-All agency pk rows none e a = a
  patch_found-All agency pk rows (some d) e a =
      patch_valid-All agency pk rows d (validate_workflow_diff diff)
        (get_by_id-All P agency pk rows d a e) a

  pub patch_workflow_state-All :
      (agency pk : String) (rows : List Deal)
      → All P rows
      → All P (patch_workflow_state agency pk diff rows).1
  unfolding patch_workflow_state
  patch_workflow_state-All agency pk rows a =
      patch_found-All agency pk rows (get_by_id agency pk rows) refl a
