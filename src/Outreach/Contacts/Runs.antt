-- ===== src/Outreach/Contacts/Runs.antt =====
-- An enrichment run respects the opt-out of a contact and keeps its history of pitches.
use nativ.Prelude.{
  String, ◌≡◌, refl, ap, subst, ◌∙◌, Bool, true, false, Option, none, some, List, [], ◌∷◌, ◌++◌,
  arith, All, any, ok, ok-injective, ◌=s◌, eq_iff, ◌⊎◌, Bool-cases, Option-cases, Result-cases, inl,
  inr,
}
use nativ.Json.{Json, Items, Fields, bool, arr, obj, end, field, get, put, has}
use nativ.Json.Merge.{deep_merge, merge_value, get-deep_merge, IsDict, merged}
use nativ.Outreach.Rows.{Contact}
use nativ.Outreach.Contacts.{
  is_contact, find_contact, write_contact, sync_flag, set_scalar_columns, workflow_key, select,
  enrichment_key, fresh_contact, refreshed, is_brand_contact, key_of, insert_contact, upsert_found,
  upsert_one, upsert_run_batch,
}

has-select :
    (p : String → Bool) (k : String) (m : Fields) → has k m ≡ false → has k (select p m) ≡ false
unfolding select has
has-select p k end h = refl
has-select p k (field j v m) h = ground (arith, has-select p k m)

select-IsDict : (p : String → Bool) (m : Fields) → IsDict m → IsDict (select p m)
unfolding select
select-IsDict p end d = tt
select-IsDict p (field k v m) d = elim (Bool-cases (p k)) [
  | inl yes_key ↦ rw yes_key (has-select p k m d.0, select-IsDict p m d.1)
  | inr no_key ↦ rw no_key (select-IsDict p m d.1)
]

get-select :
    (p : String → Bool) (k : String) (m : Fields) → p k ≡ true → get k (select p m) ≡ get k m
unfolding select get
get-select p k end h = refl
get-select p k (field j v m) h = ground (arith, eq_iff j k, get-select p k m h)

has-put :
    (j k : String) (v : Json) (m : Fields)
    → has j m ≡ false
    → (k =s j) ≡ false
    → has j (put k v m) ≡ false
unfolding has put
has-put j k v end h n = rw n refl
has-put j k v (field i w m) h n = ground (arith, has-put j k v m)

put-IsDict : (k : String) (v : Json) (m : Fields) → IsDict m → IsDict (put k v m)
unfolding put has
put-IsDict k v end d = (refl, tt)
put-IsDict k v (field j w m) d = elim (Bool-cases (j =s k)) [
  | inl same_key ↦ rw same_key d
  | inr other_key ↦
      rw other_key
        (has-put j k v m d.0 (ground (arith, eq_iff j k, eq_iff k j)), put-IsDict k v m d.1)
]

deep_merge-IsDict : (diff base : Fields) → IsDict base → IsDict (deep_merge base diff)
unfolding deep_merge
deep_merge-IsDict end base d = d
deep_merge-IsDict (field k v rest) base d =
    deep_merge-IsDict rest (put k (merge_value (get k base) v) base)
      (put-IsDict k (merge_value (get k base) v) base d)

pub merge_value-flag : (o : Option Json) (b : Bool) → merge_value o (bool b) ≡ bool b
unfolding merge_value
merge_value-flag none b = refl
merge_value-flag (some (obj m)) b = refl
merge_value-flag (some _) b = refl

pub merge_value-list : (o : Option Json) (xs : Items) → merge_value o (arr xs) ≡ arr xs
unfolding merge_value
merge_value-list none xs = refl
merge_value-list (some (obj m)) xs = refl
merge_value-list (some _) xs = refl

-- A contact that has opted out, with the list of its pitches.
pub record IsOptedOut (pitches : Items) (c : Contact) : Type 0 where
  pub column : c.do_not_contact ≡ true
  pub flag : get "do_not_contact" c.doc ≡ some (bool true)
  pub history : get "pitch_history" c.doc ≡ some (arr pitches)
  pub dict : IsDict c.doc

-- The contact is found, and has opted out.
abbrev pub StaysOut : String → String → Items → List Contact → Type 0
StaysOut agency key pitches rows =
    (c : Contact) × (find_contact agency key rows ≡ some c) × IsOptedOut pitches c

module _ (repr : Json → String) where
  -- A key of the workflow state, through the merge of a run.
  kept_key :
      (payload : Fields) (k : String) (v : Json) (c : Contact)
      → IsDict c.doc
      → workflow_key k ≡ true
      → get k c.doc ≡ some v
      → get k (deep_merge (select enrichment_key payload) (select workflow_key c.doc))
        ≡ some (merge_value (get k (select enrichment_key payload)) v)
  kept_key payload k v c d w e =
      get-deep_merge k (select enrichment_key payload) (select workflow_key c.doc)
        (select-IsDict workflow_key c.doc d)
      ∙ ap (merged (get k (select enrichment_key payload))) (get-select workflow_key k c.doc w ∙ e)

  refreshed-IsOptedOut :
      (pitches : Items) (payload : Fields) (c : Contact)
      → IsDict payload
      → IsOptedOut pitches c
      → IsOptedOut pitches (refreshed repr payload c)
  unfolding refreshed set_scalar_columns sync_flag workflow_key
  refreshed-IsOptedOut pitches payload c d o =
      let base = select enrichment_key payload in
      let flag_kept =
        kept_key payload "do_not_contact" (bool true) c o.dict refl o.flag
        ∙ ap some (merge_value-flag (get "do_not_contact" base) true) in
      record {
        column = ap (λ v. sync_flag v c.do_not_contact) flag_kept;
        flag = flag_kept;
        history =
            kept_key payload "pitch_history" (arr pitches) c o.dict refl o.history
            ∙ ap some (merge_value-list (get "pitch_history" base) pitches);
        dict =
            deep_merge-IsDict (select workflow_key c.doc) base
              (select-IsDict enrichment_key payload d);
      }

  refreshed_key :
      (agency key : String) (payload : Fields) (c : Contact)
      → is_contact agency key (refreshed repr payload c) ≡ is_contact agency key c
  unfolding refreshed set_scalar_columns is_contact
  refreshed_key agency key payload c = refl

  -- A contact that is found stays found: as it was, or in its new form.
  find_contact-write :
      (agency brand pk key : String) (payload : Fields) (rows : List Contact) (c : Contact)
      → find_contact agency key rows ≡ some c
      → let after =
          find_contact agency key
            (write_contact (is_brand_contact agency brand pk) (refreshed repr payload) rows) in
        (after ≡ some c) ⊎ (after ≡ some (refreshed repr payload c))
  unfolding find_contact write_contact
  find_contact-write agency brand pk key payload [] c h = cc
  find_contact-write agency brand pk key payload (x ∷ rows) c h =
      elim (Bool-cases (is_contact agency key x)) [
        | inl hit ↦ elim (Bool-cases (is_brand_contact agency brand pk x)) [
          | inl written ↦ inr (ground (arith, hit, written, h, refreshed_key agency key payload x))
          | inr not_written ↦ inl (ground (arith, hit, not_written, h))
        ]
        | inr miss ↦ elim (Bool-cases (is_brand_contact agency brand pk x)) [
          | inl written ↦ inl (ground (arith, miss, written, h, refreshed_key agency key payload x))
          | inr not_written ↦
              rw (not_written, miss)
                (find_contact-write agency brand pk key payload rows c (ground (arith, miss, h)))
        ]
      ]

  find_contact-append :
      (agency key : String) (rows : List Contact) (x c : Contact)
      → find_contact agency key rows ≡ some c
      → find_contact agency key (rows ++ x ∷ []) ≡ some c
  unfolding find_contact
  find_contact-append agency key [] x c h = cc
  find_contact-append agency key (y ∷ rows) x c h =
      ground (arith, h, find_contact-append agency key rows x c)

  upsert_found-StaysOut :
      (agency brand pk key : String) (pitches : Items) (payload : Fields)
      (rows after : List Contact) (b : Bool)
      → IsDict payload
      → StaysOut agency key pitches rows
      → upsert_found repr agency brand pk payload rows b ≡ ok after
      → StaysOut agency key pitches after
  unfolding upsert_found
  upsert_found-StaysOut agency brand pk key pitches payload rows after true d (c, found, o) h =
      subst (StaysOut agency key pitches) (ok-injective h)
        (elim (find_contact-write agency brand pk key payload rows c found) [
          | inl same_row ↦ (c, same_row, o)
          | inr new_row ↦
              (refreshed repr payload c, new_row, refreshed-IsOptedOut pitches payload c d o)
        ])
  upsert_found-StaysOut agency brand pk key pitches payload rows after false d (c, found, o) h =
      elim (Bool-cases (any (λ (x : Contact). x.contact_id =s pk) rows)) [
        | inl taken ↦ cc (rw (taken, insert_contact) at h)
        | inr free ↦
            subst (StaysOut agency key pitches) (ok-injective (rw (free, insert_contact) at h)) (
              c,
              find_contact-append agency key rows (fresh_contact repr agency brand pk payload) c
                  found,
              o,
            )
      ]

  upsert_one-StaysOut :
      (agency brand key : String) (pitches : Items) (payload : Fields) (rows after : List Contact)
      → IsDict payload
      → StaysOut agency key pitches rows
      → upsert_one repr agency brand payload rows ≡ ok after
      → StaysOut agency key pitches after
  unfolding upsert_one
  upsert_one-StaysOut agency brand key pitches payload rows after d s h =
      elim (Option-cases (key_of (get "contact_id" payload))) [
        | inl e ↦ subst (StaysOut agency key pitches) (ok-injective (rw (e, upsert_one) at h)) s
        | inr (pk, e) ↦
            upsert_found-StaysOut agency brand pk key pitches payload rows after _ d s
              (rw (e, upsert_one) at h)
      ]

  -- Whatever an enrichment run brings in, a contact that has opted out is still found, still has opted
  -- out, and still has its pitches, in the column and in the document.
  pub upsert_run_batch-StaysOut :
      (agency brand key : String) (pitches : Items) (payloads : List Fields)
      (rows after : List Contact)
      → All IsDict payloads
      → StaysOut agency key pitches rows
      → upsert_run_batch repr agency brand payloads rows ≡ ok after
      → StaysOut agency key pitches after
  unfolding upsert_run_batch
  upsert_run_batch-StaysOut agency brand key pitches [] rows after d s h =
      subst (StaysOut agency key pitches) (ok-injective h) s
  upsert_run_batch-StaysOut agency brand key pitches (payload ∷ payloads) rows after d s h =
      elim (Result-cases (upsert_one repr agency brand payload rows)) [
        | inl (e, bad) ↦ cc (rw bad at h)
        | inr (middle, good) ↦
            upsert_run_batch-StaysOut agency brand key pitches payloads middle after d.1
              (upsert_one-StaysOut agency brand key pitches payload rows middle d.0 s good)
              (rw good at h)
      ]
