-- ===== src/Deal/Repository/Table.antt =====
-- Reading and writing one row of the table.
use nativ.Prelude.{
  String, ◌≡◌, refl, subst, Bool, true, some, List, [], ◌∷◌, arith, All, ◌=s◌, eq_iff, ◌≢◌, inl,
  inr, Bool-cases, ◌&&◌,
}
use nativ.Deal.Row.{Deal}
use nativ.Deal.Repository.{base_filter, get_by_id, save}

both : (a b : Bool) → (a && b) ≡ true → (b ≡ true) × (a ≡ true)
both a b h = ground arith

-- What is found has the key, and passes the filter.
pub get_by_id_found :
    (agency pk : String) (rows : List Deal) (d : Deal)
    → get_by_id agency pk rows ≡ some d
    → ((d.deal_id =s pk) ≡ true) × (base_filter agency d ≡ true)
unfolding get_by_id
get_by_id_found agency pk [] d h = cc
get_by_id_found agency pk (x ∷ xs) d h =
    elim (Bool-cases (base_filter agency x && (x.deal_id =s pk))) [
      | inl hit ↦
          let same_row : x ≡ d = cc (rw hit at h) in
          subst (λ (y : Deal). ((y.deal_id =s pk) ≡ true) × (base_filter agency y ≡ true)) same_row
            (both (base_filter agency x) (x.deal_id =s pk) hit)
      | inr miss ↦ get_by_id_found agency pk xs d (rw miss at h)
    ]

-- A row that was found and is written back under its key is found in its new form.
pub get_by_id-save_self :
    (agency pk : String) (rows : List Deal) (d d' : Deal)
    → get_by_id agency pk rows ≡ some d
    → (d'.deal_id =s pk) ≡ true
    → base_filter agency d' ≡ true
    → get_by_id agency pk (save agency pk d' rows) ≡ some d'
unfolding get_by_id save
get_by_id-save_self agency pk [] d d' h e f = cc
get_by_id-save_self agency pk (x ∷ xs) d d' h e f =
    ground (arith, get_by_id-save_self agency pk xs d d')

-- Any other row is found as before.
pub get_by_id-save_other :
    (agency pk key : String) (rows : List Deal) (d' : Deal)
    → (d'.deal_id =s pk) ≡ true
    → pk ≢ key
    → get_by_id agency key (save agency pk d' rows) ≡ get_by_id agency key rows
unfolding get_by_id save
get_by_id-save_other agency pk key [] d' e ne = refl
get_by_id-save_other agency pk key (x ∷ xs) d' e ne = ground (
  arith,
  get_by_id-save_other agency pk key xs d',
  eq_iff d'.deal_id pk,
  eq_iff x.deal_id pk,
  eq_iff x.deal_id key,
  eq_iff d'.deal_id key,
)

module _ (P : Deal → Type 0) where
  pub save-All :
      (agency pk : String) (d : Deal) (rows : List Deal)
      → P d
      → All P rows
      → All P (save agency pk d rows)
  unfolding save
  save-All agency pk d [] h a = tt
  save-All agency pk d (x ∷ xs) h a =
      elim (Bool-cases (base_filter agency x && (x.deal_id =s pk))) [
        | inl hit ↦ rw hit (h, a.1)
        | inr miss ↦ rw miss (a.0, save-All agency pk d xs h a.1)
      ]

  pub get_by_id-All :
      (agency pk : String) (rows : List Deal) (d : Deal)
      → All P rows
      → get_by_id agency pk rows ≡ some d
      → P d
  unfolding get_by_id
  get_by_id-All agency pk [] d a h = cc
  get_by_id-All agency pk (x ∷ xs) d a h =
      elim (Bool-cases (base_filter agency x && (x.deal_id =s pk))) [
        | inl hit ↦ subst P (cc (rw hit at h)) a.0
        | inr miss ↦ get_by_id-All agency pk xs d a.1 (rw miss at h)
      ]
