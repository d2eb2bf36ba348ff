-- ===== src/Outreach/AngleFilter.antt =====
-- `filter_angles` of app/services/outreach/angle_filter.py, with app/models/sqla/pitch_angle.py, and
-- app/services/outreach/template_selector.py. Scores are in thousandths, the scale of their column.
pub mod Best
pub mod Unmet
use nativ.Prelude.{
  ℕ, ◌+◌, String, Bool, true, false, not, ◌&&◌, ◌||◌, Option, none, some, List, [], ◌∷◌,
  if◌then◌else◌, ◌=s◌, ◌==◌, leb, any, map, take, first,
}
use nativ.Prelude.Sorting.{sort}
use nativ.Text.{lower, strip}
use nativ.Json.{Json, Items, Fields, null, num, str, nil, cons, end, get}
use nativ.Outreach.Angles.{items_of, fields_of, evaluate_trigger}

pub record PitchAngle : Type 0 where
  pub angle_id : String
  pub category : String
  pub authored_strength_score : ℕ
  pub doc : Fields

pub record Candidate : Type 0 where
  pub angle : PitchAngle
  pub merge_fields : Fields
  pub score : ℕ

has_number : ℕ → Items → Bool
has_number n nil = false
has_number n (cons (num m) xs) = m == n || has_number n xs
has_number n (cons _ xs) = has_number n xs

unfoldable pub has_text : String → Items → Bool
has_text s nil = false
has_text s (cons (str t) xs) = t =s s || has_text s xs
has_text s (cons _ xs) = has_text s xs

is_in : String → List String → Bool
is_in x xs = any (λ s. s =s x) xs

unfoldable pub key : String → String
key s = lower (strip s)

-- `merge_fields.get(f) in (None, "")`
unfoldable pub is_missing : Option Json → Bool
is_missing none = true
is_missing (some null) = true
is_missing (some (str s)) = s =s ""
is_missing (some _) = false

unfoldable pub lacks_any : Items → Fields → Bool
lacks_any nil m = false
lacks_any (cons (str f) xs) m = is_missing (get f m) || lacks_any xs m
lacks_any (cons _ xs) m = lacks_any xs m

-- `(data.get("trigger") or {}).get("type")`, where it is a text
trigger_of : Option Json → Option String
trigger_of (some (str t)) = some t
trigger_of _ = none

module _ (talent brand : Fields) (step_number : ℕ) (role : String)
    (preferred excluded : List String) where
  -- whether the step, the role and the category let an angle pass
  unfoldable pub applies : PitchAngle → Bool
  unfolding has_number is_in key
  applies a =
      has_number step_number (items_of (get "applicable_to_steps" a.doc))
      && (role =s "" || has_text role (items_of (get "applicable_to_decision_roles" a.doc)))
      && not (is_in (key a.category) excluded)

  boosted : PitchAngle → ℕ
  unfolding is_in key
  boosted a =
      if is_in (key a.category) preferred
      then a.authored_strength_score + 150
      else a.authored_strength_score

  candidate_with : PitchAngle → Option Fields → Option Candidate
  unfolding boosted
  candidate_with a none = none
  candidate_with a (some merge_fields) =
      if lacks_any (items_of (get "merge_fields_required" a.doc)) merge_fields
      then none
      else some (record {
        angle = a;
        merge_fields = merge_fields;
        score = if leb 1000 (boosted a) then 1000 else boosted a;
      })

  fired : Option String → Option Fields
  fired none = none
  fired (some trigger_type) = evaluate_trigger trigger_type talent brand

  -- one turn of the loop
  unfoldable pub candidate_of : PitchAngle → Option Candidate
  unfolding candidate_with fired trigger_of
  candidate_of a =
      if applies a
      then candidate_with a (fired (trigger_of (get "type" (fields_of (get "trigger" a.doc)))))
      else none

  with_candidate : Option Candidate → List Candidate → List Candidate
  with_candidate none cs = cs
  with_candidate (some c) cs = c ∷ cs

  unfoldable pub candidates : List PitchAngle → List Candidate
  unfolding with_candidate
  candidates [] = []
  candidates (a ∷ angles) = with_candidate (candidate_of a) (candidates angles)

-- the order of the sort, the highest score first
unfoldable pub is_better : Candidate → Candidate → Bool
is_better a b = leb b.score a.score

unfoldable pub filter_angles :
    Fields → Fields → ℕ → String → List String → List String → ℕ → List PitchAngle → List Candidate
unfolding key is_better
filter_angles talent brand step_number decision_role preferred excluded max_candidates angles =
    take max_candidates (
      sort is_better (
        candidates talent brand step_number (key decision_role) (map key preferred)
          (map key excluded) angles))

-- app/models/sqla/pitch_template.py, as far as the routing reads it; the table is in the order of the keys
pub record PitchTemplate : Type 0 where
  pub template_id : String
  pub agency_id : String
  pub target_decision_role : String
  pub is_deleted : Bool
  pub doc : Fields

-- `find_for_decision_role` of app/repositories/pitch_template.py
unfoldable pub find_for_decision_role : String → String → List PitchTemplate → Option PitchTemplate
find_for_decision_role agency role templates =
    first (λ t. t.agency_id =s agency && not t.is_deleted && (t.target_decision_role =s role))
      templates

-- the role that a template is looked up for
routed : String → Option String
routed role =
    if role =s "gatekeeper"
    then none
    else if is_in role ("buyer" ∷ "influencer" ∷ "champion" ∷ [])
    then some role
    else some "buyer"

found_for : String → List PitchTemplate → Option String → Option PitchTemplate
found_for agency templates none = none
found_for agency templates (some role) = find_for_decision_role agency role templates

-- `select_template`
unfoldable pub select_template : String → List PitchTemplate → String → Option PitchTemplate
unfolding routed found_for key is_in
select_template agency templates decision_role =
    found_for agency templates (routed (key decision_role))
