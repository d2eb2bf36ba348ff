-- ===== src/Outreach/Angles/Given.antt =====
-- What the triggers give.
use nativ.Prelude.{
  ℕ, String, ◌≡◌, refl, Bool, true, false, Option, none, some, List, [], ◌∷◌, if◌then◌else◌, ◌=s◌,
}
use nativ.Json.{Json, Fields, str, get}
use nativ.Outreach.Angles.{
  evaluate_trigger, in_industry, worked_with_competitor, first_similar, similar_talent_partnered,
  multiple_similar_talents, if_any, niche_primary_affinity, iab_demographic_overlap, if_targeted,
  gender_skew_match, if_global, geo_top_country_match, past_brand_reengagement,
}

-- A trigger's merge fields, without the talent's name.
unfoldable pub Nameless : Option Fields → Type 0
Nameless none = Unit
Nameless (some m) = get "talent_name" m ≡ none

Nameless-if :
    (b : Bool) (x y : Option Fields) → Nameless x → Nameless y → Nameless (if b then x else y)
Nameless-if true x y hx hy = hx
Nameless-if false x y hx hy = hy

Nameless-in_industry :
    (target : String) (entries : List Fields) → Nameless (in_industry target entries)
unfolding in_industry Nameless get
Nameless-in_industry target [] = tt
Nameless-in_industry target (entry ∷ entries) =
    search (Nameless-if, Nameless-in_industry target entries)

Nameless-first_similar :
    (key : String) (brand : Fields) (sims : List Fields) → Nameless (first_similar key brand sims)
unfolding first_similar Nameless get
Nameless-first_similar key brand [] = tt
Nameless-first_similar key brand (sim ∷ sims) =
    search (Nameless-if, Nameless-first_similar key brand sims)

Nameless-if_any :
    (k : String) (ss : List String) (other : Option Fields)
    → (k =s "talent_name") ≡ false
    → Nameless other
    → Nameless (if_any k ss other)
unfolding if_any Nameless get
Nameless-if_any k [] other ne h = h
Nameless-if_any k (s ∷ ss) other ne h = rw ne refl

Nameless-if_targeted : (target : String) (o : Option (String × ℕ)) → Nameless (if_targeted target o)
unfolding if_targeted Nameless get
Nameless-if_targeted target none = tt
Nameless-if_targeted target (some (skew, share)) = search (Nameless-if, tt)

Nameless-if_global :
    (sells : Option Json) (countries : List String) → Nameless (if_global sells countries)
unfolding if_global Nameless get
Nameless-if_global (some (str s)) (c ∷ cs) = search (Nameless-if, tt)
Nameless-if_global (some (str s)) [] = tt
Nameless-if_global none cs = tt
Nameless-if_global (some _) cs = tt

module _ (talent brand : Fields) where
  Nameless-worked_with_competitor : Nameless (worked_with_competitor talent brand)
  unfolding worked_with_competitor Nameless
  Nameless-worked_with_competitor = search (Nameless-if, tt, Nameless-in_industry)

  Nameless-similar : Nameless (similar_talent_partnered talent brand)
  unfolding similar_talent_partnered Nameless
  Nameless-similar = search (Nameless-if, tt, Nameless-first_similar)

  Nameless-multiple : Nameless (multiple_similar_talents talent brand)
  unfolding multiple_similar_talents Nameless get
  Nameless-multiple = search (Nameless-if, tt)

  Nameless-niche : Nameless (niche_primary_affinity talent brand)
  unfolding niche_primary_affinity Nameless get
  Nameless-niche = search (Nameless-if_any, Nameless-if, tt)

  Nameless-iab : Nameless (iab_demographic_overlap talent brand)
  unfolding iab_demographic_overlap Nameless
  Nameless-iab = search (Nameless-if_any, tt)

  Nameless-gender : Nameless (gender_skew_match talent brand)
  unfolding gender_skew_match
  Nameless-gender = search Nameless-if_targeted

  Nameless-geo : Nameless (geo_top_country_match talent brand)
  unfolding geo_top_country_match Nameless get
  Nameless-geo = search (Nameless-if, Nameless-if_global)

  Nameless-past : Nameless (past_brand_reengagement talent brand)
  unfolding past_brand_reengagement Nameless get
  Nameless-past = search (Nameless-if, tt)

  -- No trigger gives the talent's name.
  pub Nameless-evaluate_trigger :
      (trigger_type : String) → Nameless (evaluate_trigger trigger_type talent brand)
  unfolding evaluate_trigger Nameless get
  Nameless-evaluate_trigger t =
      search
        (
          Nameless-if, Nameless-worked_with_competitor, Nameless-similar, Nameless-multiple,
          Nameless-niche, Nameless-iab, Nameless-gender, Nameless-geo, Nameless-past, tt,
        )
        depth 20
