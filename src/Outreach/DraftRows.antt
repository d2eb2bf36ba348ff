-- ===== src/Outreach/DraftRows.antt =====
-- What a draft is made of and what it is stored as: the rows of app/models/sqla/talent.py and brand.py, and
-- the dicts of app/services/outreach/orchestrator.py that the prompt and the document are built of.
use nativ.Prelude.{String, Bool, not, ◌&&◌, Option, none, some, List, [], ◌∷◌, ◌=s◌, first}
use nativ.Json.{Json, Items, Fields, null, num, str, arr, obj, nil, cons, end, field, put}
use nativ.Outreach.Rows.{Contact}
use nativ.Outreach.Steps.{StepGeneration}

pub record TalentRow : Type 0 where
  pub talent_id : String
  pub agency_id : String
  pub name : String
  pub is_deleted : Bool
  pub doc : Fields

pub record BrandRow : Type 0 where
  pub brand_id : String
  pub name : String
  pub industry_id : String
  pub domain : Option String
  pub hq_country : Option String
  pub company_stage : Option String
  pub typical_campaign_tier : Option String
  pub is_deleted : Bool
  pub doc : Fields

nullable : Option String → Json
nullable none = null
nullable (some s) = str s

-- `{..., **d}`
over : Fields → Fields → Fields
over m end = m
over m (field k v rest) = over (put k v m) rest

unfoldable pub talent_dict : TalentRow → Fields
unfolding over
talent_dict t = over (field "talent_id" (str t.talent_id) (field "name" (str t.name) end)) t.doc

unfoldable pub contact_dict : Contact → Fields
unfolding over nullable
contact_dict c =
    over
      (field "contact_id" (str c.contact_id) (
        field "brand_id" (str c.brand_id) (
          field "name" (str c.name) (
            field "decision_role" (str c.decision_role) (
              field "email_address" (nullable c.email)
                (field "do_not_contact" (Json.bool c.do_not_contact) end))))))
      c.doc

unfoldable pub brand_dict : BrandRow → Fields
unfolding over nullable
brand_dict b =
    over
      (field "brand_id" (str b.brand_id) (
        field "name" (str b.name) (
          field "industry_id" (str b.industry_id) (
            field "domain" (nullable b.domain) (
              field "hq_country" (nullable b.hq_country) (
                field "company_stage" (nullable b.company_stage)
                  (field "typical_campaign_tier" (nullable b.typical_campaign_tier) end)))))))
      b.doc

text_items : List String → Items
text_items [] = nil
text_items (s ∷ ss) = cons (str s) (text_items ss)

step_to_dict : StepGeneration → Fields
unfolding text_items
step_to_dict s = field "step_number" (num s.step_number) (
    field "intent" (str s.intent) (
      field "subject" (str s.subject) (
        field "body" (str s.body) (
          field "angles_used" (obj s.angles_used) (
            field "personalization_fields_used" (arr (text_items s.personalization_fields_used)) (
              field "reasoning" (str s.reasoning) (
                field "model_used" (str s.model_used) (
                  field "timing_offset_days" (num s.timing_offset_days) (
                    field "validation_warnings" (arr (text_items s.validation_warnings))
                      (field "status" (str "drafted") end))))))))))

unfoldable pub step_items : List StepGeneration → Items
unfolding step_to_dict
step_items [] = nil
step_items (s ∷ steps) = cons (obj (step_to_dict s)) (step_items steps)

unfoldable pub engagement_summary : Fields
engagement_summary = field "sent" (num 0) (
    field "delivered" (num 0) (
      field "opened" (num 0)
        (field "clicked" (num 0) (field "replied" (num 0) (field "bounced" (num 0) end)))))

unfoldable pub find_talent : String → String → List TalentRow → Option TalentRow
find_talent agency pk =
    first λ t. t.agency_id =s agency && (not t.is_deleted && (t.talent_id =s pk))

-- a brand belongs to no agency
unfoldable pub find_brand : String → List BrandRow → Option BrandRow
find_brand pk = first λ b. not b.is_deleted && (b.brand_id =s pk)
