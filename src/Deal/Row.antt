-- ===== src/Deal/Row.antt =====
-- app/models/sqla/deal.py: the columns of the `deal` table that the services read or write. A column
-- that only PATCH writes holds the JSON value of the request; `doc` is the column `data`.
use nativ.Prelude.{String, Bool, Option}
use nativ.Json.{Json, Fields}
use nativ.Deal.Substage.{Stage, Substage}

pub record Deal : Type 0 where
  pub deal_id : String
  pub agency_id : String
  pub talent_id : String
  pub brand_id : String
  pub primary_contact_id : Json
  pub originating_enrollment_id : Option String
  pub stage : Stage
  pub substage : Substage
  pub is_terminal : Bool
  pub is_won : Bool
  pub expected_value_usd : Json
  pub expected_close_date : Json
  pub next_action_due_at : Json
  pub latest_prep_pack_id : Option String
  pub is_deleted : Bool
  pub doc : Fields
