-- ===== src/Outreach/SmartleadPush.antt =====
-- app/services/outreach/smartlead_push.py. Smartlead is a parameter: the answer of each of the three
-- calls, a JSON value or an error. The calls that were sent are the second result, in their order.
-- `repr` is `str` on a value that is no text, `int_of` is `int`, none where it raises.
pub mod ReadBack
use Prim.Native.Char.{code}
use Prim.Native.String
use Prim.Native.String.{◌++◌ as ◌++s◌}
use nativ.Prelude.{
  ℕ, String, Bool, true, false, not, ◌&&◌, ◌||◌, Option, none, some, List, [], ◌∷◌, ◌++◌, Result,
  ok, err, ◌>>=◌, if◌then◌else◌, ◌=s◌, ◌==◌,
}
use nativ.Text.{strip, is_empty}
use nativ.Json.{
  Json, Items, Fields, null, bool, num, str, arr, obj, nil, cons, end, field, get, truthy,
}
use nativ.Outreach.PitchHistory.{or_else}

pub data VendorCall : Type 0 where
  create_campaign : String → VendorCall
  add_leads : String → Items → VendorCall
  add_sequence : String → Items → VendorCall

pub data PushError : Type 0 where
  no_email : PushError
  no_campaign_id : PushError
  -- an `AttributeError`, a `TypeError` or a `ValueError`, on a value of another type than expected
  wrong_value : PushError
  -- an error of a call
  vendor : String → PushError

-- what the caller gives of the contact and the brand
pub record Recipient : Type 0 where
  pub name : String
  pub email_address : Option String
  pub decision_role : String
  pub company : String

-- a run: the calls that were sent, and the result
abbrev pub Run {ℓ} : Type ℓ → Type ℓ
Run A = List VendorCall × Result PushError A

infixl 10 ◌▸◌
abbrev ◌▸◌ {ℓ κ} : {A : Type ℓ} {B : Type κ} → Run A → (A → Run B) → Run B
m ▸ f = elim m.1 [ err e ↦ (m.0, err e) | ok a ↦ (m.0 ++ (f a).0, (f a).1) ]

pure {ℓ} : {A : Type ℓ} → Result PushError A → Run A
pure r = ([], r)

unfoldable pub campaign_name : String → String → String
campaign_name talent_id template_id = talent_id ++s "::" ++s template_id

-- `name.split(" ", 1)`: what stands before the first space, and what stands after it
before_space : String → String
before_space String.[] = String.[]
before_space (String.◌∷◌ c s) =
    let rest = before_space s in if code c == 32 then String.[] else String.◌∷◌ c rest

after_space : String → String
after_space String.[] = String.[]
after_space (String.◌∷◌ c s) = let rest = after_space s in if code c == 32 then s else rest

-- `x or ""`
or_text : Option Json → Json
or_text none = str ""
or_text (some v) = if truthy v then v else str ""

address : Option String → Json
address none = null
address (some s) = if s =s "" then null else str s

unfoldable pub has_address : Option String → Bool
has_address none = false
has_address (some s) = not (s =s "")

-- `_lead_payload`
unfoldable pub lead_payload : String → Recipient → Json → Fields
unfolding strip before_space after_space or_text address
lead_payload enrollment_id r primary_angle =
    let name : String = strip r.name in
    field "email" (address r.email_address) (
      field "first_name" (str (before_space name)) (
        field "last_name" (str (after_space name)) (
          field "company_name" (str r.company) (
            field "custom_fields"
              (obj (
                field "enrollment_id" (str enrollment_id) (
                  field "decision_role" (str r.decision_role)
                    (field "primary_angle" (or_text (some primary_angle)) end))))
              end))))

module _ (int_of : Json → Option ℕ) where
  int_or_error : Option ℕ → Result PushError ℕ
  int_or_error none = err wrong_value
  int_or_error (some n) = ok n

  -- `int(s.get(k) or d)`
  int_at : Option Json → ℕ → Result PushError ℕ
  unfolding int_or_error
  int_at none d = ok d
  int_at (some v) d = if truthy v then int_or_error (int_of v) else ok d

  sequence_payload : Json → Result PushError Json
  unfolding int_at or_text
  sequence_payload (obj s) = do
    seq_number ← int_at (get "step_number" s) 1
    delay ← int_at (get "timing_offset_days" s) 0
    ok (
        obj (
          field "seq_number" (num seq_number) (
            field "seq_delay_details" (obj (field "delay_in_days" (num delay) end)) (
              field "subject" (or_text (get "subject" s))
                (field "email_body" (or_text (get "body" s)) end)))))
  sequence_payload v = err wrong_value

  -- `_sequence_payloads`
  unfoldable pub sequence_payloads : Items → Result PushError Items
  unfolding sequence_payload
  sequence_payloads nil = ok nil
  sequence_payloads (cons s steps) = do
    p ← sequence_payload s
    ps ← sequence_payloads steps
    ok (cons p ps)

-- the list that `steps` is, where the code indexes or loops over it
unfoldable pub steps_of : Json → Result PushError Items
steps_of (arr xs) = ok xs
steps_of v = if truthy v then err wrong_value else ok nil

value_of : Option Json → Json
value_of none = null
value_of (some v) = v

primary_in : Option Json → Result PushError Json
unfolding value_of
primary_in none = ok null
primary_in (some (obj m)) = ok (value_of (get "primary" m))
primary_in (some v) = if truthy v then err wrong_value else ok null

-- `(steps[0].get("angles_used") or {}).get("primary")`, where there is a step
unfoldable pub primary_of : Items → Result PushError Json
unfolding primary_in
primary_of nil = ok null
primary_of (cons (obj s) steps) = primary_in (get "angles_used" s)
primary_of (cons v steps) = err wrong_value

fields_of : Json → Result PushError Fields
fields_of (obj m) = ok m
fields_of v = err wrong_value

-- `(lead_resp.get("leads") or [{}])[0].get("lead_id")`
first_lead_id : Option Json → Result PushError Json
unfolding value_of
first_lead_id none = ok null
first_lead_id (some (arr (cons (obj m) xs))) = ok (value_of (get "lead_id" m))
first_lead_id (some v) = if truthy v then err wrong_value else ok null

or_lead_id : Option Json → Option Json → Result PushError Json
unfolding first_lead_id
or_lead_id none leads = first_lead_id leads
or_lead_id (some v) leads = if truthy v then ok v else first_lead_id leads

unfoldable pub lead_id_of : Json → Result PushError Json
unfolding fields_of or_lead_id
lead_id_of answer = do
  m ← fields_of answer
  or_lead_id (or_else (get "lead_id" m) (get "id" m)) (get "leads" m)

module _ (repr : Json → String) where
  -- `str(campaign_id)`, of a text or a number
  id_text : Json → Result PushError String
  id_text (str s) = ok s
  id_text (num n) = ok (repr (num n))
  id_text (bool b) = ok (repr (bool b))
  id_text v = err no_campaign_id

  unfoldable pub campaign_id_of : Json → Result PushError String
  unfolding id_text value_of fields_of
  campaign_id_of answer = do
    m ← fields_of answer
    id_text (value_of (or_else (get "id" m) (get "campaign_id" m)))

  lead_text : Json → Json
  lead_text null = null
  lead_text (str s) = str s
  lead_text v = str (repr v)

-- The vendor.
pub record Smartlead : Type 0 where
  pub on_create : String → Result PushError Json
  pub on_leads : String → Items → Result PushError Json
  pub on_sequence : String → Items → Result PushError Json

sent {ℓ} : {A : Type ℓ} → VendorCall → Result PushError A → Run A
sent c r = (c ∷ [], r)

unfoldable pub push_meta : (Json → String) → String → Json → String → Fields
unfolding lead_text
push_meta repr campaign_id lead_id name =
    field "campaign_id" (str campaign_id)
      (field "lead_id" (lead_text repr lead_id) (field "campaign_name" (str name) end))

module _ (repr : Json → String) (api : Smartlead) where
  -- `_find_or_create_campaign`
  unfoldable pub find_or_create_campaign : String → String → Option String → Run String
  unfolding campaign_id_of sent pure
  find_or_create_campaign talent_id template_id hint =
      let name : String = campaign_name talent_id template_id in
      let create = sent (create_campaign name) (api.on_create name) ▸ λ answer.
      pure (campaign_id_of repr answer) in
      elim hint [ none ↦ create | some h ↦ if h =s "" then create else pure (ok h) ]

module _ (repr : Json → String) (int_of : Json → Option ℕ) (api : Smartlead)
    (enrollment_id talent_id template_id : String) (r : Recipient) (steps : Json) where
  -- from the angle of the first step on
  push_lead : String → Run Fields
  unfolding steps_of primary_of lead_payload lead_id_of push_meta sent pure
  push_lead campaign_id = pure (steps_of steps) ▸ λ items.
      pure (primary_of items) ▸ λ primary_angle.
      let leads = cons (obj (lead_payload enrollment_id r primary_angle)) nil in
      sent (add_leads campaign_id leads) (api.on_leads campaign_id leads) ▸ λ answer.
      pure (lead_id_of answer) ▸ λ lead_id. pure (sequence_payloads int_of items) ▸ λ sequences.
      sent (add_sequence campaign_id sequences) (api.on_sequence campaign_id sequences) ▸ λ done.
      pure (ok (push_meta repr campaign_id lead_id (campaign_name talent_id template_id)))

  -- `push_to_smartlead`
  unfoldable pub push_to_smartlead : Option String → Run Fields
  unfolding has_address find_or_create_campaign push_lead pure
  push_to_smartlead hint =
      if not (has_address r.email_address)
      then pure (err no_email)
      else (find_or_create_campaign repr api talent_id template_id hint ▸ push_lead)
