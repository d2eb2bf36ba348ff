-- ===== src/Outreach/SmartleadPush/ReadBack.antt =====
-- What a push sends, and that the webhook reads the enrollment's identifier back from it.
use nativ.Prelude.{
  ℕ, String, ◌≡◌, refl, ap, ◌∙◌, true, false, Option, none, some, [], ◌∷◌, ok, ◌=s◌,
}
use nativ.Json.{Json, Items, Fields, obj, nil, cons, get}
use nativ.Outreach.Webhook.{enrollment_id_from}
use nativ.Outreach.SmartleadPush.{
  create_campaign, add_leads, add_sequence, Recipient, ◌▸◌, campaign_name, lead_payload,
  sequence_payloads, steps_of, primary_of, lead_id_of, campaign_id_of, Smartlead,
  find_or_create_campaign, push_meta, push_lead, push_to_smartlead, has_address,
}

-- The identifier that a push puts under `custom_fields` of the lead is the one that the webhook
-- takes from a delivery that carries those fields, at its top or under `lead`. The identifier is not
-- empty.
pub enrollment_id_from-lead_payload :
    (enrollment_id : String) (r : Recipient) (primary_angle : Json) (body nested lead : Fields)
    → (enrollment_id =s "") ≡ false
    → get "custom_fields" body ≡ get "custom_fields" (lead_payload enrollment_id r primary_angle)
    → get "custom_fields" nested ≡ none
    → get "lead" nested ≡ some (obj lead)
    → get "custom_fields" lead ≡ get "custom_fields" (lead_payload enrollment_id r primary_angle)
    → (enrollment_id_from body ≡ some enrollment_id)
      × (enrollment_id_from nested ≡ some enrollment_id)
unfolding enrollment_id_from lead_payload get
enrollment_id_from-lead_payload enrollment_id r primary_angle body nested lead full top no_top under
      same =
    (rw (top, full) refl, rw (no_top, under, same, full) refl)

module _ (repr : Json → String) (int_of : Json → Option ℕ) (api : Smartlead)
    (enrollment_id talent_id template_id : String) (r : Recipient) (steps : Json) where
  -- The contact has an address, the steps can be read, and Smartlead answers each of the three calls:
  -- the first with the identifier of a campaign.
  pub record IsAnswered : Type 0 where
    pub addressed : has_address r.email_address ≡ true
    pub created : Json
    pub on_create : api.on_create (campaign_name talent_id template_id) ≡ ok created
    pub campaign_id : String
    pub campaign : campaign_id_of repr created ≡ ok campaign_id
    pub items : Items
    pub steps_read : steps_of steps ≡ ok items
    pub primary_angle : Json
    pub angle_read : primary_of items ≡ ok primary_angle
    pub added : Json
    pub on_leads :
        api.on_leads campaign_id (cons (obj (lead_payload enrollment_id r primary_angle)) nil)
        ≡ ok added
    pub lead_id : Json
    pub lead : lead_id_of added ≡ ok lead_id
    pub sequences : Items
    pub all_steps : sequence_payloads int_of items ≡ ok sequences
    pub done : Json
    pub on_sequence : api.on_sequence campaign_id sequences ≡ ok done

  campaign_created :
      (a : IsAnswered)
      → find_or_create_campaign repr api talent_id template_id none
        ≡ (create_campaign (campaign_name talent_id template_id) ∷ [], ok a.campaign_id)
  unfolding find_or_create_campaign
  campaign_created a = rw (a.on_create, a.campaign) refl

  lead_pushed :
      (a : IsAnswered)
      → push_lead repr int_of api enrollment_id talent_id template_id r steps a.campaign_id ≡ (
        add_leads a.campaign_id (cons (obj (lead_payload enrollment_id r a.primary_angle)) nil)
            ∷ add_sequence a.campaign_id a.sequences
            ∷ [],
        ok (push_meta repr a.campaign_id a.lead_id (campaign_name talent_id template_id)),
      )
  unfolding push_lead
  lead_pushed a =
      rw (a.steps_read, a.angle_read, a.on_leads, a.lead, a.all_steps, a.on_sequence) refl

  -- A push without a known campaign to a contact who has an address, whose steps can be read and whose
  -- calls are answered, creates a campaign, adds to it the lead with the enrollment's identifier, and
  -- then every step; it returns the campaign's identifier.
  pub push_to_smartlead_sends :
      (a : IsAnswered)
      → push_to_smartlead repr int_of api enrollment_id talent_id template_id r steps none ≡ (
        create_campaign (campaign_name talent_id template_id)
            ∷ add_leads a.campaign_id
                (cons (obj (lead_payload enrollment_id r a.primary_angle)) nil)
            ∷ add_sequence a.campaign_id a.sequences
            ∷ [],
        ok (push_meta repr a.campaign_id a.lead_id (campaign_name talent_id template_id)),
      )
  unfolding push_to_smartlead
  push_to_smartlead_sends a = rw a.addressed (
      ap (λ m. m ▸ push_lead repr int_of api enrollment_id talent_id template_id r steps)
        (campaign_created a)
      ∙ ap (λ x. (create_campaign (campaign_name talent_id template_id) ∷ x.0, x.1))
          (lead_pushed a))
