-- ===== src/Scenarios/Enrichment.antt =====
-- The filter of an enrichment run.
use nativ.Prelude.{ℕ, String, ◌≡◌, refl, true, Option, none, List, [], ◌∷◌, some}
use nativ.Json.{Fields, bool, obj, end, field, get, str}
use nativ.Enrichment.{QualifiedContact, apply_contact_filters, existing_of, has_opted_out}
use nativ.Enrichment.Dedupe.{
  Person, same_key, look_up, key_text, email_domain, merge_into, get_elem?, set, run,
}
use nativ.Text.{lower, strip}
use nativ.Enrichment.Dedupe.Linkedin.{run-linkedin_unique}
use nativ.Enrichment.Dedupe.Sources.{tally, tally-run}

abbrev no_clock : String → Option ℕ
no_clock s = none

abbrev workflow : Fields
workflow = field "contact-2" (obj (field "do_not_contact" (bool true) end)) end

abbrev open_contact : QualifiedContact
open_contact = record { contact_id = "contact-1"; qualification_score = 70 }

abbrev closed_contact : QualifiedContact
closed_contact = record { contact_id = "contact-2"; qualification_score = 90 }

abbrev weak_contact : QualifiedContact
weak_contact = record { contact_id = "contact-3"; qualification_score = 29 }

abbrev candidates : List QualifiedContact
candidates = open_contact ∷ closed_contact ∷ weak_contact ∷ []

filtered :
    apply_contact_filters no_clock 100000 14 none 30 workflow candidates
    ≡ (open_contact ∷ [], closed_contact ∷ weak_contact ∷ [])
unfolding apply_contact_filters has_opted_out get existing_of nativ.Enrichment.cools_down
filtered = refl

abbrev ada : Person
ada = record {
  name = "Ada Low";
  title = none;
  seniority = none;
  function = none;
  linkedin_url = none;
  email_address = some "Ada@brand.com";
  email_verification_status = some "verified";
  location = none;
  sources = str "apollo" ∷ [];
}

-- the same person from another source, with an address of her own on LinkedIn
abbrev ada_again : Person
ada_again = record ada {
  title = some "Head of Brand";
  linkedin_url = some " linkedin.com/in/ada ";
  sources = str "hunter" ∷ [];
}

abbrev ben : Person
ben = record ada {
  name = "Ben High";
  linkedin_url = some "linkedin.com/in/ben";
  email_address = some "ben@brand.com";
  sources = str "apollo" ∷ [];
}

abbrev found : List Person
found = ada ∷ ben ∷ ada_again ∷ []

abbrev merged_ada : Person
merged_ada = record ada_again { sources = str "apollo" ∷ str "hunter" ∷ [] }

merged_found : run found ≡ merged_ada ∷ ben ∷ []
unfolding run key_text lower strip look_up email_domain same_key get_elem? set merge_into
merged_found = refl

run-linkedin_unique_example : ◌≡◌ {A = ℕ} 0 0
unfolding run key_text lower strip look_up email_domain same_key get_elem? set merge_into
run-linkedin_unique_example =
    run-linkedin_unique found 0 0 merged_ada merged_ada "linkedin.com/in/ada" refl refl refl refl

tally-run_example : tally (λ x. true) (run found) ≡ tally (λ x. true) found
tally-run_example = tally-run (λ x. true) found
