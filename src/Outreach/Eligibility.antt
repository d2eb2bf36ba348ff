-- ===== src/Outreach/Eligibility.antt =====
-- The three readers of the pitch history: `is_eligible` of app/services/outreach/policy_filter.py,
-- `_recent_pitch_for_talent` of app/services/contact_enrichment/policy_filter.py, and
-- `_was_recently_pitched` of app/repositories/brand_contact.py. Times are in seconds.
pub mod Cooldown
use nativ.Prelude.{
  ℕ, ◌+◌, ◌*◌, String, Bool, true, false, not, ◌&&◌, ◌||◌, Option, none, some, List, [], ◌∷◌,
  if◌then◌else◌, ◌=s◌, ltb, leb, any,
}
use nativ.Json.{Json, Items, Fields, null, bool, num, str, arr, obj, nil, cons, get, truthy}
use nativ.Outreach.Rows.{EnrollmentState, Enrollment, is_blocking}
use nativ.Outreach.PitchHistory.{history_of, or_else, parse_when, is_for_talent}

abbrev pub day : ℕ
day = 86400

-- `ts is None or ts < cutoff`, with `cutoff = now - days`
unfoldable pub is_past : ℕ → ℕ → Option ℕ → Bool
is_past now days none = true
is_past now days (some ts) = ltb (ts + days * day) now

-- an entry of this talent within the cooldown, by the time under `first` or else under `second`
unfoldable pub is_recent : (String → Option ℕ) → String → String → String → ℕ → ℕ → Json → Bool
unfolding is_past parse_when is_for_talent
is_recent parse_iso first second talent_id now days (obj entry) =
    is_for_talent talent_id (get "talent_id" entry)
    && not (is_past now days (parse_when parse_iso (or_else (get first entry) (get second entry))))
is_recent parse_iso first second talent_id now days _ = false

unfoldable pub any_item : (Json → Bool) → Items → Bool
any_item p nil = false
any_item p (cons x xs) = p x || any_item p xs

-- the reason under which a contact is not eligible
pub data Refusal : Type 0 where
  do_not_contact active_enrollment_for_talent pitched_within_cooldown : Refusal

-- `is_eligible`: `none` stands for `(True, None)`
unfoldable pub is_eligible :
    (String → Option ℕ) → ℕ → ℕ → Bool → Fields → String → List Enrollment → Option Refusal
is_eligible parse_iso now days dnc m talent_id enrollments =
    if dnc
    then some do_not_contact
    else if any (λ (e : Enrollment). (e.talent_id =s talent_id) && is_blocking e.state) enrollments
    then some active_enrollment_for_talent
    else if any_item (is_recent parse_iso "pitched_at" "created_at" talent_id now days)
        (history_of m)
    then some pitched_within_cooldown
    else none

-- `_recent_pitch_for_talent(...) is not None`, the cooldown test of the enrichment pipeline
unfoldable pub has_recent_pitch : (String → Option ℕ) → ℕ → ℕ → Fields → String → Bool
has_recent_pitch parse_iso now days m talent_id =
    any_item (is_recent parse_iso "created_at" "sent_at" talent_id now days) (history_of m)

-- `_was_recently_pitched`, the filter of `find_pitchable_for_talent`, where a time that is there must
-- be a text
unfoldable pub was_recently_pitched : (String → Option ℕ) → ℕ → Fields → String → Bool
was_recently_pitched parse_iso now m talent_id =
    any_item (is_recent parse_iso "created_at" "sent_at" talent_id now 14) (history_of m)
