-- ===== src/Outreach/Webhook.antt =====
-- app/api/webhooks/smartlead.py: a delivery to the endpoint `reply`, from the parsed body on, and the
-- deduplication of deliveries. `repr` is `str` on a value that is no text, `digest` the SHA-1 of a text
-- in hexadecimal; the classification is an argument, as in Replies. A time is a number of seconds, by Redis'
-- clock, or an ISO text.
pub mod Redelivery
use Prim.Native.String.{◌++◌ as ◌++s◌}
use nativ.Prelude.{
  ℕ, ◌+◌, String, Bool, true, false, ◌&&◌, Option, none, some, List, [], ◌∷◌, any, Result, ok, err,
  if◌then◌else◌, ◌=s◌, ltb,
}
use nativ.Json.{Json, Fields, str, obj, get, truthy}
use nativ.Outreach.PitchHistory.{or_else}
use nativ.Outreach.Replies.{OutcomeClassification, World, Summary, ReplyError, handle_reply}

-- A key that Redis holds, and the time at which it expires
abbrev pub Held : Type 0
Held = String × ℕ

-- The tables, and the keys in Redis.
pub record Inbox : Type 0 where
  pub world : World
  pub seen : List Held

pub data Answer : Type 0 where
  ignored : String → Answer
  duplicate : String → Answer
  processed : Summary → Answer

-- `_DEDUPE_TTL_SECONDS`
abbrev pub dedupe_ttl_seconds : ℕ
dedupe_ttl_seconds = 86400

-- whether a key is there at a time
unfoldable pub is_held : ℕ → String → List Held → Bool
is_held now key = any λ h. (h.0 =s key) && ltb now h.1

-- `_seen_before` at a time, with whether Redis can be reached: the answer, and the keys afterwards
unfoldable pub seen_before : Bool → ℕ → String → List Held → Bool × List Held
unfolding is_held
seen_before false now key seen = (false, seen)
seen_before true now key seen =
    if is_held now key seen then (true, seen) else (false, (key, now + dedupe_ttl_seconds) ∷ seen)

-- a text that is not empty
text_id : Option Json → Option String
text_id (some (str s)) = if s =s "" then none else some s
text_id _ = none

-- the identifier under `custom_fields`, which may be missing or no dict
id_in : Option Json → Option String
unfolding text_id
id_in (some (obj cf)) = text_id (get "enrollment_id" cf)
id_in _ = none

-- the fallback to the fields nested under `lead`
id_in_lead : Option Json → Option String
unfolding id_in
id_in_lead (some (obj m)) = id_in (get "custom_fields" m)
id_in_lead _ = none

or_id : Option String → Option String → Option String
or_id none y = y
or_id (some s) y = some s

-- `_enrollment_id_from`
unfoldable pub enrollment_id_from : Fields → Option String
unfolding id_in id_in_lead or_id
enrollment_id_from body = or_id (id_in (get "custom_fields" body)) (id_in_lead (get "lead" body))

module _ (repr : Json → String) (digest : String → String) where
  -- `str(x or "")`
  unfoldable pub text_or_empty : Option Json → String
  text_or_empty none = ""
  text_or_empty (some (str s)) = s
  text_or_empty (some v) = if truthy v then repr v else ""

  -- `str(body.get("occurred_at") or body.get("event_timestamp") or now)`
  unfoldable pub occurred_at_of : String → Fields → String
  unfolding text_or_empty
  occurred_at_of now body =
      let s = text_or_empty (or_else (get "occurred_at" body) (get "event_timestamp" body)) in
      if s =s "" then now else s

  -- `_dedupe_key`
  unfoldable pub dedupe_key : Fields → String → String
  unfolding text_or_empty
  dedupe_key body event_type =
      let part = λ (k : String). text_or_empty (get k body) in
      "dedup:smartlead:"
      ++s digest (
          part "campaign_id"
          ++s "|"
          ++s part "lead_id"
          ++s "|"
          ++s event_type
          ++s "|"
          ++s text_or_empty (or_else (get "occurred_at" body) (get "event_timestamp" body)))

  unfoldable pub reply_body_of : Fields → String
  unfolding text_or_empty
  reply_body_of body =
      text_or_empty
        (or_else (get "reply_body" body) (or_else (get "body" body) (get "message" body)))

  -- the commit, or the roll-back of a call that raises
  settle :
      World → List Held → Result ReplyError (World × Summary) → Result ReplyError Answer × Inbox
  settle w seen (err e) = (err e, record { world = w; seen = seen })
  settle w seen (ok (w', s)) = (ok (processed s), record { world = w'; seen = seen })

  -- what follows the test for a duplicate
  after_seen :
      String
      → String
      → String
      → String
      → OutcomeClassification
      → Fields
      → World
      → String
      → Bool × List Held
      → Result ReplyError Answer × Inbox
  unfolding settle
  after_seen agency fresh at occurred_at c body w pk (true, seen) =
      (ok (duplicate pk), record { world = w; seen = seen })
  after_seen agency fresh at occurred_at c body w pk (false, seen) =
      if reply_body_of body =s ""
      then (ok (ignored "empty_reply_body"), record { world = w; seen = seen })
      else settle w seen (handle_reply agency fresh at occurred_at pk c w)

  with_id :
      String
      → String
      → String
      → ℕ
      → OutcomeClassification
      → Bool
      → Fields
      → Inbox
      → Option String
      → Result ReplyError Answer × Inbox
  unfolding after_seen
  with_id agency fresh at now c up body inbox none = (ok (ignored "no_enrollment_id"), inbox)
  with_id agency fresh at now c up body inbox (some pk) =
      after_seen agency fresh at (occurred_at_of at body) c body inbox.world pk
        (seen_before up now (dedupe_key body "email_replied") inbox.seen)

  -- `reply` at a time: `up` is whether Redis can be reached
  unfoldable pub reply :
      String
      → String
      → String
      → ℕ
      → OutcomeClassification
      → Bool
      → Fields
      → Inbox
      → Result ReplyError Answer × Inbox
  unfolding with_id
  reply agency fresh at now c up body inbox =
      with_id agency fresh at now c up body inbox (enrollment_id_from body)
