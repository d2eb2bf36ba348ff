-- ===== src/Outreach/PitchHistory.antt =====
-- The record of pitches under `data.pitch_history` of a contact: its only writer,
-- `append_pitch_history` of app/services/outreach/loopback_writers.py, and the readers' access to it.
-- `parse_when` is `datetime.fromisoformat` on the text with `Z` replaced, in seconds.
use nativ.Prelude.{ℕ, String, ◌≡◌, ap, Bool, false, Option, none, some, if◌then◌else◌, ◌=s◌}
use nativ.Json.Dict.{get-put_self}
use nativ.Json.{Json, Items, Fields, str, arr, obj, nil, cons, end, field, get, put, truthy, append}

-- the entry that the writer appends; `when_iso` is the ISO text of the time of the pitch
unfoldable pub pitch_entry : String → String → String → String → String → Fields
pitch_entry talent_id enrollment_id template_id channel when_iso =
    field "talent_id" (str talent_id) (
      field "enrollment_id" (str enrollment_id) (
        field "template_id" (str template_id) (
          field "channel" (str channel)
            (field "pitched_at" (str when_iso) (field "outcome" (str "in_flight") end)))))

items_of : Option Json → Items
items_of (some (arr xs)) = xs
items_of _ = nil

-- The items of `d.get("pitch_history") or []`. The key holds a list wherever it is there.
unfoldable pub history_of : Fields → Items
unfolding items_of
history_of m = items_of (get "pitch_history" m)

pub history_of-put : (xs : Items) (m : Fields) → history_of (put "pitch_history" (arr xs) m) ≡ xs
unfolding history_of
history_of-put xs m = ap items_of (get-put_self "pitch_history" (arr xs) m)

-- `append_pitch_history`: the new list replaces the old one in the merge, as lists do
unfoldable pub append_pitch_history : Fields → Fields → Fields
append_pitch_history entry m =
    put "pitch_history" (arr (append (history_of m) (cons (obj entry) nil))) m

-- `x or y`, on the results of `get`
unfoldable pub or_else : Option Json → Option Json → Option Json
or_else none y = y
or_else (some v) y = if truthy v then some v else y

-- `_parse_when`; a JSON value is never a `datetime`
unfoldable pub parse_when : (String → Option ℕ) → Option Json → Option ℕ
parse_when parse_iso (some (str s)) = parse_iso s
parse_when parse_iso _ = none

-- `entry.get("talent_id") == talent_id`, for an entry that is a dict
unfoldable pub is_for_talent : String → Option Json → Bool
is_for_talent talent_id (some (str s)) = s =s talent_id
is_for_talent talent_id _ = false
