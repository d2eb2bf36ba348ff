-- ===== src/Vendors/OauthState.antt =====
-- app/vendors/_oauth_state.py, over a Redis that is a parameter. Times are in seconds. The pipeline of
-- `GET` and `DEL` is a transaction: nothing comes between the two.
pub mod SingleUse
use nativ.Prelude.{ℕ, ◌+◌, ◌<◌, ◌≤◌, ◌≡◌, ◌≢◌, String, Option, none, some, List, [], ◌∷◌}
use nativ.Json.{Json, Fields}
use Prim.Native.String.{◌++◌ as ◌++s◌}

pub record KeyValue (Store : Type 0) : Type 0 where
  pub get : ℕ → String → Store → Option String
  pub setex : ℕ → String → ℕ → String → Store → Store
  pub del : String → Store → Store

-- What Redis documents: a value is there until its time is over, a deleted key is gone, and a command
-- touches its own key only.
pub record HasTtl {Store : Type 0} (redis : KeyValue Store) : Type 0 where
  pub get-setex :
      (t u : ℕ) (k : String) (ttl : ℕ) (v : String) (s : Store)
      → t ≤ u
      → u < t + ttl
      → redis.get u k (redis.setex t k ttl v s) ≡ some v
  pub get-setex_late :
      (t u : ℕ) (k : String) (ttl : ℕ) (v : String) (s : Store)
      → t + ttl ≤ u
      → redis.get u k (redis.setex t k ttl v s) ≡ none
  pub get-setex_other :
      (t u : ℕ) (k j : String) (ttl : ℕ) (v : String) (s : Store)
      → k ≢ j
      → redis.get u k (redis.setex t j ttl v s) ≡ redis.get u k s
  pub get-del : (u : ℕ) (k : String) (s : Store) → redis.get u k (redis.del k s) ≡ none
  pub get-del_other :
      (u : ℕ) (k j : String) (s : Store) → k ≢ j → redis.get u k (redis.del j s) ≡ redis.get u k s

unfoldable pub state_key : String → String
state_key state = "oauth_state:" ++s state

text_or_null : Option String → Json
text_or_null none = Json.null
text_or_null (some s) = Json.str s

-- the payload before it is dumped
unfoldable pub binding : String → String → Option String → Json
unfolding text_or_null
binding talent_id platform code_verifier = Json.obj (
    Fields.field "talent_id" (Json.str talent_id) (
      Fields.field "platform" (Json.str platform)
        (Fields.field "code_verifier" (text_or_null code_verifier) Fields.end)))

-- `dumps` and `loads` are `json`'s.
module _ {Store : Type 0} (redis : KeyValue Store) (dumps : Json → String) where
  unfoldable pub store_state : ℕ → String → String → String → Option String → ℕ → Store → Store
  unfolding state_key binding
  store_state now state talent_id platform code_verifier ttl_seconds s =
      redis.setex now (state_key state) ttl_seconds
        (dumps (binding talent_id platform code_verifier)) s

parsed : (String → Json) → Option String → Option Json
parsed loads none = none
parsed loads (some raw_value) = some (loads raw_value)

module _ {Store : Type 0} (redis : KeyValue Store) (loads : String → Json) where
  unfoldable pub validate_and_consume_state : ℕ → String → Store → Store × Option Json
  unfolding state_key parsed
  validate_and_consume_state now state s =
      (redis.del (state_key state) s, parsed loads (redis.get now (state_key state) s))

-- `_DEFAULT_TTL_SECONDS`
abbrev pub default_ttl_seconds : ℕ
default_ttl_seconds = 600
