-- ===== src/Vendors/OauthState/SingleUse.antt =====
-- A binding that app/vendors/_oauth_state.py stores comes back once.
use nativ.Prelude.{
  ℕ, ◌+◌, ◌<◌, ◌≤◌, ◌≡◌, ◌≢◌, refl, ◌∙◌, ap, String, Option, none, some, List, [], ◌∷◌, All,
}
use nativ.Json.{Json}
use nativ.Vendors.OauthState.{
  KeyValue, HasTtl, state_key, binding, store_state, validate_and_consume_state, parsed,
}
use text.Mathlib.TextLemmas.{append_cancel_left}

-- a call of the module, with the state that it names
pub data Call : Type 0 where
  stores : ℕ → String → String → String → Option String → ℕ → Call
  consumes : ℕ → String → Call

abbrev pub named_state : Call → String
named_state (stores now state talent_id platform code_verifier ttl_seconds) = state
named_state (consumes now state) = state

state_key-injective : (a b : String) → state_key a ≡ state_key b → a ≡ b
unfolding state_key
state_key-injective a b h = append_cancel_left "oauth_state:" a b h

module _ {Store : Type 0} (redis : KeyValue Store) (laws : HasTtl redis) (dumps : Json → String)
    (loads : String → Json) where
  call : Call → Store → Store
  call (stores now state talent_id platform code_verifier ttl_seconds) s =
      store_state redis dumps now state talent_id platform code_verifier ttl_seconds s
  call (consumes now state) s = (validate_and_consume_state redis loads now state s).0

  pub calls : List Call → Store → Store
  calls [] s = s
  calls (c ∷ cs) s = calls cs (call c s)

  get-call :
      (u : ℕ) (state : String) (c : Call) (s : Store)
      → state ≢ named_state c
      → redis.get u (state_key state) (call c s) ≡ redis.get u (state_key state) s
  unfolding call store_state validate_and_consume_state
  get-call u state (stores now other talent_id platform code_verifier ttl_seconds) s ne =
      laws.get-setex_other now u (state_key state) (state_key other) ttl_seconds _ s
        λ h. ne (state_key-injective state other h)
  get-call u state (consumes now other) s ne =
      laws.get-del_other u (state_key state) (state_key other) s
        λ h. ne (state_key-injective state other h)

  get-calls :
      (u : ℕ) (state : String) (cs : List Call) (s : Store)
      → All (λ c. state ≢ named_state c) cs
      → redis.get u (state_key state) (calls cs s) ≡ redis.get u (state_key state) s
  unfolding calls
  get-calls u state [] s elsewhere = refl
  get-calls u state (c ∷ cs) s elsewhere =
      get-calls u state cs (call c s) elsewhere.1 ∙ get-call u state c s elsewhere.0

  -- Whatever is done with other states in between: a state that was stored is validated, before its
  -- time is over, with the talent, the platform and the verifier that it was stored with, and no
  -- later validation succeeds; nor does one succeed after that time. What `json.dumps`
  -- writes of the binding, `json.loads` reads.
  pub validate_and_consume_state-store_state :
      (t u w late : ℕ) (state talent_id platform : String) (code_verifier : Option String) (ttl : ℕ)
      (s : Store) (between after : List Call)
      → loads (dumps (binding talent_id platform code_verifier))
        ≡ binding talent_id platform code_verifier
      → t ≤ u
      → u < t + ttl
      → t + ttl ≤ late
      → All (λ c. state ≢ named_state c) between
      → All (λ c. state ≢ named_state c) after
      → let stored =
          calls between (store_state redis dumps t state talent_id platform code_verifier ttl s) in
        let validated = validate_and_consume_state redis loads u state stored in
        (validated.1 ≡ some (binding talent_id platform code_verifier))
        × ((validate_and_consume_state redis loads w state (calls after validated.0)).1 ≡ none)
        × ((validate_and_consume_state redis loads late state stored).1 ≡ none)
  unfolding store_state validate_and_consume_state parsed
  validate_and_consume_state-store_state t u w late state talent_id platform code_verifier ttl s
        between after reads h in_time too_late elsewhere elsewhere' =
      let payload = dumps (binding talent_id platform code_verifier) in
      let stored = redis.setex t (state_key state) ttl payload s in
      (
        ap (parsed loads) (
              get-calls u state between stored elsewhere
              ∙ laws.get-setex t u (state_key state) ttl payload s h in_time)
            ∙ ap some reads,
        ap (parsed loads) (
            get-calls w state after (redis.del (state_key state) (calls between stored)) elsewhere'
            ∙ laws.get-del w (state_key state) (calls between stored)),
        ap (parsed loads) (
            get-calls late state between stored elsewhere
            ∙ laws.get-setex_late t late (state_key state) ttl payload s too_late),
      )
