-- ===== src/Vendors/RateLimiter.antt =====
-- app/vendors/_rate_limiter.py. Redis is a parameter: `Counters` has the commands that the script
-- gives, and what Redis documents of them. Times are in milliseconds,
-- and the wait of a refusal in seconds. A script runs whole, so that a
-- call of it is one step on the store.
pub mod Windows
use nativ.Prelude.{
  ℕ, suc, ◌+◌, ◌-◌, ◌*◌, ◌/◌, ◌≤◌, ◌<◌, ◌≡◌, ◌≢◌, String, Bool, true, false, Option, none, some,
  List, [], ◌∷◌, Result, ok, err, ◌==◌, ltb, if◌then◌else◌,
}
use Prim.Native.String.{◌++◌ as ◌++s◌}

-- `count` is `GET` read as a number, 0 where there is no key; `ttl` is `PTTL`, none where it is
-- negative. Both are asked at a time.
pub record Counters (Store : Type 0) : Type 0 where
  pub count : ℕ → Store → String → ℕ
  pub ttl : ℕ → Store → String → Option ℕ
  pub incr : ℕ → String → Store → Store
  pub pexpire : ℕ → String → ℕ → Store → Store

-- A key that has an expiry keeps its value until then and is gone afterwards; `INCR` keeps the
-- expiry, and `PEXPIRE` sets it on a key that is there.
pub record HasExpiry {Store : Type 0} (redis : Counters Store) : Type 0 where
  pub count-incr :
      (t : ℕ) (k : String) (s : Store)
      → redis.count t (redis.incr t k s) k ≡ suc (redis.count t s k)
  pub ttl-incr :
      (t : ℕ) (k : String) (s : Store)
      → redis.count t s k ≢ 0
      → redis.ttl t (redis.incr t k s) k ≡ redis.ttl t s k
  pub count-pexpire :
      (t : ℕ) (k : String) (d : ℕ) (s : Store)
      → 0 < d
      → redis.count t (redis.pexpire t k d s) k ≡ redis.count t s k
  pub ttl-pexpire :
      (t : ℕ) (k : String) (d : ℕ) (s : Store)
      → 0 < d
      → redis.count t s k ≢ 0
      → redis.ttl t (redis.pexpire t k d s) k ≡ some d
  pub alive :
      (t u r : ℕ) (k : String) (s : Store)
      → redis.ttl t s k ≡ some r
      → t ≤ u
      → u < t + r
      → (redis.count u s k ≡ redis.count t s k) × (redis.ttl u s k ≡ some (t + r - u))
  pub expired :
      (t u r : ℕ) (k : String) (s : Store)
      → redis.ttl t s k ≡ some r
      → t + r ≤ u
      → redis.count u s k ≡ 0
  pub absent :
      (t u : ℕ) (k : String) (s : Store) → redis.count t s k ≡ 0 → t ≤ u → redis.count u s k ≡ 0

ms_or : Option ℕ → ℕ → ℕ
ms_or none d = d
ms_or (some r) d = r

module _ {Store : Type 0} (redis : Counters Store) where
  pub count_call : String → ℕ → ℕ → Store → Store
  count_call k window_seconds now s =
      let more = redis.incr now k s in
      if redis.count now s k == 0 then redis.pexpire now k (window_seconds * 1000) more else more

  -- `_RATE_LIMIT_LUA`: the store after it, whether the call is allowed, and the wait in seconds. Redis turns
  -- a number that a script returns into an integer, and drops its fraction.
  unfoldable pub rate_limit_script : String → ℕ → ℕ → ℕ → Store → Store × Bool × ℕ
  unfolding ms_or count_call
  rate_limit_script k limit window_seconds now s =
      if ltb limit (redis.count now s k + 1)
      then (s, false, ms_or (redis.ttl now s k) (window_seconds * 1000) / 1000)
      else (count_call k window_seconds now s, true, 0)

-- the `detail` of an `IntegrationRateLimitError`
pub record RateLimited : Type 0 where
  pub vendor : String
  pub bucket : String
  pub retry_after_seconds : ℕ

unfoldable pub bucket_key : String → String → String
bucket_key vendor bucket = "ratelimit:" ++s vendor ++s ":" ++s bucket

answer : String → String → Bool → ℕ → Result RateLimited (Unit {0})
answer vendor bucket allowed wait =
    if allowed
    then ok tt
    else err (record { vendor = vendor; bucket = bucket; retry_after_seconds = wait })

module _ {Store : Type 0} (redis : Counters Store) (vendor bucket : String)
    (max_per_period period_seconds : ℕ) where
  unfoldable pub check_rate_limit : ℕ → Store → Store × Result RateLimited (Unit {0})
  unfolding rate_limit_script answer bucket_key
  check_rate_limit now s =
      let (s', allowed, wait) =
        rate_limit_script redis (bucket_key vendor bucket) max_per_period period_seconds now s in
      (s', answer vendor bucket allowed wait)
