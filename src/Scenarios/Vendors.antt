-- ===== src/Scenarios/Vendors.antt =====
-- Concrete runs of the slugs and of the vendors' helpers, over a Redis in memory.
use nativ.Prelude.{
  ℕ, suc, zero, ◌+◌, ◌-◌, ◌*◌, ◌≤◌, ◌<◌, ◌≡◌, ◌≢◌, refl, arith, String, Bool, true, false, Option,
  none, some, List, [], ◌∷◌, Result, ok, err, is_ok, ltb, if◌then◌else◌, ◌=s◌, eq_refl, eq_iff, ap,
}
use nativ.Json.{Json}
use nativ.Text.{strip}
use nativ.Slug.{slugify, base_of}
use nativ.Slug.Shape.{IsSlug}
use nativ.Slug.Fresh.{slugify_returns, IsFree}
use nativ.Vendors.RateLimiter.{Counters, HasExpiry, RateLimited, check_rate_limit}
use nativ.Vendors.RateLimiter.Windows.{
  IsTold, accepted, later, check_rate_limit_bounds, check_rate_limit-retry,
}
use nativ.Vendors.OauthState.{KeyValue, HasTtl, binding, store_state, validate_and_consume_state}
use nativ.Vendors.OauthState.SingleUse.{
  stores, consumes, calls, validate_and_consume_state-store_state,
}

slugify_returns_example :
    (s : String) × (slugify (λ t. t) "Nike, Inc." (some ("nike-inc" ∷ "nike-inc-2" ∷ [])) ≡ ok s)
    × IsSlug s
    × IsFree s (some ("nike-inc" ∷ "nike-inc-2" ∷ []))
unfolding strip base_of
slugify_returns_example =
    slugify_returns (λ t. t) "Nike, Inc." (some ("nike-inc" ∷ "nike-inc-2" ∷ [])) refl refl

nike_three : slugify (λ t. t) "Nike, Inc." (some ("nike-inc" ∷ "nike-inc-2" ∷ [])) ≡ ok "nike-inc-3"
unfolding slugify strip nativ.Prelude.any nativ.Slug.digit
nike_three = refl

-- a counter with the end of its life
data Cell : Type 0 where
  cell : ℕ → Option ℕ → Cell

abbrev read : ℕ → Cell → ℕ
read t (cell n none) = n
read t (cell n (some end_at)) = if ltb t end_at then n else 0

abbrev left : ℕ → Cell → Option ℕ
left t (cell n none) = none
left t (cell n (some end_at)) = if ltb t end_at then some (end_at - t) else none

abbrev bump : ℕ → Cell → Cell
bump t (cell n none) = cell (suc n) none
bump t (cell n (some end_at)) = if ltb t end_at then cell (suc n) (some end_at) else cell 1 none

abbrev limit_life : ℕ → ℕ → Cell → Cell
limit_life t d (cell n none) = cell n (some (t + d))
limit_life t d (cell n (some end_at)) =
    if ltb t end_at then cell n (some (t + d)) else cell n (some end_at)

abbrev memory : Counters (String → Cell)
memory = record {
  count = λ t s k. read t (s k);
  ttl = λ t s k. left t (s k);
  incr = λ t k s j. if k =s j then bump t (s k) else s j;
  pexpire = λ t k d s j. if k =s j then limit_life t d (s k) else s j;
}

read-bump : (t : ℕ) (c : Cell) → read t (bump t c) ≡ suc (read t c)
read-bump t (cell n none) = refl
read-bump t (cell n (some end_at)) = ground arith

left-bump : (t : ℕ) (c : Cell) → read t c ≢ 0 → left t (bump t c) ≡ left t c
left-bump t (cell n none) h = refl
left-bump t (cell n (some end_at)) h = ground arith

read-limit_life : (t d : ℕ) (c : Cell) → 0 < d → read t (limit_life t d c) ≡ read t c
read-limit_life t d (cell n none) h = ground arith
read-limit_life t d (cell n (some end_at)) h = ground arith

left-limit_life : (t d : ℕ) (c : Cell) → 0 < d → read t c ≢ 0 → left t (limit_life t d c) ≡ some d
left-limit_life t d (cell n none) h k = ground arith
left-limit_life t d (cell n (some end_at)) h k = ground arith

lives :
    (t u r : ℕ) (c : Cell)
    → left t c ≡ some r
    → t ≤ u
    → u < t + r
    → (read u c ≡ read t c) × (left u c ≡ some (t + r - u))
lives t u r (cell n none) e h k = cc
lives t u r (cell n (some end_at)) e h k = ground arith

ends : (t u r : ℕ) (c : Cell) → left t c ≡ some r → t + r ≤ u → read u c ≡ 0
ends t u r (cell n none) e h = cc
ends t u r (cell n (some end_at)) e h = ground arith

stays_absent : (t u : ℕ) (c : Cell) → read t c ≡ 0 → t ≤ u → read u c ≡ 0
stays_absent t u (cell n none) e h = e
stays_absent t u (cell n (some end_at)) e h = ground arith

memory-HasExpiry : HasExpiry memory
memory-HasExpiry = record {
  count-incr = λ t k s. rw eq_refl (read-bump t (s k));
  ttl-incr = λ t k s h. rw eq_refl (left-bump t (s k) h);
  count-pexpire = λ t k d s h. rw eq_refl (read-limit_life t d (s k) h);
  ttl-pexpire = λ t k d s h p. rw eq_refl (left-limit_life t d (s k) h p);
  alive = λ t u r k s e h p. lives t u r (s k) e h p;
  expired = λ t u r k s e h. ends t u r (s k) e h;
  absent = λ t u k s e h. stays_absent t u (s k) e h;
}

abbrev nothing : String → Cell
nothing k = cell 0 none

-- Two calls a minute: five calls within a minute, which lies across two windows.
check_rate_limit_bounds_example :
    accepted memory memory-HasExpiry "exa" "global" 2 60
      (omega arith)
      (59000 ∷ 59500 ∷ 61000 ∷ 62000 ∷ 63000 ∷ [])
      (later memory memory-HasExpiry "exa" "global" 2 60 (omega arith) (1000 ∷ []) nothing)
    ≤ 2 + 2
check_rate_limit_bounds_example =
    check_rate_limit_bounds memory memory-HasExpiry "exa" "global" 2 60 (omega arith) 0 59000
      nothing (1000 ∷ []) (59000 ∷ 59500 ∷ 61000 ∷ 62000 ∷ 63000 ∷ []) refl (omega arith, tt)
      (omega arith) (omega arith, tt)
      (omega arith, (omega arith, (omega arith, (omega arith, (omega arith, tt)))))
      (omega arith, (omega arith, (omega arith, (omega arith, (omega arith, tt)))))

abbrev refusal : RateLimited
refusal = record { vendor = "exa"; bucket = "global"; retry_after_seconds = 57 }

-- The key has 57.5 seconds left.
check_rate_limit-retry_example :
    IsTold memory memory-HasExpiry "exa" "global" 1 60
      (omega arith)
      3500
      61500
      57
      (check_rate_limit memory "exa" "global" 1 60 3500
        (later memory memory-HasExpiry "exa" "global" 1 60 (omega arith) (1000 ∷ []) nothing)).0
unfolding check_rate_limit later
check_rate_limit-retry_example =
    check_rate_limit-retry memory memory-HasExpiry "exa" "global" 1 60 (omega arith) 0 3500 61500
      nothing (1000 ∷ []) refusal refl (omega arith, tt) (omega arith) (omega arith, tt)
      (omega arith) refl (omega arith)

-- With less than a second left, a refusal says 0 seconds, and a caller that comes at once is refused.
refused_at_once :
    let refused =
      check_rate_limit memory "exa" "global" 1 60 60500
        (later memory memory-HasExpiry "exa" "global" 1 60 (omega arith) (1000 ∷ []) nothing) in
    (refused.1 ≡ err (record refusal { retry_after_seconds = 0 }))
    × (is_ok (check_rate_limit memory "exa" "global" 1 60 60500 refused.0).1 ≡ false)
unfolding check_rate_limit later
refused_at_once = (refl, refl)

-- a value with the end of its life
data Slot : Type 0 where
  vacant : Slot
  holds : String → ℕ → Slot

abbrev read_slot : ℕ → Slot → Option String
read_slot t vacant = none
read_slot t (holds v end_at) = if ltb t end_at then some v else none

abbrev slots : KeyValue (String → Slot)
slots = record {
  get = λ t k s. read_slot t (s k);
  setex = λ t k ttl v s j. if k =s j then holds v (t + ttl) else s j;
  del = λ k s j. if k =s j then vacant else s j;
}

slots-HasTtl : HasTtl slots
slots-HasTtl = record {
  get-setex = λ t u k ttl v s h p. rw eq_refl (ground arith);
  get-setex_late = λ t u k ttl v s h. rw eq_refl (ground arith);
  get-setex_other = λ t u k j ttl v s h. ground (arith, eq_iff j k);
  get-del = λ u k s. rw eq_refl refl;
  get-del_other = λ u k j s h. ground (arith, eq_iff j k);
}

abbrev dumped : Json → String
dumped v = "payload"

abbrev loaded : String → Json
loaded s = binding "talent-1" "tiktok" (some "verifier")

names_differ : ◌≢◌ {A = String} "s1" "s2"
names_differ h = cc ((eq_iff "s1" "s2").1 h)

validate_and_consume_state-store_state_example :
    let stored =
      calls slots slots-HasTtl dumped loaded
        (stores 50 "s2" "talent-2" "meta" none 600 ∷ [])
        (store_state slots dumped 0 "s1" "talent-1" "tiktok" (some "verifier") 600 (λ k. vacant)) in
    let validated = validate_and_consume_state slots loaded 100 "s1" stored in
    (validated.1 ≡ some (binding "talent-1" "tiktok" (some "verifier")))
    × ((validate_and_consume_state slots loaded 200 "s1"
          (calls slots slots-HasTtl dumped loaded (consumes 150 "s2" ∷ []) validated.0)).1
        ≡ none)
    × ((validate_and_consume_state slots loaded 700 "s1" stored).1 ≡ none)
validate_and_consume_state-store_state_example =
    validate_and_consume_state-store_state slots slots-HasTtl dumped loaded 0 100 200 700 "s1"
      "talent-1" "tiktok" (some "verifier") 600 (λ k. vacant)
      (stores 50 "s2" "talent-2" "meta" none 600 ∷ []) (consumes 150 "s2" ∷ []) refl (omega arith)
      (omega arith) (omega arith) (names_differ, tt) (names_differ, tt)

-- A window of a minute that slid would let two through.
three_in_four_seconds :
    accepted memory memory-HasExpiry "exa" "global" 2 60
      (omega arith)
      (59000 ∷ 59500 ∷ 61000 ∷ 62000 ∷ 63000 ∷ [])
      (later memory memory-HasExpiry "exa" "global" 2 60 (omega arith) (1000 ∷ []) nothing)
    ≡ 3
unfolding accepted later check_rate_limit
three_in_four_seconds = refl
