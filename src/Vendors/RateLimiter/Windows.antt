-- ===== src/Vendors/RateLimiter/Windows.antt =====
-- What the limiter of app/vendors/_rate_limiter.py allows in any stretch of time, and when a caller
-- that it refused may come back.
use nativ.Prelude.{
  ℕ, suc, ◌+◌, ◌-◌, ◌*◌, ◌/◌, ◌≤◌, ◌<◌, ◌≡◌, ◌≢◌, ◌∙◌, ap, arith, String, true, false, some, List,
  [], ◌∷◌, Result, err, is_ok, ◌==◌, ltb, if◌then◌else◌, All, Bool-cases, ◌⊎◌, inl, inr, ltb→lt,
}
use nativ.Vendors.RateLimiter.{
  Counters, HasExpiry, RateLimited, bucket_key, count_call, rate_limit_script, check_rate_limit,
  answer, ms_or,
}

-- times that do not go back, none of them before the first argument
abbrev pub Rising : ℕ → List ℕ → Type 0
Rising from [] = Unit
Rising from (t ∷ ts) = (from ≤ t) × Rising t ts

module _ {Store : Type 0} (redis : Counters Store) (laws : HasExpiry redis) (vendor bucket : String)
    (limit period : ℕ) (lasts : 0 < period) where
  abbrev key : String
  key = bucket_key vendor bucket

  abbrev call : ℕ → Store → Store × Result RateLimited (Unit {0})
  call = check_rate_limit redis vendor bucket limit period

  -- At a time: no key, or a key with an expiry that holds at most the limit.
  abbrev IsCounted : ℕ → Store → Type 0
  IsCounted t s =
      (redis.count t s key ≡ 0)
      ⊎ (redis.count t s key ≤ limit × (r : ℕ) × (redis.ttl t s key ≡ some r))

  call-refused : (t : ℕ) (s : Store) → limit < redis.count t s key + 1 → (call t s).0 ≡ s
  unfolding check_rate_limit rate_limit_script
  call-refused t s h = ground arith

  call-allowed :
      (t : ℕ) (s : Store)
      → redis.count t s key + 1 ≤ limit
      → (is_ok (call t s).1 ≡ true) × ((call t s).0 ≡ count_call redis key period t s)
  unfolding check_rate_limit rate_limit_script
  call-allowed t s h = ground arith

  count_call-opens :
      (t : ℕ) (s : Store)
      → redis.count t s key ≡ 0
      → (redis.count t (count_call redis key period t s) key ≡ 1)
        × (redis.ttl t (count_call redis key period t s) key ≡ some (period * 1000))
  unfolding count_call
  count_call-opens t s h =
      let k = bucket_key vendor bucket in
      let there : redis.count t (redis.incr t k s) k ≡ 1 = laws.count-incr t k s ∙ ap suc h in
      ground (
        arith,
        there,
        laws.count-pexpire t k (period * 1000) (redis.incr t k s),
        laws.ttl-pexpire t k (period * 1000) (redis.incr t k s),
      )

  count_call-counts :
      (t n r : ℕ) (s : Store)
      → redis.count t s key ≡ suc n
      → redis.ttl t s key ≡ some r
      → (redis.count t (count_call redis key period t s) key ≡ suc (suc n))
        × (redis.ttl t (count_call redis key period t s) key ≡ some r)
  unfolding count_call
  count_call-counts t n r s h e =
      let k = bucket_key vendor bucket in ground (arith, laws.count-incr t k s, laws.ttl-incr t k s)

  -- how many of the calls at these times return
  unfoldable pub accepted : List ℕ → Store → ℕ
  accepted [] s = 0
  accepted (t ∷ ts) s =
      let rest = accepted ts (call t s).0 in if is_ok (call t s).1 then suc rest else rest

  unfoldable pub later : List ℕ → Store → Store
  later [] s = s
  later (t ∷ ts) s = later ts (call t s).0

  accepted-refused :
      (u : ℕ) (us : List ℕ) (s : Store)
      → limit < redis.count u s key + 1
      → accepted (u ∷ us) s ≡ accepted us s
  unfolding accepted check_rate_limit rate_limit_script
  accepted-refused u us s h = ground arith

  accepted-allowed :
      (u : ℕ) (us : List ℕ) (s : Store)
      → redis.count u s key + 1 ≤ limit
      → accepted (u ∷ us) s ≡ suc (accepted us (count_call redis key period u s))
  unfolding accepted check_rate_limit rate_limit_script
  accepted-allowed u us s h = ground arith

  -- A call at a time when the key is there: it uses up one of the limit, or changes nothing.
  call-balance :
      (u r : ℕ) (us : List ℕ) (s : Store)
      → redis.count u s key ≢ 0
      → redis.count u s key ≤ limit
      → redis.ttl u s key ≡ some r
      → (accepted (u ∷ us) s + redis.count u s key
          ≡ accepted us (call u s).0 + redis.count u (call u s).0 key)
        × (redis.count u (call u s).0 key ≤ limit)
        × (redis.count u (call u s).0 key ≢ 0)
        × (redis.ttl u (call u s).0 key ≡ some r)
  call-balance u r us s held room e = elim (Bool-cases (ltb (redis.count u s key) limit)) [
    | inl more ↦
        let (c', e') = count_call-counts u (redis.count u s key - 1) r s (omega arith) e in
        let (yes_ok, same) = call-allowed u s (ground arith) in
        rw same (
          omega (arith, accepted-allowed u us s (ground arith), c'),
          ground (arith, c'),
          λ z. absurd (omega (arith, c')),
          e',
        )
    | inr full ↦
        rw (call-refused u s (ground arith))
          (omega (arith, accepted-refused u us s (ground arith)), room, held, e)
  ]

  -- Before the key expires, the calls that return fill up what is left of the limit.
  accepted_in_window :
      (t r end_at : ℕ) (s : Store)
      → redis.count t s key ≢ 0
      → redis.count t s key ≤ limit
      → redis.ttl t s key ≡ some r
      → end_at ≤ t + r
      → (ts : List ℕ) → Rising t ts
      → All (λ u. u < end_at) ts
      → accepted ts s + redis.count t s key ≤ limit
  unfolding accepted
  accepted_in_window t r end_at s held room e ends [] rising within = omega arith
  accepted_in_window t r end_at s held room e ends (u ∷ us) rising within =
      let (c', e') = laws.alive t u r key s e rising.0 (omega (arith, within.0)) in
      let (sum, room', held', e'') =
        call-balance u (t + r - u) us s (λ z. held (omega (arith, c', z))) (omega (arith, c')) e' in
      omega (
        arith,
        sum,
        c',
        accepted_in_window u (t + r - u) end_at (call u s).0 held' room' e''
            (omega (arith, within.0)) us rising.1 within.1,
      )

  accepted_from_empty :
      (t end_at : ℕ) (s : Store)
      → redis.count t s key ≡ 0
      → end_at ≤ t + period * 1000
      → (ts : List ℕ) → Rising t ts
      → All (λ u. u < end_at) ts
      → accepted ts s ≤ limit
  unfolding accepted
  accepted_from_empty t end_at s none_left near [] rising within = omega arith
  accepted_from_empty t end_at s none_left near (u ∷ us) rising within =
      let empty = laws.absent t u key s none_left rising.0 in
      elim (Bool-cases (ltb 0 limit)) [
        | inl more ↦
            let (c, e) = count_call-opens u s empty in
            omega (
              arith,
              c,
              accepted-allowed u us s (ground (arith, empty)),
              accepted_in_window u (period * 1000) end_at (count_call redis key period u s)
                  (λ z. absurd (omega (arith, c, z))) (ground (arith, c)) e
                  (omega (arith, rising.0)) us rising.1 within.1,
            )
        | inr full ↦ omega (
          arith,
          accepted-refused u us s (ground (arith, empty)),
          accepted_from_empty u end_at s empty (omega (arith, rising.0)) us rising.1 within.1,
        )
      ]

  -- A key that is there may expire within the stretch, and then a second window opens.
  accepted_over_two :
      (t r end_at : ℕ) (s : Store)
      → redis.count t s key ≤ limit
      → redis.ttl t s key ≡ some r
      → end_at ≤ t + period * 1000
      → (ts : List ℕ) → Rising t ts
      → All (λ u. u < end_at) ts
      → accepted ts s + redis.count t s key ≤ limit + limit
  unfolding accepted
  accepted_over_two t r end_at s c e near [] rising within = omega arith
  accepted_over_two t r end_at s c e near (u ∷ us) rising within =
      elim (Bool-cases (ltb u (t + r))) [
        | inr over ↦ omega (
          arith,
          accepted_from_empty u end_at s (laws.expired t u r key s e (ground arith))
              (omega (arith, rising.0)) (u ∷ us) (omega arith, rising.1) within,
        )
        | inl before_end ↦
            let (c', e') = laws.alive t u r key s e rising.0 (ltb→lt u (t + r) before_end) in
            elim (Bool-cases (redis.count t s key == 0)) [
              | inl empty ↦
                  ground (
                    arith,
                    accepted_from_empty t end_at s (ground arith) near (u ∷ us) rising within,
                  )
              | inr held ↦
                  let (sum, room', held', e'') =
                    call-balance u (t + r - u) us s (λ z. ground (arith, c', z)) (omega (arith, c'))
                      e' in
                  omega (
                    arith,
                    sum,
                    c',
                    accepted_over_two u (t + r - u) end_at (call u s).0 room' e''
                        (omega (arith, rising.0)) us rising.1 within.1,
                  )
            ]
      ]

  -- The state of the key, later.
  IsCounted-later : (t u : ℕ) (s : Store) → t ≤ u → IsCounted t s → IsCounted u s
  IsCounted-later t u s h (inl empty) = inl (laws.absent t u key s empty h)
  IsCounted-later t u s h (inr (c, r, e)) = elim (Bool-cases (ltb u (t + r))) [
    | inl before_end ↦
        let (c', e') = laws.alive t u r key s e h (ltb→lt u (t + r) before_end) in
        inr (omega (arith, c'), t + r - u, e')
    | inr over ↦ inl (laws.expired t u r key s e (ground arith))
  ]

  call-IsCounted_empty : (u : ℕ) (s : Store) → redis.count u s key ≡ 0 → IsCounted u (call u s).0
  call-IsCounted_empty u s empty = elim (Bool-cases (ltb 0 limit)) [
    | inl more ↦
        let (c, e) = count_call-opens u s empty in
        rw ((call-allowed u s (ground (arith, empty))).1)
          (inr (ground (arith, c), period * 1000, e))
    | inr full ↦ rw (call-refused u s (ground (arith, empty))) (inl empty)
  ]

  call-IsCounted : (u : ℕ) (s : Store) → IsCounted u s → IsCounted u (call u s).0
  call-IsCounted u s (inl empty) = call-IsCounted_empty u s empty
  call-IsCounted u s (inr (c, r, e)) = elim (Bool-cases (redis.count u s key == 0)) [
    | inl empty ↦ call-IsCounted_empty u s (ground arith)
    | inr held ↦
        let (sum, room, held', e') = call-balance u r [] s (λ z. ground (arith, z)) c e in
        inr (room, r, e')
  ]

  later-IsCounted :
      (from t : ℕ) (s : Store) (ts : List ℕ)
      → IsCounted from s
      → Rising from ts
      → from ≤ t
      → All (λ u. u ≤ t) ts
      → IsCounted t (later ts s)
  unfolding later
  later-IsCounted from t s [] inv rising h bound = IsCounted-later from t s h inv
  later-IsCounted from t s (u ∷ us) inv rising h bound =
      later-IsCounted u t (call u s).0 us
        (call-IsCounted u s (IsCounted-later from u s rising.0 inv)) rising.1 bound.0 bound.1

  -- After any calls since the key was absent: of the calls that fall into a stretch of time as long
  -- as the period, at most twice the limit return.
  pub check_rate_limit_bounds :
      (from t : ℕ) (s : Store) (before ts : List ℕ)
      → redis.count from s key ≡ 0
      → Rising from before
      → from ≤ t
      → All (λ u. u ≤ t) before
      → Rising t ts
      → All (λ u. u < t + period * 1000) ts
      → accepted ts (later before s) ≤ limit + limit
  check_rate_limit_bounds from t s before ts empty rising h bound rising' within =
      elim (later-IsCounted from t s before (inl empty) rising h bound) [
        | inl empty' ↦ omega (
          arith,
          accepted_from_empty t (t + period * 1000) (later before s) empty' (omega arith) ts rising'
              within,
        )
        | inr (c, r, e) ↦ omega (
          arith,
          accepted_over_two t r (t + period * 1000) (later before s) c e (omega arith) ts rising'
              within,
        )
      ]

  refusal_wait :
      (t r : ℕ) (s : Store) (e : RateLimited)
      → redis.ttl t s key ≡ some r
      → (call t s).1 ≡ err e
      → limit < redis.count t s key + 1
      → e.retry_after_seconds ≡ r / 1000
  unfolding ms_or check_rate_limit rate_limit_script answer
  refusal_wait t r s e expires refused full = ground arith

  is_ok-refused : (u : ℕ) (s : Store) → limit < redis.count u s key + 1 → is_ok (call u s).1 ≡ false
  unfolding check_rate_limit rate_limit_script answer
  is_ok-refused u s h = ground arith

  -- A refusal: the store is as it was, the key is full, and its time is the wait and part of a second.
  record IsFull (t wait : ℕ) (s : Store) : Type 0 where
    same : (call t s).0 ≡ s
    full : redis.count t s key ≡ limit
    left : ℕ
    expires : redis.ttl t s key ≡ some left
    wait_of : wait ≡ left / 1000

  IsFull-call :
      (t : ℕ) (s : Store) (e : RateLimited)
      → IsCounted t s
      → 0 < limit
      → (call t s).1 ≡ err e
      → IsFull t e.retry_after_seconds s
  IsFull-call t s e inv positive refused = elim (Bool-cases (ltb (redis.count t s key) limit)) [
    | inl more ↦ absurd (ground (arith, call-allowed t s (ground arith)))
    | inr full ↦ elim inv [
      | inl empty ↦ absurd (ground (arith, empty))
      | inr (c, r, expires) ↦ record {
        same = call-refused t s (ground arith);
        full = ground (arith, c);
        left = r;
        expires = expires;
        wait_of = refusal_wait t r s e expires refused (ground arith);
      }
    ]
  ]

  call_too_early :
      (t u wait : ℕ) (s : Store)
      → IsFull t wait s
      → t ≤ u
      → u < t + wait * 1000
      → is_ok (call u (call t s).0).1 ≡ false
  call_too_early t u wait s f h early =
      let (c, e) = laws.alive t u f.left key s f.expires h (omega (arith, f.wait_of)) in
      rw (f.same) (is_ok-refused u s (omega (arith, c, f.full)))

  call_in_time :
      (t u wait : ℕ) (s : Store)
      → IsFull t wait s
      → 0 < limit
      → t + (wait + 1) * 1000 ≤ u
      → is_ok (call u (call t s).0).1 ≡ true
  call_in_time t u wait s f positive late = rw (f.same) (
      (call-allowed u s
        (omega (arith, laws.expired t u f.left key s f.expires (omega (arith, f.wait_of))))).0)

  -- What a caller meets that comes back at a time after a refusal.
  abbrev pub IsTold : ℕ → ℕ → ℕ → Store → Type 0
  IsTold t u wait s =
      ((u < t + wait * 1000) × (is_ok (call u s).1 ≡ false))
      ⊎ ((t + wait * 1000 ≤ u) × (u < t + (wait + 1) * 1000))
      ⊎ ((t + (wait + 1) * 1000 ≤ u) × (is_ok (call u s).1 ≡ true))

  -- After any calls since the key was absent, and with a positive limit and a positive period, a refusal says
  -- to the second when a caller may come back, if nobody calls in between: before the seconds that it says have passed, the
  -- caller is refused again, and from one second after them on, the caller is let through.
  pub check_rate_limit-retry :
      (from t u : ℕ) (s : Store) (before : List ℕ) (e : RateLimited)
      → redis.count from s key ≡ 0
      → Rising from before
      → from ≤ t
      → All (λ v. v ≤ t) before
      → 0 < limit
      → (call t (later before s)).1 ≡ err e
      → t ≤ u
      → IsTold t u e.retry_after_seconds (call t (later before s)).0
  check_rate_limit-retry from t u s before e empty rising h bound positive refused after =
      let wait : ℕ = e.retry_after_seconds in
      let f =
        IsFull-call t (later before s) e
          (later-IsCounted from t s before (inl empty) rising h bound) positive refused in
      elim (Bool-cases (ltb u (t + wait * 1000))) [
        | inl early ↦
            let too_early : u < t + wait * 1000 = ltb→lt u (t + wait * 1000) early in
            inl (too_early, call_too_early t u wait (later before s) f after too_early)
        | inr not_early ↦ elim (Bool-cases (ltb u (t + (wait + 1) * 1000))) [
          | inl between ↦
              inr (inl (ground (arith, not_early), ltb→lt u (t + (wait + 1) * 1000) between))
          | inr over ↦
              let late : t + (wait + 1) * 1000 ≤ u = ground (arith, over) in
              inr (inr (late, call_in_time t u wait (later before s) f positive late))
        ]
      ]
