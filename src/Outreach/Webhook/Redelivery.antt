-- ===== src/Outreach/Webhook/Redelivery.antt =====
-- A delivery that comes again.
use nativ.Prelude.{
  ℕ, ◌+◌, ◌≤◌, ◌<◌, String, ◌≡◌, ◌≢◌, refl, ap, ◌∙◌, Bool, true, false, some, List, [], ◌∷◌, arith,
  any, Result, ok, err, ◌=s◌, eq_refl, Bool-cases, inl, inr, ltb, ◌⊎◌, ltb→lt,
}
use nativ.Json.{Json, Fields}
use nativ.Outreach.Replies.{OutcomeClassification, World, Summary, ReplyError, handle_reply}
use nativ.Outreach.Webhook.{
  Held, Inbox, Answer, duplicate, dedupe_ttl_seconds, is_held, seen_before, enrollment_id_from,
  dedupe_key, reply_body_of, occurred_at_of, settle, after_seen, with_id, reply,
}

-- A key that is not there is not there later.
not_held_later :
    (t u : ℕ) (key : String) (seen : List Held)
    → t ≤ u
    → is_held t key seen ≡ false
    → is_held u key seen ≡ false
unfolding is_held any
not_held_later t u key [] h free = refl
not_held_later t u key (x ∷ seen) h free = ground (arith, not_held_later t u key seen h, free)

-- The keys after the first test of a key: it is there for as long as it is kept, and no longer.
held_after :
    (t u : ℕ) (key : String) (seen : List Held)
    → u < t + dedupe_ttl_seconds
    → is_held u key ((key, t + dedupe_ttl_seconds) ∷ seen) ≡ true
unfolding is_held any
held_after t u key seen h = rw (eq_refl key) (ground arith)

not_held_after :
    (t u : ℕ) (key : String) (seen : List Held)
    → t + dedupe_ttl_seconds ≤ u
    → is_held t key seen ≡ false
    → is_held u key ((key, t + dedupe_ttl_seconds) ∷ seen) ≡ false
unfolding is_held any
not_held_after t u key seen h free =
    ground (arith, not_held_later t u key seen (omega (arith, h)) free)

module _ (repr : Json → String) (digest : String → String) where
  settle-seen :
      (w : World) (seen : List Held) (r : Result ReplyError (World × Summary))
      → (settle repr digest w seen r).1.seen ≡ seen
  unfolding settle
  settle-seen w seen (ok x) = refl
  settle-seen w seen (err e) = refl

  settle-not_duplicate :
      (w : World) (seen : List Held) (pk : String) (r : Result ReplyError (World × Summary))
      → (settle repr digest w seen r).0 ≢ ok (duplicate pk)
  unfolding settle
  settle-not_duplicate w seen pk (ok x) h = cc (h)
  settle-not_duplicate w seen pk (err e) h = cc (h)

  after_seen-seen :
      (agency fresh at occurred_at : String) (c : OutcomeClassification) (body : Fields) (w : World)
      (pk : String) (x : Bool × List Held)
      → (after_seen repr digest agency fresh at occurred_at c body w pk x).1.seen ≡ x.1
  unfolding after_seen
  after_seen-seen agency fresh at occurred_at c body w pk (true, seen) = refl
  after_seen-seen agency fresh at occurred_at c body w pk (false, seen) =
      elim (Bool-cases (reply_body_of repr digest body =s "")) [
        | inl empty ↦ rw empty refl
        | inr full ↦ rw full (settle-seen w seen (handle_reply agency fresh at occurred_at pk c w))
      ]

  after_seen-not_duplicate :
      (agency fresh at occurred_at : String) (c : OutcomeClassification) (body : Fields) (w : World)
      (pk : String) (seen : List Held)
      → (after_seen repr digest agency fresh at occurred_at c body w pk (false, seen)).0
        ≢ ok (duplicate pk)
  unfolding after_seen
  after_seen-not_duplicate agency fresh at occurred_at c body w pk seen h =
      elim (Bool-cases (reply_body_of repr digest body =s "")) [
        | inl empty ↦ cc (rw empty at h)
        | inr full ↦ settle-not_duplicate w seen pk _ (rw full at h)
      ]

  -- The keys after a delivery that is taken up.
  kept :
      (agency fresh at : String) (now : ℕ) (c : OutcomeClassification) (body : Fields)
      (inbox : Inbox) (pk : String)
      → is_held now (dedupe_key repr digest body "email_replied") inbox.seen ≡ false
      → (with_id repr digest agency fresh at now c true body inbox (some pk)).1.seen
        ≡ (dedupe_key repr digest body "email_replied", now + dedupe_ttl_seconds) ∷ inbox.seen
  unfolding with_id seen_before
  kept agency fresh at now c body inbox pk free = rw free (
      after_seen-seen agency fresh at (occurred_at_of repr digest at body) c body inbox.world pk (
        false,
        (dedupe_key repr digest body "email_replied", now + dedupe_ttl_seconds) ∷ inbox.seen,
      ))

  again :
      (agency fresh at : String) (now : ℕ) (c : OutcomeClassification) (body : Fields) (pk : String)
      (inbox : Inbox)
      → is_held now (dedupe_key repr digest body "email_replied") inbox.seen ≡ true
      → with_id repr digest agency fresh at now c true body inbox (some pk)
        ≡ (ok (duplicate pk), inbox)
  unfolding with_id after_seen seen_before
  again agency fresh at now c body pk inbox h = rw h refl

  anew :
      (agency fresh at : String) (now : ℕ) (c : OutcomeClassification) (body : Fields) (pk : String)
      (inbox : Inbox)
      → is_held now (dedupe_key repr digest body "email_replied") inbox.seen ≡ false
      → (with_id repr digest agency fresh at now c true body inbox (some pk)).0 ≢ ok (duplicate pk)
  unfolding with_id seen_before
  anew agency fresh at now c body pk inbox h = rw h (
      after_seen-not_duplicate agency fresh at (occurred_at_of repr digest at body) c body
        inbox.world pk _)

  -- What comes of a delivery that was taken up at `t`, when it comes again at `u`.
  abbrev pub IsRedelivered : ℕ → ℕ → String → Inbox → Result ReplyError Answer × Inbox → Type 0
  IsRedelivered t u pk inbox result =
      ((u < t + dedupe_ttl_seconds) × (result ≡ (ok (duplicate pk), inbox)))
      ⊎ ((t + dedupe_ttl_seconds ≤ u) × (result.0 ≢ ok (duplicate pk)))

  -- A delivery that names an enrollment, and comes while Redis does not hold its key, is taken up: whether it
  -- is then processed, ignored, or raises, a delivery of the same body within 24 hours is answered as a
  -- duplicate and changes nothing, whatever its text would be classified as; from then on it is not
  -- answered as a duplicate. Redis can be reached both times, and no other delivery comes in between.
  pub reply_again :
      (agency fresh fresh' at at' : String) (t u : ℕ) (c c' : OutcomeClassification) (body : Fields)
      (inbox : Inbox) (pk : String)
      → enrollment_id_from body ≡ some pk
      → is_held t (dedupe_key repr digest body "email_replied") inbox.seen ≡ false
      → IsRedelivered t u pk (reply repr digest agency fresh at t c true body inbox).1 (
          reply repr digest agency fresh' at' u c' true body
            (reply repr digest agency fresh at t c true body inbox).1)
  unfolding reply
  reply_again agency fresh fresh' at at' t u c c' body inbox pk h free =
      let key : String = dedupe_key repr digest body "email_replied" in
      let after : Inbox = (with_id repr digest agency fresh at t c true body inbox (some pk)).1 in
      let keys = kept agency fresh at t c body inbox pk free in
      rw h (elim (Bool-cases (ltb u (t + dedupe_ttl_seconds))) [
        | inl soon ↦
            let within : u < t + dedupe_ttl_seconds = ltb→lt u (t + dedupe_ttl_seconds) soon in
            inl (
              within,
              again agency fresh' at' u c' body pk after
                  (ap (is_held u key) keys ∙ held_after t u key inbox.seen within),
            )
        | inr over ↦
            let late : t + dedupe_ttl_seconds ≤ u = ground (arith, over) in
            inr (
              late,
              anew agency fresh' at' u c' body pk after
                  (ap (is_held u key) keys ∙ not_held_after t u key inbox.seen late free),
            )
      ])
