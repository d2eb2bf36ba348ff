-- ===== src/Outreach/Eligibility/Cooldown.antt =====
-- The cooldown after a pitch.
use nativ.Prelude.{
  ℕ, ◌+◌, ◌*◌, ◌≤◌, String, ◌≡◌, ◌≢◌, refl, Bool, true, false, Option, none, some, List, arith,
  ◌=s◌, eq_refl, ◌||◌,
}
use nativ.Json.{Json, Items, Fields, obj, nil, cons, get, truthy, append}
use nativ.Outreach.PitchHistory.{
  pitch_entry, history_of, history_of-put, append_pitch_history, or_else,
}
use nativ.Outreach.Rows.{Enrollment}
use nativ.Outreach.Eligibility.{
  day, is_recent, any_item, is_eligible, has_recent_pitch, was_recently_pitched,
}

any_item-append :
    (p : Json → Bool) (xs : Items) (x : Json)
    → any_item p (append xs (cons x nil)) ≡ (any_item p xs || p x)
unfolding any_item append
any_item-append p nil x = ground arith
any_item-append p (cons y ys) x = ground (arith, any_item-append p ys x)

history_of-append_pitch_history :
    (entry m : Fields)
    → history_of (append_pitch_history entry m) ≡ append (history_of m) (cons (obj entry) nil)
unfolding append_pitch_history
history_of-append_pitch_history entry m = history_of-put _ m

module _ (parse_iso : String → Option ℕ) where
  -- An entry of the writer is seen under `pitched_at`.
  is_recent-pitch_entry :
      (talent enrollment template channel when_iso : String) (t now days : ℕ)
      → parse_iso when_iso ≡ some t
      → (when_iso =s "") ≡ false
      → now ≤ t + days * day
      → is_recent parse_iso "pitched_at" "created_at" talent now days
          (obj (pitch_entry talent enrollment template channel when_iso))
        ≡ true
  unfolding is_recent pitch_entry get or_else truthy
  is_recent-pitch_entry talent enrollment template channel when_iso t now days e b h =
      rw (eq_refl, b, e) (ground arith)

  -- and has neither of the times that the other readers look for.
  not_recent-pitch_entry :
      (reader talent enrollment template channel when_iso : String) (now days : ℕ)
      → is_recent parse_iso "created_at" "sent_at" reader now days
          (obj (pitch_entry talent enrollment template channel when_iso))
        ≡ false
  unfolding is_recent pitch_entry get or_else
  not_recent-pitch_entry reader talent enrollment template channel when_iso now days = ground arith

  -- Until the cooldown has run out after a recorded pitch, whose time is a text that can be read, the
  -- outreach filter refuses the contact to the talent who pitched.
  pub is_eligible-after_pitch :
      (talent enrollment template channel when_iso : String) (m : Fields) (dnc : Bool)
      (running : List Enrollment) (t now days : ℕ)
      → parse_iso when_iso ≡ some t
      → (when_iso =s "") ≡ false
      → now ≤ t + days * day
      → is_eligible parse_iso now days dnc
          (append_pitch_history (pitch_entry talent enrollment template channel when_iso) m)
          talent
          running
        ≢ none
  unfolding is_eligible
  is_eligible-after_pitch talent enrollment template channel when_iso m dnc running t now days e b
        h =
      let entry = pitch_entry talent enrollment template channel when_iso in
      let p = is_recent parse_iso "pitched_at" "created_at" talent now days in
      ground (
        arith,
        history_of-append_pitch_history entry m,
        any_item-append p (history_of m) (obj entry),
        is_recent-pitch_entry talent enrollment template channel when_iso t now days e b h,
      )

  -- A history in which every entry is the writer's.
  abbrev pub Written : Items → Type 0
  Written nil = Unit
  Written (cons x xs) =
      ((talent : String) × (enrollment : String) × (template : String) × (channel : String)
        × (when_iso : String) × (x ≡ obj (pitch_entry talent enrollment template channel when_iso)))
      × Written xs

  none_recent :
      (reader : String) (now days : ℕ) (xs : Items)
      → Written xs
      → any_item (is_recent parse_iso "created_at" "sent_at" reader now days) xs ≡ false
  unfolding any_item
  none_recent reader now days nil w = refl
  none_recent reader now days (cons x xs) (h, w) = ground (
    arith,
    h.5,
    not_recent-pitch_entry reader h.0 h.1 h.2 h.3 h.4 now days,
    none_recent reader now days xs w,
  )

  -- On a history that the program itself has written, the cooldown tests of the enrichment pipeline
  -- and of the contact repository never find a pitch, however recent.
  pub cooldown_blind :
      (m : Fields) (reader : String) (now days : ℕ)
      → Written (history_of m)
      → (has_recent_pitch parse_iso now days m reader ≡ false)
        × (was_recently_pitched parse_iso now m reader ≡ false)
  unfolding has_recent_pitch was_recently_pitched
  cooldown_blind m reader now days w =
      (none_recent reader now days (history_of m) w, none_recent reader now 14 (history_of m) w)
