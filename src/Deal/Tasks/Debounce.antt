-- ===== src/Deal/Tasks/Debounce.antt =====
-- The prep-pack task marks what it has taken on, so that the next ticks pass it by.
use nativ.Prelude.{
  ℕ, ◌+◌, ◌≤◌, String, ◌≡◌, refl, subst, Bool, true, false, Option, some, List, [], ◌∷◌, arith, All,
  length, ◌=s◌,
}
use nativ.Json.Dict.{get-put_self}
use nativ.Deal.Row.{Deal}
use nativ.Deal.Repository.Scanners.{enqueue_stale}
use nativ.Deal.Tasks.{FireReport, stamped, fire_turn, process_ready_deals}

module _ (parse_iso : String → Option ℕ) (now : ℕ) (now_iso : String)
    (parses : parse_iso now_iso ≡ some now) (not_blank : (now_iso =s "") ≡ false) (later : ℕ)
    (within : later ≤ now + 3600) where
  stamped_fresh : (d : Deal) → enqueue_stale parse_iso later (stamped now_iso d).doc ≡ false
  unfolding enqueue_stale stamped
  stamped_fresh d = rw (get-put_self, not_blank, parses) (ground arith)

  -- The report of a tick: whoever is still stale was refused by the queue; each deal is counted once;
  -- and with the flag off nothing was enqueued.
  pub record IsFired (auto_fire : Bool) (send : String → Bool) (n : ℕ) (report : FireReport)
      : Type 0 where
    pub stale_refused :
        All
          (λ (d : Deal). enqueue_stale parse_iso later d.doc ≡ true → send d.deal_id ≡ false)
          report.rows
    pub counted : report.enqueued + report.skipped_gated + length report.errors ≡ n
    pub gated : auto_fire ≡ false → report.enqueued ≡ 0

  fire_turn-IsFired :
      (auto_fire : Bool) (send : String → Bool) (b : Bool) (n : ℕ) (d : Deal) (report : FireReport)
      → send d.deal_id ≡ b
      → IsFired auto_fire send n report
      → IsFired auto_fire send (n + 1) (fire_turn auto_fire b now_iso d report)
  unfolding fire_turn
  fire_turn-IsFired true send true n d report e f = record {
    stale_refused = (λ s. cc (s, stamped_fresh d), f.stale_refused);
    counted = omega (arith, f.counted);
    gated = λ g. cc;
  }
  fire_turn-IsFired true send false n d report e f = record {
    stale_refused = (λ s. e, f.stale_refused);
    counted = omega (arith, f.counted);
    gated = λ g. cc;
  }
  fire_turn-IsFired false send b n d report e f = record {
    stale_refused = (λ s. cc (s, stamped_fresh d), f.stale_refused);
    counted = omega (arith, f.counted);
    gated = f.gated;
  }

  -- For an hour after a tick, a deal of the tick is stale only if the queue refused its task; each deal
  -- is counted once; and nothing is enqueued where the flag is off. The ISO text of the tick's time must
  -- be read as that time.
  pub process_ready_deals-IsFired :
      (auto_fire : Bool) (send : String → Bool) (ready : List Deal)
      → IsFired auto_fire send (length ready) (process_ready_deals auto_fire send now_iso ready)
  unfolding process_ready_deals
  process_ready_deals-IsFired auto_fire send [] = record {
    stale_refused = tt;
    counted = refl;
    gated = λ g. refl;
  }
  process_ready_deals-IsFired auto_fire send (d ∷ ds) =
      subst
        (λ n. IsFired auto_fire send n (
          fire_turn auto_fire (send d.deal_id) now_iso d
            (process_ready_deals auto_fire send now_iso ds)))
        (omega arith)
        (fire_turn-IsFired auto_fire send (send d.deal_id) (length ds) d _ refl
          (process_ready_deals-IsFired auto_fire send ds))
