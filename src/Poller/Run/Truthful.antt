-- ===== src/Poller/Run/Truthful.antt =====
-- About Run of internal/poller/poller.go with pollSafely: what the heartbeats of a whole run say, when
-- some of its cycles panic.
use seestorm_ingest.Base.{
  ◌≡◌, refl, inl, inr, Bool, true, false, Option, none, some, List, [], ◌∷◌, subst, if◌then◌else◌,
  ℕ, suc, Bool-cases, ◌&&◌, sym,
}
use seestorm_ingest.Base.Bytes.{Bytes}
use seestorm_ingest.Base.Int.{ltb_ℤ, pos}
use seestorm_ingest.Poller.Mode.{should_ingest}
use seestorm_ingest.Poller.Budget.{Context}
use seestorm_ingest.Poller.Alerts.{poll_alerts}
use seestorm_ingest.Poller.Alerts.Vouching.{
  Remembers, delivered, poll_alerts-Remembers, endpoint_of,
}
use seestorm_ingest.Poller.Schedule.{run_ticks, startup_jitter}
use seestorm_ingest.Poller.Cycle.{
  Config, World, PollCycle, alerts_cycle, fetch_store, fetch_store_ctx, ingest_if,
}
use seestorm_ingest.Poller.Cycle.Heartbeat.{
  Remembers-frame, delivered_by, Upright, ingest_if-Remembers, poll-Remembers, pinged-Says, Says,
}
use seestorm_ingest.Poller.Run.{
  Panic, in_fetch, in_decode, in_upsert, in_reports, in_purge, in_publish, panicked, poll_safely,
  Turn, Entry, Service, cycles_at, run,
}

module _ {W : Type 0} (cfg : Config) where
  -- The last delivery of a payload up to the end of a cycle, which may have panicked.
  abbrev pub delivered_in : Turn W → World W → Option Bool → Option Bool
  delivered_in turn w d = elim turn.panic [
    | none ↦ delivered_by cfg turn.ctx turn.cycle w d
    | some p ↦ elim p [
      | in_publish s h ↦ delivered_by cfg turn.ctx turn.cycle w d
      | in_reports h r ↦
          delivered cfg.setting d
            (alerts_cycle cfg (fetch_store_ctx cfg turn.ctx turn.cycle) turn.cycle) w.alerts
      | in_purge t ↦
          delivered cfg.setting d
            (alerts_cycle cfg (fetch_store_ctx cfg turn.ctx turn.cycle) turn.cycle) w.alerts
      | _ ↦ d
    ]
  ]

  -- No panic between the moment that the client keeps a new ETag and the end of the batch.
  abbrev pub Harmless : Option (Panic W) → Type 0
  Harmless (some (in_decode m)) = ⊥
  Harmless (some (in_upsert t)) = ⊥
  Harmless _ = Unit

  alerts-Remembers :
      (ctx : Context) (c : PollCycle W) (w : World W) (d : Option Bool)
      → Upright cfg c
      → Remembers cfg.setting d w.alerts
      → let cycle = alerts_cycle cfg (fetch_store_ctx cfg ctx c) c in
        Remembers cfg.setting
          (delivered cfg.setting d cycle w.alerts)
          (poll_alerts cfg.setting cycle w.alerts).state
  unfolding alerts_cycle
  alerts-Remembers ctx c w d h r =
      (poll_alerts-Remembers cfg.setting (alerts_cycle cfg (fetch_store_ctx cfg ctx c) c) w.alerts d
        (h _ _) r).0

  panicked-Remembers :
      (ctx : Context) (c : PollCycle W) (p : Panic W) (w : World W) (d : Option Bool)
      → Harmless (some p)
      → Upright cfg c
      → Remembers cfg.setting d w.alerts
      → Remembers cfg.setting
          (delivered_in (record { ctx = ctx; cycle = c; panic = some p }) w d)
          (panicked cfg ctx c p w).alerts
  unfolding panicked fetch_store
  panicked-Remembers ctx c in_fetch w d safe h r = r
  panicked-Remembers ctx c (in_decode m) w d safe h r = elim safe [ ]
  panicked-Remembers ctx c (in_upsert t) w d safe h r = elim safe [ ]
  panicked-Remembers ctx c (in_reports health reports) w d safe h r =
      let cycle = alerts_cycle cfg (fetch_store_ctx cfg ctx c) c in
      Remembers-frame cfg.setting (delivered cfg.setting d cycle w.alerts)
        (poll_alerts cfg.setting cycle w.alerts).state
        (panicked cfg ctx c (in_reports health reports) w).alerts refl refl
        (alerts-Remembers ctx c w d h r)
  panicked-Remembers ctx c (in_purge t) w d safe h r =
      let cycle = alerts_cycle cfg (fetch_store_ctx cfg ctx c) c in
      Remembers-frame cfg.setting (delivered cfg.setting d cycle w.alerts)
        (poll_alerts cfg.setting cycle w.alerts).state (panicked cfg ctx c (in_purge t) w).alerts
        refl refl (alerts-Remembers ctx c w d h r)
  panicked-Remembers ctx c (in_publish stored health) w d safe h r =
      Remembers-frame cfg.setting (delivered_by cfg ctx c w d)
        (ingest_if cfg (should_ingest cfg.mode) ctx c w).0.alerts
        (panicked cfg ctx c (in_publish stored health) w).alerts refl refl
        (ingest_if-Remembers cfg (should_ingest cfg.mode) ctx c w d h r).0

  turn-Remembers :
      (turn : Turn W) (panic : Option (Panic W)) (w : World W) (d : Option Bool)
      → Harmless panic
      → Upright cfg turn.cycle
      → Remembers cfg.setting d w.alerts
      → Remembers cfg.setting
          (delivered_in (record turn { panic = panic }) w d)
          (poll_safely cfg turn.ctx turn.cycle panic w).0.alerts
  unfolding poll_safely
  turn-Remembers turn none w d safe h r = (poll-Remembers cfg turn.ctx turn.cycle w d h r).0
  turn-Remembers turn (some p) w d safe h r = panicked-Remembers turn.ctx turn.cycle p w d safe h r

  turn-Says :
      (turn : Turn W) (panic : Option (Panic W)) (w : World W) (d : Option Bool)
      → Upright cfg turn.cycle
      → Remembers cfg.setting d w.alerts
      → (poll_safely cfg turn.ctx turn.cycle panic w).1 ≡ true
      → Says cfg (delivered_in (record turn { panic = panic }) w d) turn.ctx turn.cycle w
  unfolding poll_safely
  turn-Says turn none w d h r pinged = pinged-Says cfg turn.ctx turn.cycle w d h r pinged
  turn-Says turn (some p) w d h r pinged = absurd (cc pinged)

  -- From the last delivery `d` on, each cycle that sent a heartbeat had done its work.
  abbrev pub Truthful : Option Bool → List (Entry W) → Type 0
  Truthful d [] = Unit
  Truthful d (e ∷ es) =
      (e.pinged ≡ true → Says cfg (delivered_in e.turn e.before d) e.turn.ctx e.turn.cycle e.before)
      × Truthful (delivered_in e.turn e.before d) es

module _ {W : Type 0} (cfg : Config) (v : Service W)
    (upright : (n : ℕ) → Upright cfg (v.turns n).cycle)
    (harmless : (n : ℕ) → Harmless cfg (v.turns n).panic) where
  cycles_at-Truthful :
      (n : ℕ) (ticks : List ℕ) (w : World W) (d : Option Bool)
      → Remembers cfg.setting d w.alerts
      → Truthful cfg d (cycles_at cfg v n ticks w)
  unfolding cycles_at
  cycles_at-Truthful n [] w d r = tt
  cycles_at-Truthful n (tick ∷ ticks) w d r =
      let t = v.turns n in
      (
        turn-Says cfg t t.panic w d (upright n) r,
        cycles_at-Truthful (suc n) ticks (poll_safely cfg t.ctx t.cycle t.panic w).0
            (delivered_in cfg t w d) (turn-Remembers cfg t t.panic w d (harmless n) (upright n) r),
      )

  -- A process starts with no ETag and no failed batch, and runs for any number of cycles, with any
  -- failures, in which panics are recovered. Whenever a cycle sends its heartbeat: if the role ingests,
  -- NWS has sent a payload that was decoded, in this cycle or before, and UpsertAlertsBatch returned no
  -- error for the last such payload; which is not to say that its rows are stored, since the fallback
  -- returns no error for rows that fail. If the role publishes, the active alerts were read from the
  -- database as the cycle left it, and the merged snapshot of them was put; it has one alert at most for
  -- each VTEC event, type and area, and it leaves out no alert in force of the table: for each it has an
  -- alert with its identifier, or, if it has a VTEC event, one of the same event, type and area that is
  -- no earlier issuance. The conditions: the server answers 304 only to a request that carries an ETag,
  -- and no cycle panics while it decodes a payload or writes a batch.
  pub run-Truthful :
      (rounds fuel : ℕ) (w : World W)
      → ((k : Bytes) → w.alerts.etags k ≡ none)
      → w.alerts.last_upsert_failed ≡ false
      → Truthful cfg none (run cfg v rounds fuel w)
  unfolding run
  run-Truthful rounds fuel w fresh clean =
      let jitter = startup_jitter cfg.mode v.jitter_func v.int64n cfg.poll_interval in
      let cycles = cycles_at cfg v 0 (0 ∷ run_ticks rounds fuel v.schedule cfg.poll_interval) w in
      elim (Bool-cases (ltb_ℤ (pos 0) jitter && v.done_in_jitter)) [
        | inl stopped ↦
            subst (λ (b : Bool). Truthful cfg none (if b then [] else cycles)) (sym stopped) tt
        | inr going ↦
            subst (λ (b : Bool). Truthful cfg none (if b then [] else cycles)) (sym going)
              (cycles_at-Truthful 0 (0 ∷ run_ticks rounds fuel v.schedule cfg.poll_interval) w none
                (fresh (endpoint_of cfg.setting), clean))
      ]
