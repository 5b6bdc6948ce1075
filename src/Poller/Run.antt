-- ===== src/Poller/Run.antt =====
-- internal/poller/poller.go: pollSafely and Run. Run waits for the jitter of the start, runs a cycle at
-- once, and then one at each tick (Poller.Schedule); a cycle that panics is recovered and leaves the
-- world as far as it had come. Run returns nil, whenever its context ends.
pub mod Truthful
pub mod Unstored
pub mod Examples
use seestorm_ingest.Base.{
  ℕ, zero, suc, Bool, true, false, ◌&&◌, Option, none, some, List, [], ◌∷◌, if◌then◌else◌,
}
use seestorm_ingest.Base.Bytes.{Bytes}
use seestorm_ingest.Base.Int.{ℤ, pos, ltb_ℤ}
use seestorm_ingest.Base.Maps.{Map}
use seestorm_ingest.Health.{Registry, record_success, feed_alerts}
use seestorm_ingest.Store.Table.{Table}
use seestorm_ingest.Store.Reports.{ReportTable}
use seestorm_ingest.Poller.Mode.{should_ingest}
use seestorm_ingest.Poller.Budget.{Context}
use seestorm_ingest.Poller.Alerts.{State, fetch, poll_alerts}
use seestorm_ingest.Poller.Schedule.{Surroundings, startup_jitter, run_ticks}
use seestorm_ingest.Poller.Cycle.{
  Config, World, PollCycle, Polled, alerts_cycle, fetch_store, fetch_store_ctx, ingest_if, poll,
}

-- Where a cycle panics, with what the call that panicked leaves of what it was changing: in the fetch
-- of the alerts, before an ETag is kept or while the payload is decoded; in the write of the batch; in
-- the storm reports; in the purge; in the publish phase. A put of a state's snapshot recovers its own
-- panic, and is a put that fails.
pub data Panic (W : Type 0) : Type 0 where
  in_fetch : Panic W
  in_decode : Map Bytes → Panic W
  in_upsert : Table → Panic W
  in_reports : Option Registry → ReportTable → Panic W
  in_purge : Table → Panic W
  in_publish : W → Option Registry → Panic W

module _ {W : Type 0} (cfg : Config) where
  -- The world that a cycle which panics leaves.
  unfoldable pub panicked : Context → PollCycle W → Panic W → World W → World W
  panicked poll_ctx c in_fetch w = w
  panicked poll_ctx c (in_decode etags) w = record w { alerts = record w.alerts { etags = etags } }
  panicked poll_ctx c (in_upsert table) w =
      let cycle = alerts_cycle cfg (fetch_store_ctx cfg poll_ctx c) c in
      record w {
        alerts = record w.alerts {
          etags = (fetch cfg.setting cycle w.alerts).etags;
          health = record_success w.alerts.health feed_alerts cycle.recorded_at;
          table = table;
        };
      }
  panicked poll_ctx c (in_reports health reports) w =
      let cycle = alerts_cycle cfg (fetch_store_ctx cfg poll_ctx c) c in
      let a = poll_alerts cfg.setting cycle w.alerts in
      record w { alerts = record a.state { health = health }; reports = reports }
  panicked poll_ctx c (in_purge table) w =
      let i = fetch_store cfg (fetch_store_ctx cfg poll_ctx c) c w in
      record i.0 { alerts = record i.0.alerts { table = table } }
  panicked poll_ctx c (in_publish stored health) w =
      let i = ingest_if cfg (should_ingest cfg.mode) poll_ctx c w in
      record i.0 { alerts = record i.0.alerts { health = health }; stored = stored }

  -- pollSafely, around a cycle that returns or panics: the world, and whether the heartbeat was sent,
  -- which is poll's last step.
  unfoldable pub poll_safely : Context → PollCycle W → Option (Panic W) → World W → World W × Bool
  unfolding panicked
  poll_safely poll_ctx c (some p) w = (panicked poll_ctx c p w, false)
  poll_safely poll_ctx c none w = let p = poll cfg poll_ctx c w in (p.world, p.pinged)

-- What one cycle meets.
pub record Turn (W : Type 0) : Type 0 where
  pub ctx : Context
  pub cycle : PollCycle W
  pub panic : Option (Panic W)

-- A cycle that Run started: at which tick (0 for the one at once), what it met and found, and whether it
-- sent the heartbeat.
pub record Entry (W : Type 0) : Type 0 where
  pub tick : ℕ
  pub turn : Turn W
  pub before : World W
  pub pinged : Bool

-- What surrounds Run: the jitter's override and random number, whether the context ends during that
-- wait, the clock and the context afterwards, and the cycles' turns in order.
pub record Service (W : Type 0) : Type 0 where
  pub jitter_func : Option (ℤ → ℤ)
  pub int64n : ℤ → ℕ
  pub done_in_jitter : Bool
  pub schedule : Surroundings
  pub turns : ℕ → Turn W

module _ {W : Type 0} (cfg : Config) (v : Service W) where
  -- A cycle at each of these ticks, from cycle `n` on.
  unfoldable pub cycles_at : ℕ → List ℕ → World W → List (Entry W)
  unfolding poll_safely
  cycles_at n [] w = []
  cycles_at n (tick ∷ ticks) w =
      let turn = v.turns n in
      let p = poll_safely cfg turn.ctx turn.cycle turn.panic w in
      record { tick = tick; turn = turn; before = w; pinged = p.1 } ∷ cycles_at (suc n) ticks p.0

  -- Run, in this many rounds of its loop at most.
  unfoldable pub run : ℕ → ℕ → World W → List (Entry W)
  unfolding cycles_at
  run rounds fuel w =
      let jitter = startup_jitter cfg.mode v.jitter_func v.int64n cfg.poll_interval in
      if ltb_ℤ (pos 0) jitter && v.done_in_jitter
      then []
      else cycles_at 0 (0 ∷ run_ticks rounds fuel v.schedule cfg.poll_interval) w
