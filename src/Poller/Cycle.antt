-- ===== src/Poller/Cycle.antt =====
-- internal/poller/poller.go: poll, one whole cycle, and the gate of its heartbeat
-- (internal/healthcheck/pinger.go: PingAsync). The cycles that panic are in Poller.Run. Each phase's
-- surroundings are functions of the context that the cycle gives it. `W` is what the destinations hold.
pub mod Heartbeat
pub mod Lost
pub mod Examples
use seestorm_ingest.Base.{
  ℕ, Bool, true, false, not, ◌&&◌, Option, none, some, List, [], ◌∷◌, if◌then◌else◌,
}
use seestorm_ingest.Base.Bytes.{Bytes, bytes_eq}
use seestorm_ingest.Base.Int.{ℤ}
use seestorm_ingest.Duration.{alerts_fetch_budget_percent}
use seestorm_ingest.Store.Errors.{Error}
use seestorm_ingest.Store.Table.{Table, purge_expired}
use seestorm_ingest.Store.Reports.{ReportTable}
use seestorm_ingest.Store.Reading.{Decoders, Query, get_active_alerts}
use seestorm_ingest.Poller.Mode.{Mode, should_ingest, should_publish, should_heartbeat}
use seestorm_ingest.Poller.Budget.{
  Context, with_timeout, with_budget_fraction, derive_cycle_timeout, split_cycle_budget,
}
use seestorm_ingest.Poller.Alerts.{State, Cycle, Setting, poll_alerts}
use seestorm_ingest.Poller.Reports.{CsvCodec, ReportsCycle, poll_storm_reports}
use seestorm_ingest.Poller.Publish.{PublishPhase, publish_snapshot}

pub record Config : Type 0 where
  pub setting : Setting
  pub csv : CsvCodec
  pub decoders : Decoders
  pub mode : Mode
  pub poll_interval : ℤ
  -- HealthPing's address, if it is set.
  pub health_ping : Option Bytes

-- What the process and the database keep between cycles.
pub record World (W : Type 0) : Type 0 where
  pub alerts : State
  pub reports : ReportTable
  pub stored : W

-- What surrounds one cycle.
pub record PollCycle (W : Type 0) : Type 0 where
  pub fetch_store_at : ℤ
  pub alerts_budget_at : ℤ
  -- The client within the first context, the store within the second.
  pub alerts : Context → Context → Cycle
  pub reports : ReportsCycle
  pub purge_now : ℕ
  pub purge_fails : Context → Option Error
  pub publish_at : ℤ
  pub query : Context → Query
  pub publish : Context → PublishPhase W

-- PingAsync: nothing is sent where no address is set.
unfoldable pub ping_async : Option Bytes → Bool
ping_async none = false
ping_async (some url) = not (bytes_eq url [])

unfoldable pub purge : Option Error → ℕ → Table → Table
purge (some e) now t = t
purge none now t = purge_expired now t

pub record Polled (W : Type 0) : Type 0 where
  pub world : World W
  pub alerts_ok : Bool
  pub merged_ok : Bool
  pub pinged : Bool

-- The fetch+store budget and the publish budget.
abbrev pub budgets : Config → ℤ × ℤ
budgets cfg = split_cycle_budget (derive_cycle_timeout cfg.poll_interval)

module _ {W : Type 0} (cfg : Config) where
  abbrev pub fetch_store_ctx : Context → PollCycle W → Context
  fetch_store_ctx poll_ctx c = with_timeout poll_ctx c.fetch_store_at (budgets cfg).0

  abbrev pub publish_ctx : Context → PollCycle W → Context
  publish_ctx poll_ctx c = with_timeout poll_ctx c.publish_at (budgets cfg).1

  -- What pollAlerts meets within the phase's context.
  unfoldable pub alerts_cycle : Context → PollCycle W → Cycle
  alerts_cycle ctx c =
      c.alerts (with_budget_fraction ctx c.alerts_budget_at alerts_fetch_budget_percent) ctx

  -- The fetch+store phase, and alertsOK.
  unfoldable pub fetch_store : Context → PollCycle W → World W → World W × Bool
  unfolding purge
  fetch_store ctx c w =
      let a = poll_alerts cfg.setting (alerts_cycle ctx c) w.alerts in
      let r = poll_storm_reports cfg.csv c.reports ctx a.state.health w.reports in
      let table = purge (c.purge_fails ctx) c.purge_now a.state.table in
      (
        record {
          alerts = record a.state { health = r.health; table = table };
          reports = r.table;
          stored = w.stored;
        },
        a.ok,
      )

  -- The publish phase, and mergedPublishOK.
  unfoldable pub publish_phase : Context → PollCycle W → World W → World W × Bool
  publish_phase ctx c w =
      let active = get_active_alerts cfg.decoders (c.query ctx) w.alerts.table in
      let p = publish_snapshot (c.publish ctx) cfg.setting.areas active w.stored w.alerts.health in
      (
        record {
          alerts = record w.alerts { health = p.health };
          reports = w.reports;
          stored = p.stored;
        },
        p.merged_ok,
      )

  unfoldable pub ingest_if : Bool → Context → PollCycle W → World W → World W × Bool
  unfolding fetch_store
  ingest_if false poll_ctx c w = (w, true)
  ingest_if true poll_ctx c w = fetch_store (fetch_store_ctx poll_ctx c) c w

  unfoldable pub publish_if : Bool → Context → PollCycle W → World W → World W × Bool
  unfolding publish_phase
  publish_if false poll_ctx c w = (w, true)
  publish_if true poll_ctx c w = publish_phase (publish_ctx poll_ctx c) c w

  unfoldable pub poll : Context → PollCycle W → World W → Polled W
  unfolding ingest_if publish_if ping_async
  poll poll_ctx c w =
      let i = ingest_if (should_ingest cfg.mode) poll_ctx c w in
      let p = publish_if (should_publish cfg.mode) poll_ctx c i.0 in
      record {
        world = p.0;
        alerts_ok = i.1;
        merged_ok = p.1;
        pinged = should_heartbeat cfg.mode i.1 p.1 && ping_async cfg.health_ping;
      }
