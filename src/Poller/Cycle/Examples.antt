-- ===== src/Poller/Cycle/Examples.antt =====
-- The second cycle of a process that ingests and publishes, and its heartbeat; the
-- destination counts the snapshots that it was handed.
use seestorm_ingest.Base.{ℕ, ◌+◌, ◌*◌, ◌≡◌, refl, true, false, none, some, [], ◌∷◌}
use seestorm_ingest.Base.Bytes.{lit, bytes_eq}
use seestorm_ingest.Base.Int.{pos}
use seestorm_ingest.Base.Maps.{put}
use seestorm_ingest.Duration.{second}
use seestorm_ingest.Nws.Client.{fetched, fetch_active_alerts, alerts_endpoint}
use seestorm_ingest.Publisher.{Publisher}
use seestorm_ingest.Store.Batch.{upsert_alerts_batch, upsert_alert}
use seestorm_ingest.Store.Table.{active_rows, purge_expired}
use seestorm_ingest.Store.Reading.{get_active_alerts}
use seestorm_ingest.Poller.Budget.{Context}
use seestorm_ingest.Poller.Mode.{
  mode_ingest, mode_both, should_ingest, should_publish, should_heartbeat,
}
use seestorm_ingest.Poller.Alerts.{poll_alerts, fetch}
use seestorm_ingest.Poller.Alerts.Examples.{setting, cycle, start}
use seestorm_ingest.Poller.Reports.Examples.{csv, reports_cycle}
use seestorm_ingest.Poller.Publish.{
  PublishPhase, publish_snapshot, after_merged, publish_with_retry, attempt_publish, attempts_from,
}
use seestorm_ingest.Poller.Cycle.{
  Config, World, PollCycle, poll, ingest_if, publish_if, fetch_store, publish_phase, alerts_cycle,
  ping_async, purge,
}
use seestorm_ingest.Poller.Cycle.Heartbeat.{run_cycles}
use seestorm_ingest.Poller.Cycle.Lost.{poll-Lost}
use seestorm_ingest.Store.Batch.Lost.{RowsFail}
use seestorm_ingest.Store.Errors.{other, is_fatal_batch_err}
use seestorm_ingest.Store.Examples.{message, codec}
use seestorm_ingest.Nws.Alert.{AlertsResponse}
use seestorm_ingest.Store.Args.{alert_upsert_args}

abbrev pub config : Config
config = record {
  setting = setting;
  csv = csv;
  decoders = record {
    as_geojson = λ s. s;
    unmarshal = λ s. record { parameters = λ k. none; same = [] };
    parse_float = λ s. none;
    parse_time = λ s. none;
  };
  mode = mode_both;
  poll_interval = pos (30 * second);
  health_ping = some (lit "https://hc-ping.com/x");
}

abbrev counter : Publisher ℕ
counter = record { publish = λ m w. (w + 1, none); publish_state = λ m w. (w + 1, none) }

abbrev phase : PublishPhase ℕ
phase = record {
  now = 7;
  recorded_at = pos 9;
  dest = λ k. counter;
  parent_merged = λ k. none;
  parent_state = λ s k. none;
  order = lit "WI" ∷ [];
}

abbrev pub poll_cycle : PollCycle ℕ
poll_cycle = record {
  fetch_store_at = pos 1;
  alerts_budget_at = pos 1;
  alerts = λ x y. cycle;
  reports = reports_cycle;
  purge_now = 50;
  purge_fails = λ x. none;
  publish_at = pos 4;
  query = λ x. record {
    db_now = 100;
    now = λ i. pos i;
    query_fails = none;
    scan_fails = λ i. none;
    rows_err = none;
  };
  publish = λ x. phase;
}

abbrev pub context : Context
context = record { deadline = none }

abbrev pub world : World ℕ
world = record { alerts = start; reports = []; stored = 0 }

pings :
    (poll config context poll_cycle
      (run_cycles config ((context, poll_cycle) ∷ []) none world).1).pinged
    ≡ true
unfolding poll run_cycles ingest_if publish_if fetch_store publish_phase alerts_cycle ping_async
    should_ingest should_publish should_heartbeat bytes_eq poll_alerts fetch_active_alerts
    upsert_alerts_batch put alerts_endpoint get_active_alerts publish_snapshot after_merged
    publish_with_retry attempt_publish attempts_from active_rows purge_expired
pings = refl

-- A process that only ingests gets one alert, and the database refuses its connections.
abbrev ingesting : Config
ingesting = record config {
  mode = mode_ingest;
  setting = record setting {
    decode =
        λ s. some (record { type = lit "FeatureCollection"; features = message (lit "A") [] ∷ [] });
    codec = codec;
  };
}

abbrev refused : PollCycle ℕ
refused = record poll_cycle {
  alerts = λ x y. record cycle {
    store = record cycle.store { begin_fails = some (other 1); row_fails = λ i. some (other 1) };
  };
}

decoded : AlertsResponse
decoded = record { type = lit "FeatureCollection"; features = message (lit "A") [] ∷ [] }

brings :
    (fetch ingesting.setting (refused.alerts context context) world.alerts).outcome
    ≡ fetched decoded
unfolding fetch_active_alerts bytes_eq put alerts_endpoint decoded
brings = refl

refused-RowsFail : RowsFail codec (refused.alerts context context).store
unfolding upsert_alert alert_upsert_args
refused-RowsFail i alert t = (other 1, refl, unfold is_fatal_batch_err in refl)

poll-Lost_example :
    let p = poll ingesting context refused world in
    (p.world.alerts.table ≡ purge none 50 [])
    × (p.world.alerts.last_upsert_failed ≡ false)
    × (p.pinged ≡ ping_async (some (lit "https://hc-ping.com/x")))
unfolding alerts_cycle
poll-Lost_example =
    poll-Lost ingesting context refused world decoded (other 1) refl brings refl
      (unfold is_fatal_batch_err in refl) refl refused-RowsFail
