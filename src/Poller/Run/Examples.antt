-- ===== src/Poller/Run/Examples.antt =====
-- A run of three cycles, of which the second panics in the purge; and a payload that is lost in a panic.
use seestorm_ingest.Base.{ℕ, zero, suc, ◌≡◌, refl, Bool, true, false, none, some, [], ◌∷◌, map}
use seestorm_ingest.Base.Bytes.{lit, bytes_eq}
use seestorm_ingest.Base.Int.{pos, ◌+ℤ◌, ◌*ℤ◌}
use seestorm_ingest.Base.Maps.{put}
use seestorm_ingest.Duration.{mul64, wrap64}
use seestorm_ingest.Nws.Client.{fetch_active_alerts, alerts_endpoint, not_modified, fetched}
use seestorm_ingest.Store.Batch.{upsert_alerts_batch}
use seestorm_ingest.Store.Table.{active_rows, purge_expired}
use seestorm_ingest.Store.Reading.{get_active_alerts}
use seestorm_ingest.Poller.Mode.{should_ingest, should_publish, should_heartbeat}
use seestorm_ingest.Poller.Alerts.{fetch, poll_alerts}
use seestorm_ingest.Poller.Alerts.Examples.{setting, server-Honest}
use seestorm_ingest.Poller.Publish.{
  publish_snapshot, after_merged, publish_with_retry, attempt_publish, attempts_from,
}
use seestorm_ingest.Poller.Schedule.{run_ticks, startup_jitter, next_at}
use seestorm_ingest.Poller.Cycle.{
  World, poll, ingest_if, publish_if, fetch_store, publish_phase, alerts_cycle, ping_async,
  fetch_store_ctx, purge,
}
use seestorm_ingest.Poller.Cycle.Heartbeat.{Upright}
use seestorm_ingest.Poller.Cycle.Examples.{config, poll_cycle, context, world}
use seestorm_ingest.Poller.Run.{
  in_purge, in_upsert, Turn, Entry, Service, run, poll_safely, panicked,
}
use seestorm_ingest.Poller.Run.Truthful.{Harmless, Truthful, run-Truthful}
use seestorm_ingest.Poller.Run.Unstored.{poll-Unstored}

abbrev purging : Turn ℕ
purging = record { ctx = context; cycle = poll_cycle; panic = some (in_purge []) }

abbrev whole : Turn ℕ
whole = record { ctx = context; cycle = poll_cycle; panic = none }

abbrev turns : ℕ → Turn ℕ
turns zero = whole
turns (suc zero) = purging
turns (suc (suc n)) = whole

abbrev service : Service ℕ
service = record {
  jitter_func = none;
  int64n = λ n. 5;
  done_in_jitter = false;
  schedule = record { start = pos 0; clock = λ r k. pos 1; done = λ r. false };
  turns = turns;
}

-- A tick, and whether its cycle sent the heartbeat
abbrev seen : Entry ℕ → ℕ × Bool
seen e = (e.tick, e.pinged)

run_pings : map seen (run config service 2 1 world) ≡ (0, true) ∷ (1, false) ∷ (2, true) ∷ []
unfolding run panicked run_ticks poll ingest_if publish_if fetch_store publish_phase alerts_cycle
    ping_async should_ingest should_publish should_heartbeat bytes_eq poll_alerts
    fetch_active_alerts upsert_alerts_batch put alerts_endpoint get_active_alerts publish_snapshot
    after_merged publish_with_retry attempt_publish attempts_from active_rows purge_expired
    startup_jitter next_at mul64 ◌+ℤ◌ ◌*ℤ◌ wrap64
run_pings = refl

turns-Harmless : (n : ℕ) → Harmless config (turns n).panic
turns-Harmless zero = tt
turns-Harmless (suc zero) = tt
turns-Harmless (suc (suc n)) = tt

turns-Upright : (n : ℕ) → Upright config (turns n).cycle
turns-Upright zero = λ x y. server-Honest
turns-Upright (suc zero) = λ x y. server-Honest
turns-Upright (suc (suc n)) = λ x y. server-Honest

run-Truthful_example : Truthful config none (run config service 2 1 world)
run-Truthful_example =
    run-Truthful config service turns-Upright turns-Harmless 2 1 world (λ k. refl) refl

-- The world after a payload whose batch was never written
abbrev lost : World ℕ
lost = (poll_safely config context poll_cycle (some (in_upsert [])) world).0

decoded :
    (fetch setting
      (alerts_cycle config (fetch_store_ctx config context poll_cycle) poll_cycle)
      world.alerts).outcome
    ≡ fetched (record { type = lit "FeatureCollection"; features = [] })
unfolding fetch_active_alerts alerts_cycle put bytes_eq alerts_endpoint
decoded = refl

unchanged :
    (fetch setting
      (alerts_cycle config (fetch_store_ctx config context poll_cycle) poll_cycle)
      lost.alerts).outcome
    ≡ not_modified
unfolding fetch_active_alerts alerts_cycle put bytes_eq alerts_endpoint poll_safely
unchanged = refl

poll-Unstored_example :
    ((poll config context poll_cycle lost).alerts_ok ≡ true)
    × ((poll config context poll_cycle lost).world.alerts.table ≡ purge none 50 [])
unfolding should_ingest bytes_eq
poll-Unstored_example =
    poll-Unstored config context context poll_cycle poll_cycle world _ refl refl decoded unchanged
