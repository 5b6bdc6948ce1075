-- ===== src/Poller/Alerts.antt =====
-- internal/poller/poller.go: pollAlerts, over the client and the store. The client returns neither a
-- payload nor an error only if no attempt is allowed, so that result counts as a failure here.
pub mod Conditional
pub mod Vouching
pub mod Examples
use seestorm_ingest.Base.{ℕ, Bool, true, false, not, Option, none, some, List, [], ◌∷◌}
use seestorm_ingest.Base.Bytes.{Bytes, lit}
use seestorm_ingest.Base.Int.{ℤ}
use seestorm_ingest.Base.Maps.{Map}
use seestorm_ingest.Strings.{join}
use seestorm_ingest.Http.{Upstream}
use seestorm_ingest.Nws.Alert.{Alert, AlertsResponse}
use seestorm_ingest.Nws.Client.{
  Fetch, fetched, not_modified, failed, FetchResult, fetch_active_alerts,
}
use seestorm_ingest.Health.{Registry, record_success, feed_alerts}
use seestorm_ingest.Store.Args.{Codec}
use seestorm_ingest.Store.Table.{Table}
use seestorm_ingest.Store.Batch.{Surroundings, BatchResult, upsert_alerts_batch}

-- What the process keeps between cycles: the client's ETags, lastAlertsUpsertFailed, the registry;
-- and the table.
pub record State : Type 0 where
  pub etags : Map Bytes
  pub last_upsert_failed : Bool
  pub health : Option Registry
  pub table : Table

-- What surrounds one call: the server, the database, and the time of the recorded success.
pub record Cycle : Type 0 where
  pub nws : Upstream
  pub store : Surroundings
  pub recorded_at : ℤ

pub record AlertsPolled : Type 0 where
  pub state : State
  pub count : ℕ
  pub skipped : ℕ
  pub ok : Bool

-- What is outside the repository, and the areas of the configuration.
pub record Setting : Type 0 where
  pub encode : List (Bytes × Bytes) → Bytes
  pub decode : Bytes → Option AlertsResponse
  pub codec : Codec
  pub areas : List Bytes

unfoldable pub etag_vouches_for_store : Bool → Bool
etag_vouches_for_store last_upsert_failed = not last_upsert_failed

-- From the batch's result on
unfoldable pub after_upsert : State → BatchResult → AlertsPolled
after_upsert s b = elim b.error [
  | some e ↦ record {
    state = record s { last_upsert_failed = true; table = b.table };
    count = b.count;
    skipped = b.skipped;
    ok = false;
  }
  | none ↦ record {
    state = record s { last_upsert_failed = false; table = b.table };
    count = b.count;
    skipped = b.skipped;
    ok = true;
  }
]

-- From the fetch's result on; the state has the client's new ETags.
unfoldable pub after_fetch : Codec → Cycle → State → Fetch → AlertsPolled
unfolding etag_vouches_for_store after_upsert
after_fetch codec c s not_modified = record {
  state = record s { health = record_success s.health feed_alerts c.recorded_at };
  count = 0;
  skipped = 0;
  ok = etag_vouches_for_store s.last_upsert_failed;
}
after_fetch codec c s (failed e) = record { state = s; count = 0; skipped = 0; ok = false }
after_fetch codec c s (fetched alerts) =
    after_upsert (record s { health = record_success s.health feed_alerts c.recorded_at })
      (upsert_alerts_batch codec c.store alerts.features s.table)

abbrev pub fetch : Setting → Cycle → State → FetchResult
fetch set c s = fetch_active_alerts set.encode set.decode c.nws (join (lit ",") set.areas) s.etags

unfoldable pub poll_alerts : Setting → Cycle → State → AlertsPolled
unfolding after_fetch
poll_alerts set c s =
    let r = fetch set c s in after_fetch set.codec c (record s { etags = r.etags }) r.outcome
