-- ===== src/Poller/Reports.antt =====
-- internal/poller/poller.go: pollStormReports, over the SPC client and the store. fetchReports returns
-- neither reports nor an error only if no attempt is allowed, which counts as a failure here.
pub mod Independent
pub mod Examples
use seestorm_ingest.Base.{ℕ, Option, none, some, List, [], ◌++◌}
use seestorm_ingest.Base.Bytes.{Bytes, lit}
use seestorm_ingest.Base.Int.{ℤ}
use seestorm_ingest.Duration.{spc_fetch_budget_percent}
use seestorm_ingest.Float.{Float64}
use seestorm_ingest.Http.{Upstream}
use seestorm_ingest.Health.{
  Feed, Registry, record_success, feed_spc_torn, feed_spc_hail, feed_spc_wind,
}
use seestorm_ingest.Spc.Report.{StormReport}
use seestorm_ingest.Spc.Csv.{parse_csv_reports}
use seestorm_ingest.Spc.Client.{
  ReportsFetch, reports, no_reports, fetch_today_tornado_reports, fetch_today_hail_reports,
  fetch_today_wind_reports, ReportsResult,
}
use seestorm_ingest.Store.Reports.{
  ReportTable, ReportFaults, ReportsBatch, upsert_storm_reports_batch,
}
use seestorm_ingest.Poller.Budget.{Context, with_budget_fraction}

-- encoding/csv and strconv.ParseFloat
pub record CsvCodec : Type 0 where
  pub parse_float : Bytes → Option Float64
  pub read_csv : Bytes → Option (List (List Bytes))

-- What surrounds the fetch of one feed: the clock when its budget is derived, the server within a
-- context, the day at each record, and the time of the recorded success.
pub record FeedCycle : Type 0 where
  pub budget_at : ℤ
  pub spc : Context → Upstream
  pub days : ℕ → ℤ
  pub recorded_at : ℤ

pub record ReportsCycle : Type 0 where
  pub torn : FeedCycle
  pub hail : FeedCycle
  pub wind : FeedCycle
  pub store : Context → ReportFaults

pub record ReportsPolled : Type 0 where
  pub health : Option Registry
  pub table : ReportTable
  pub count : ℕ

-- The reports so far, and the registry.
pub record Gathered : Type 0 where
  pub health : Option Registry
  pub found : List StormReport

-- After one feed: its reports are added, or it is skipped.
unfoldable pub gather : Feed → ℤ → ReportsFetch → Gathered → Gathered
gather feed at (reports rs) g = record {
  health = record_success g.health feed at;
  found = g.found ++ rs;
}
gather feed at (no_reports e) g = g

-- One feed; `fetch` is the client's method, given its CSV parser.
unfoldable pub poll_feed :
    CsvCodec
    → Feed
    → ((Bytes → Bytes → Option (List StormReport)) → Upstream → ReportsResult)
    → FeedCycle
    → Context
    → Gathered
    → Gathered
unfolding gather
poll_feed codec feed fetch c ctx g =
    let server = c.spc (with_budget_fraction ctx c.budget_at spc_fetch_budget_percent) in
    let parse : Bytes → Bytes → Option (List StormReport) =
      λ kind body. parse_csv_reports codec.parse_float kind codec.read_csv c.days body in
    gather feed c.recorded_at (fetch parse server).outcome g

-- The three feeds, in the source's order.
unfoldable pub gather_feeds : CsvCodec → ReportsCycle → Context → Option Registry → Gathered
unfolding poll_feed
gather_feeds codec c ctx health =
    poll_feed codec feed_spc_wind fetch_today_wind_reports c.wind ctx (
      poll_feed codec feed_spc_hail fetch_today_hail_reports c.hail ctx (
        poll_feed codec feed_spc_torn fetch_today_tornado_reports c.torn ctx
          (record { health = health; found = [] })))

unfoldable pub poll_storm_reports :
    CsvCodec → ReportsCycle → Context → Option Registry → ReportTable → ReportsPolled
unfolding gather_feeds
poll_storm_reports codec c ctx health table =
    let g = gather_feeds codec c ctx health in
    let b = upsert_storm_reports_batch (c.store ctx) g.found table in
    record { health = g.health; table = b.table; count = b.count }
