-- ===== src/Poller/Reports/Independent.antt =====
-- About pollStormReports of internal/poller/poller.go: a feed that fails costs only itself.
use seestorm_ingest.Base.{◌≡◌, refl, subst, sym, ap, ◌∙◌, Option, List, [], ◌++◌}
use seestorm_ingest.Base.Bytes.{Bytes}
use mathlib.Core.List.{append-nil}
use seestorm_ingest.Base.Int.{ℤ}
use seestorm_ingest.Duration.{spc_fetch_budget_percent}
use seestorm_ingest.Http.{Upstream}
use seestorm_ingest.Health.{Feed, Registry, feed_spc_torn, feed_spc_hail, feed_spc_wind}
use seestorm_ingest.Spc.Report.{StormReport}
use seestorm_ingest.Spc.Csv.{parse_csv_reports}
use seestorm_ingest.Spc.Client.{
  ReportsFetch, reports, no_reports, fetch_today_tornado_reports, fetch_today_hail_reports,
  fetch_today_wind_reports, ReportsResult,
}
use seestorm_ingest.Store.Reports.{ReportTable, upsert_storm_reports_batch}
use seestorm_ingest.Store.Reports.Kept.{Grown, upsert_storm_reports_batch-Grown}
use seestorm_ingest.Poller.Budget.{Context, with_budget_fraction}
use seestorm_ingest.Poller.Reports.{
  CsvCodec, FeedCycle, ReportsCycle, Gathered, gather, poll_feed, gather_feeds, poll_storm_reports,
}

-- The reports of an outcome; none of a failure.
abbrev pub or_nothing : ReportsFetch → List StormReport
or_nothing (reports rs) = rs
or_nothing (no_reports e) = []

module _ (codec : CsvCodec) (ctx : Context) where
  -- What one feed gives by itself.
  abbrev pub alone :
      ((Bytes → Bytes → Option (List StormReport)) → Upstream → ReportsResult)
      → FeedCycle
      → List StormReport
  alone fetch c =
      or_nothing
        (fetch (λ kind body. parse_csv_reports codec.parse_float kind codec.read_csv c.days body)
          (c.spc (with_budget_fraction ctx c.budget_at spc_fetch_budget_percent))).outcome

  gather-found :
      (feed : Feed) (at : ℤ) (f : ReportsFetch) (g : Gathered)
      → (gather feed at f g).found ≡ g.found ++ or_nothing f
  unfolding gather
  gather-found feed at (reports rs) g = refl
  gather-found feed at (no_reports e) g = sym (append-nil g.found)

  poll_feed-found :
      (feed : Feed) (fetch : (Bytes → Bytes → Option (List StormReport)) → Upstream → ReportsResult)
      (c : FeedCycle) (g : Gathered)
      → (poll_feed codec feed fetch c ctx g).found ≡ g.found ++ alone fetch c
  unfolding poll_feed
  poll_feed-found feed fetch c g = gather-found feed c.recorded_at _ g

  -- What the three feeds give by themselves, in the source's order.
  abbrev pub together : ReportsCycle → List StormReport
  together c =
      alone fetch_today_tornado_reports c.torn
      ++ alone fetch_today_hail_reports c.hail
      ++ alone fetch_today_wind_reports c.wind

  gather_feeds-found :
      (c : ReportsCycle) (health : Option Registry)
      → (gather_feeds codec c ctx health).found ≡ together c
  unfolding gather_feeds
  gather_feeds-found c health =
      poll_feed-found feed_spc_wind fetch_today_wind_reports c.wind _
      ∙ ap (λ (rs : List StormReport). rs ++ alone fetch_today_wind_reports c.wind)
          (poll_feed-found feed_spc_hail fetch_today_hail_reports c.hail _
            ∙ ap (λ (rs : List StormReport). rs ++ alone fetch_today_hail_reports c.hail)
                (poll_feed-found feed_spc_torn fetch_today_tornado_reports c.torn _))

  -- The batch that is stored is what the feeds give each by itself, one after another, whichever of
  -- them fail; and whatever fails in the store, the reports stored before stay as they were, and what is
  -- added is of that batch.
  pub poll_storm_reports-together :
      (c : ReportsCycle) (health : Option Registry) (table : ReportTable)
      → let p = poll_storm_reports codec c ctx health table in
        let b = upsert_storm_reports_batch (c.store ctx) (together c) table in
        (p.table ≡ b.table) × (p.count ≡ b.count) × Grown (together c) table p.table
  unfolding poll_storm_reports
  poll_storm_reports-together c health table =
      let e = gather_feeds-found c health in
      let batch = upsert_storm_reports_batch (c.store ctx) in
      let grown = upsert_storm_reports_batch-Grown (c.store ctx) (together c) table in
      (
        ap (λ (rs : List StormReport). (batch rs table).table) e,
        ap (λ (rs : List StormReport). (batch rs table).count) e,
        subst (λ (rs : List StormReport). Grown (together c) table (batch rs table).table) (sym e)
            grown,
      )
