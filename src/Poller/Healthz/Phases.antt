-- ===== src/Poller/Healthz/Phases.antt =====
-- About the phases of a cycle of internal/poller/poller.go: what each records in the registry.
use seestorm_ingest.Poller.Publish.{
  Destinations, Interrupts, PublishPhase, publish_state, publish_per_state_snapshots, after_merged,
  publish_snapshot,
}
use seestorm_ingest.Store.Active.{ActiveAlert}
use seestorm_ingest.Store.Errors.{Error}
use seestorm_ingest.Base.{
  ◌≡◌, refl, Option, none, some, List, [], arith, Bool, if◌then◌else◌, inl, inr, ℕ, ◌⊎◌, ◌∷◌, true,
  false,
}
use seestorm_ingest.Base.Bytes.{Bytes}
use seestorm_ingest.Base.Int.{ℤ}
use seestorm_ingest.Duration.{spc_fetch_budget_percent}
use seestorm_ingest.Http.{Upstream}
use seestorm_ingest.Store.Args.{Codec}
use seestorm_ingest.Store.Batch.{BatchResult}
use seestorm_ingest.Nws.Client.{Fetch, fetched, not_modified, failed}
use seestorm_ingest.Spc.Report.{StormReport}
use seestorm_ingest.Spc.Csv.{parse_csv_reports}
use seestorm_ingest.Spc.Client.{
  ReportsFetch, reports, no_reports, fetch_today_tornado_reports, fetch_today_hail_reports,
  fetch_today_wind_reports, ReportsResult,
}
use seestorm_ingest.Health.{
  Feed, Registry, feed_alerts, feed_spc_torn, feed_spc_hail, feed_spc_wind, feed_publish,
  record_success, reset_publish_failures, record_publish_put_failure,
}
use seestorm_ingest.Poller.Budget.{Context, with_budget_fraction}
use seestorm_ingest.Poller.Alerts.{
  State, Cycle, Setting, fetch, after_upsert, after_fetch, poll_alerts,
}
use seestorm_ingest.Poller.Reports.{
  CsvCodec, FeedCycle, ReportsCycle, Gathered, gather, poll_feed, gather_feeds,
}
use seestorm_ingest.Poller.Healthz.{
  News, at_feed, then_news, Tells, Tells-trans, Tells-quiet, record_success-Tells, at_feed-quiet,
  quiet, Tells-refl, record_publish_put_failure-Tells, reset_publish_failures-Tells,
}

-- A payload, or that nothing has changed.
abbrev answered_at : Fetch → ℤ → Option ℤ
answered_at (failed e) at = none
answered_at _ at = some at

after_upsert-health : (s : State) (b : BatchResult) → (after_upsert s b).state.health ≡ s.health
unfolding after_upsert
after_upsert-health s b = ground arith

abbrev pub alerts_news : Setting → Cycle → State → News
alerts_news set c s = at_feed feed_alerts (answered_at (fetch set c s).outcome c.recorded_at)

after_fetch-Tells :
    (codec : Codec) (c : Cycle) (s : State) (f : Fetch) (r : Registry)
    → s.health ≡ some r
    → Tells
        (at_feed feed_alerts (answered_at f c.recorded_at))
        r
        (after_fetch codec c s f).state.health
unfolding after_fetch
after_fetch-Tells codec c s (failed e) r h = rw h (at_feed-quiet feed_alerts r)
after_fetch-Tells codec c s not_modified r h =
    rw h (record_success-Tells feed_alerts c.recorded_at r)
after_fetch-Tells codec c s (fetched alerts) r h =
    rw (after_upsert-health, h) (record_success-Tells feed_alerts c.recorded_at r)

pub poll_alerts-Tells :
    (set : Setting) (c : Cycle) (s : State) (r : Registry)
    → s.health ≡ some r
    → Tells (alerts_news set c s) r (poll_alerts set c s).state.health
unfolding poll_alerts
poll_alerts-Tells set c s r h =
    after_fetch-Tells set.codec c (record s { etags = (fetch set c s).etags })
      (fetch set c s).outcome r h

abbrev reported_at : ReportsFetch → ℤ → Option ℤ
reported_at (reports rs) at = some at
reported_at (no_reports e) at = none

gather-Tells :
    (feed : Feed) (at : ℤ) (o : ReportsFetch) (g : Gathered) (r : Registry)
    → g.health ≡ some r
    → Tells (at_feed feed (reported_at o at)) r (gather feed at o g).health
unfolding gather
gather-Tells feed at (reports rs) g r h = rw h (record_success-Tells feed at r)
gather-Tells feed at (no_reports e) g r h = rw h (at_feed-quiet feed r)

abbrev Method : Type 0
Method = (Bytes → Bytes → Option (List StormReport)) → Upstream → ReportsResult

-- What the client's method returns to the cycle.
abbrev feed_outcome : CsvCodec → Method → FeedCycle → Context → ReportsFetch
feed_outcome codec fetch c ctx =
    (fetch (λ kind body. parse_csv_reports codec.parse_float kind codec.read_csv c.days body)
      (c.spc (with_budget_fraction ctx c.budget_at spc_fetch_budget_percent))).outcome

abbrev feed_news : CsvCodec → Feed → Method → FeedCycle → Context → News
feed_news codec feed fetch c ctx =
    at_feed feed (reported_at (feed_outcome codec fetch c ctx) c.recorded_at)

abbrev pub reports_news : CsvCodec → ReportsCycle → Context → News
reports_news codec c ctx =
    then_news
      (then_news (feed_news codec feed_spc_torn fetch_today_tornado_reports c.torn ctx)
        (feed_news codec feed_spc_hail fetch_today_hail_reports c.hail ctx))
      (feed_news codec feed_spc_wind fetch_today_wind_reports c.wind ctx)

poll_feed-Tells :
    (codec : CsvCodec) (feed : Feed) (fetch : Method) (c : FeedCycle) (ctx : Context) (g : Gathered)
    (r : Registry)
    → g.health ≡ some r
    → Tells (feed_news codec feed fetch c ctx) r (poll_feed codec feed fetch c ctx g).health
unfolding poll_feed
poll_feed-Tells codec feed fetch c ctx g r h =
    gather-Tells feed c.recorded_at (feed_outcome codec fetch c ctx) g r h

pub gather_feeds-Tells :
    (codec : CsvCodec) (c : ReportsCycle) (ctx : Context) (r : Registry)
    → Tells (reports_news codec c ctx) r (gather_feeds codec c ctx (some r)).health
unfolding gather_feeds
gather_feeds-Tells codec c ctx r =
    Tells-trans _ _ r _ _
      (Tells-trans _ _ r _ _
        (poll_feed-Tells codec feed_spc_torn fetch_today_tornado_reports c.torn ctx
          (record { health = some r; found = [] }) r refl)
        (poll_feed-Tells codec feed_spc_hail fetch_today_hail_reports c.hail ctx _))
      (poll_feed-Tells codec feed_spc_wind fetch_today_wind_reports c.wind ctx _)

abbrev pub publish_news : Bool → ℤ → News
publish_news ok at = at_feed feed_publish (if ok then some at else none)

put-Tells :
    (ok : Bool) (state : Bytes) (r : Registry)
    → Tells quiet r (if ok then some r else record_publish_put_failure (some r) state)
put-Tells true state r = Tells-refl r
put-Tells false state r = record_publish_put_failure-Tells state r

merged-Tells :
    (ok : Bool) (at : ℤ) (r : Registry)
    → Tells (publish_news ok at) r (if ok then record_success (some r) feed_publish at else some r)
merged-Tells true at r = record_success-Tells feed_publish at r
merged-Tells false at r = at_feed-quiet feed_publish r

module _ {W : Type 0} where
  publish_state-Tells :
      (dest : Destinations W) (parent : Bytes → Interrupts) (alerts : List ActiveAlert)
      (generated_at : ℕ) (state : Bytes) (w : W) (r : Registry)
      → Tells quiet r (publish_state dest parent alerts generated_at state (w, some r)).1
  unfolding publish_state
  publish_state-Tells dest parent alerts generated_at state w r = put-Tells _ state r

  states-Tells :
      (dest : Destinations W) (parent : Bytes → Interrupts) (alerts : List ActiveAlert)
      (generated_at : ℕ) (order : List Bytes) (w : W) (h : Option Registry) (r : Registry)
      → h ≡ some r
      → Tells quiet r (publish_per_state_snapshots dest parent alerts generated_at order (w, h)).1
  unfolding publish_per_state_snapshots
  states-Tells dest parent alerts generated_at [] w h r e = rw e (Tells-refl r)
  states-Tells dest parent alerts generated_at (state ∷ order) w h r e =
      let s = publish_state dest parent alerts generated_at state (w, h) in
      Tells-trans quiet quiet r s.1 _
        (rw e (publish_state-Tells dest parent alerts generated_at state w r))
        (states-Tells dest parent alerts generated_at order s.0 s.1)

  after_merged-Tells :
      (ph : PublishPhase W) (alerts : List ActiveAlert) (generated_at : ℕ) (h : Option Registry)
      (p : W × Bool) (r : Registry)
      → h ≡ some r
      → Tells (publish_news p.1 ph.recorded_at) r (after_merged ph alerts generated_at h p).health
  unfolding after_merged
  after_merged-Tells ph alerts generated_at h p r e =
      Tells-trans (publish_news p.1 ph.recorded_at) quiet r _ _
        (rw e (merged-Tells p.1 ph.recorded_at r))
        (states-Tells ph.dest ph.parent_state alerts generated_at ph.order p.0 _)

  pub publish_snapshot-Tells :
      (ph : PublishPhase W) (areas : List Bytes) (active : Error ⊎ List ActiveAlert) (w : W)
      (r : Registry)
      → let p = publish_snapshot ph areas active w (some r) in
        Tells (publish_news p.merged_ok ph.recorded_at) r p.health
  unfolding publish_snapshot after_merged
  publish_snapshot-Tells ph areas (inl e) w r = at_feed-quiet feed_publish r
  publish_snapshot-Tells ph areas (inr alerts) w r =
      let start = reset_publish_failures (some r) in
      Tells-quiet _ r _ (
        Tells-trans quiet _ r start _ (reset_publish_failures-Tells r)
          (λ q e. after_merged-Tells ph alerts _ start _ q e))
