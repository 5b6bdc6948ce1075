-- ===== src/Poller/Healthz/Cycles.antt =====
-- About poll of internal/poller/poller.go with the handler of internal/health/handler.go: which cycles
-- /healthz vouches for.
use seestorm_ingest.Base.{
  ◌≡◌, ◌∙◌, sym, subst, ◌↔◌, Bool, true, false, some, List, [], ◌∷◌, All, All-map,
}
use seestorm_ingest.Base.Int.{ℤ, ◌-ℤ◌}
use seestorm_ingest.Store.Reading.{get_active_alerts}
use seestorm_ingest.Health.{
  Feed, Registry, new_registry, required_feeds, health_handler, last_success,
}
use seestorm_ingest.Health.Freshness.{FreshAt, health_handler-ok_iff}
use seestorm_ingest.Poller.Mode.{should_ingest, should_publish}
use seestorm_ingest.Poller.Budget.{Context}
use seestorm_ingest.Poller.Alerts.{poll_alerts}
use seestorm_ingest.Poller.Reports.{poll_storm_reports}
use seestorm_ingest.Poller.Publish.{publish_snapshot}
use seestorm_ingest.Poller.Cycle.{
  Config, World, PollCycle, alerts_cycle, fetch_store, fetch_store_ctx, publish_ctx, publish_phase,
  ingest_if, publish_if, poll,
}
use seestorm_ingest.Poller.Healthz.{
  News, quiet, then_news, Tells, Tells-refl, Tells-trans, or_before-none,
}
use seestorm_ingest.Poller.Healthz.Phases.{
  alerts_news, poll_alerts-Tells, reports_news, gather_feeds-Tells, publish_news,
  publish_snapshot-Tells,
}

module _ {W : Type 0} (cfg : Config) where
  -- The feeds that answered in the fetch+store phase.
  abbrev ingest_news : Bool → Context → PollCycle W → World W → News
  ingest_news false ctx c w = quiet
  ingest_news true ctx c w =
      let phase = fetch_store_ctx cfg ctx c in
      then_news (alerts_news cfg.setting (alerts_cycle cfg phase c) w.alerts)
        (reports_news cfg.csv c.reports phase)

  -- Whether the merged snapshot was put.
  abbrev snapshot_news : Bool → Context → PollCycle W → World W → News
  snapshot_news false ctx c w = quiet
  snapshot_news true ctx c w =
      let phase = publish_ctx cfg ctx c in
      publish_news (publish_phase cfg phase c w).1 (c.publish phase).recorded_at

  -- What the calls of one cycle came to.
  abbrev pub cycle_news : Context → PollCycle W → World W → News
  cycle_news ctx c w = then_news (ingest_news (should_ingest cfg.mode) ctx c w) (
      snapshot_news (should_publish cfg.mode) ctx c
        (ingest_if cfg (should_ingest cfg.mode) ctx c w).0)

  ingest_if-Tells :
      (on : Bool) (ctx : Context) (c : PollCycle W) (w : World W) (r : Registry)
      → w.alerts.health ≡ some r
      → Tells (ingest_news on ctx c w) r (ingest_if cfg on ctx c w).0.alerts.health
  unfolding ingest_if fetch_store poll_storm_reports
  ingest_if-Tells false ctx c w r h = rw h (Tells-refl r)
  ingest_if-Tells true ctx c w r h =
      let phase = fetch_store_ctx cfg ctx c in
      let cycle = alerts_cycle cfg phase c in
      Tells-trans (alerts_news cfg.setting cycle w.alerts) (reports_news cfg.csv c.reports phase) r
        (poll_alerts cfg.setting cycle w.alerts).state.health _
        (poll_alerts-Tells cfg.setting cycle w.alerts r h)
        (λ q e. rw e (gather_feeds-Tells cfg.csv c.reports phase q))

  publish_if-Tells :
      (on : Bool) (ctx : Context) (c : PollCycle W) (w : World W) (r : Registry)
      → w.alerts.health ≡ some r
      → Tells (snapshot_news on ctx c w) r (publish_if cfg on ctx c w).0.alerts.health
  unfolding publish_if publish_phase
  publish_if-Tells false ctx c w r h = rw h (Tells-refl r)
  publish_if-Tells true ctx c w r h =
      let phase = publish_ctx cfg ctx c in
      let active = get_active_alerts cfg.decoders (c.query phase) w.alerts.table in
      subst
        (λ h'.
          let p = publish_snapshot (c.publish phase) cfg.setting.areas active w.stored h' in
          Tells (publish_news p.merged_ok (c.publish phase).recorded_at) r p.health)
        (sym h) (publish_snapshot-Tells (c.publish phase) cfg.setting.areas active w.stored r)

  poll-Tells :
      (ctx : Context) (c : PollCycle W) (w : World W) (r : Registry)
      → w.alerts.health ≡ some r
      → Tells (cycle_news ctx c w) r (poll cfg ctx c w).world.alerts.health
  unfolding poll
  poll-Tells ctx c w r h =
      let i = ingest_if cfg (should_ingest cfg.mode) ctx c w in
      Tells-trans _ _ r i.0.alerts.health _ (ingest_if-Tells (should_ingest cfg.mode) ctx c w r h)
        (λ q e. publish_if-Tells (should_publish cfg.mode) ctx c i.0 q e)

  -- Any cycles, one after the other: the world, and what they came to.
  abbrev pub cycles : List (Context × PollCycle W) → World W → World W
  cycles [] w = w
  cycles ((ctx, c) ∷ cs) w = cycles cs (poll cfg ctx c w).world

  abbrev pub cycles_news : List (Context × PollCycle W) → World W → News
  cycles_news [] w = quiet
  cycles_news ((ctx, c) ∷ cs) w =
      then_news (cycle_news ctx c w) (cycles_news cs (poll cfg ctx c w).world)

  cycles-Tells :
      (cs : List (Context × PollCycle W)) (w : World W) (r : Registry)
      → w.alerts.health ≡ some r
      → Tells (cycles_news cs w) r (cycles cs w).alerts.health
  cycles-Tells [] w r h = rw h (Tells-refl r)
  cycles-Tells ((ctx, c) ∷ cs) w r h =
      Tells-trans (cycle_news ctx c w) _ r _ _ (poll-Tells ctx c w r h)
        (λ q e. cycles-Tells cs (poll cfg ctx c w).world q e)

  last_success-cycles :
      (cs : List (Context × PollCycle W)) (w : World W) (f : Feed)
      → w.alerts.health ≡ some new_registry
      → last_success (cycles cs w).alerts.health f ≡ cycles_news cs w f
  unfolding last_success
  last_success-cycles cs w f h =
      let (r', e, told) = cycles-Tells cs w new_registry h in rw e (told f ∙ or_before-none _)

  -- The process starts with an empty registry and runs any number of cycles, none of which panics. Then
  -- /healthz answers 200 exactly when, for each feed that the process's role requires, the last of its
  -- successes is no older than the maximal age: for the alerts, a fetch that brought a payload or 304,
  -- whether or not the payload was stored; for each of the storm report feeds, a fetch that brought
  -- reports; for the publish feed, a merged snapshot that was put.
  pub healthz-cycles :
      (cs : List (Context × PollCycle W)) (w : World W) (max_age now : ℤ)
      → w.alerts.health ≡ some new_registry
      → let feeds = required_feeds (should_ingest cfg.mode) (should_publish cfg.mode) in
        let health = (cycles cs w).alerts.health in
        ((health_handler health feeds max_age now).code ≡ 200)
        ↔ All (λ f. FreshAt (now -ℤ max_age) (cycles_news cs w f)) feeds
  healthz-cycles cs w max_age now h =
      let feeds = required_feeds (should_ingest cfg.mode) (should_publish cfg.mode) in
      let ok = (health_handler-ok_iff (cycles cs w).alerts.health feeds max_age now).0 in
      let cutoff = now -ℤ max_age in
      let same : (f : Feed) → last_success (cycles cs w).alerts.health f ≡ cycles_news cs w f =
        λ f. last_success-cycles cs w f h in
      (
        λ k. All-map _ _ feeds (λ f x. subst (FreshAt cutoff) (same f) x) (ok.0 k),
        λ k. ok.1 (All-map _ _ feeds (λ f x. subst (FreshAt cutoff) (sym (same f)) x) k),
      )
