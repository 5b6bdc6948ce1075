-- ===== src/Poller/Run/Unstored.antt =====
-- About pollSafely and pollAlerts of internal/poller/poller.go: what a panic in the write of a batch
-- leads to.
use seestorm_ingest.Base.{◌≡◌, refl, ◌∙◌, ap, Bool, true, false, not, some}
use seestorm_ingest.Nws.Alert.{AlertsResponse}
use seestorm_ingest.Nws.Client.{fetched, not_modified}
use seestorm_ingest.Poller.Mode.{should_ingest, should_publish}
use seestorm_ingest.Poller.Budget.{Context}
use seestorm_ingest.Poller.Alerts.{
  State, Cycle, Setting, AlertsPolled, after_fetch, fetch, poll_alerts, etag_vouches_for_store,
}
use seestorm_ingest.Poller.Cycle.{
  Config, World, PollCycle, alerts_cycle, fetch_store, fetch_store_ctx, ingest_if, publish_if,
  publish_phase, poll, purge,
}
use seestorm_ingest.Poller.Run.{in_upsert, panicked, poll_safely}

poll_alerts-unmodified :
    (set : Setting) (c : Cycle) (s : State)
    → (fetch set c s).outcome ≡ not_modified
    → ((poll_alerts set c s).ok ≡ not s.last_upsert_failed)
      × ((poll_alerts set c s).state.table ≡ s.table)
unfolding poll_alerts after_fetch etag_vouches_for_store
poll_alerts-unmodified set c s h =
    let e = ap (after_fetch set.codec c (record s { etags = (fetch set c s).etags })) h in
    (ap (λ (a : AlertsPolled). a.ok) e, ap (λ (a : AlertsPolled). a.state.table) e)

module _ {W : Type 0} (cfg : Config) where
  publish_if-table :
      (b : Bool) (ctx : Context) (c : PollCycle W) (w : World W)
      → (publish_if cfg b ctx c w).0.alerts.table ≡ w.alerts.table
  unfolding publish_if publish_phase
  publish_if-table false ctx c w = refl
  publish_if-table true ctx c w = refl

  ingest_if-unmodified :
      (b : Bool) (ctx : Context) (c : PollCycle W) (w : World W)
      → b ≡ true
      → (fetch cfg.setting (alerts_cycle cfg (fetch_store_ctx cfg ctx c) c) w.alerts).outcome
        ≡ not_modified
      → ((ingest_if cfg b ctx c w).1 ≡ not w.alerts.last_upsert_failed)
        × ((ingest_if cfg b ctx c w).0.alerts.table
            ≡ purge (c.purge_fails (fetch_store_ctx cfg ctx c)) c.purge_now w.alerts.table)
  unfolding ingest_if fetch_store
  ingest_if-unmodified false ctx c w e h = absurd (cc e)
  ingest_if-unmodified true ctx c w e h =
      let a =
        poll_alerts-unmodified cfg.setting (alerts_cycle cfg (fetch_store_ctx cfg ctx c) c) w.alerts
          h in
      (a.0, ap (purge (c.purge_fails (fetch_store_ctx cfg ctx c)) c.purge_now) a.1)

  -- The flag that withholds the heartbeat misses a panic. A payload is decoded in one cycle, after which
  -- the write of its batch panics and leaves the table as it was; the panic is recovered. If the server
  -- answers the next cycle that nothing has changed, that cycle counts its alerts as stored, although
  -- the table holds nothing but what it held before the payload, less what has been purged.
  pub poll-Unstored :
      (ctx next_ctx : Context) (c next_c : PollCycle W) (w : World W) (alerts : AlertsResponse)
      → should_ingest cfg.mode ≡ true
      → w.alerts.last_upsert_failed ≡ false
      → (fetch cfg.setting (alerts_cycle cfg (fetch_store_ctx cfg ctx c) c) w.alerts).outcome
        ≡ fetched alerts
      → let v = (poll_safely cfg ctx c (some (in_upsert w.alerts.table)) w).0 in
        let later = fetch_store_ctx cfg next_ctx next_c in
        (fetch cfg.setting (alerts_cycle cfg later next_c) v.alerts).outcome ≡ not_modified
        → ((poll cfg next_ctx next_c v).alerts_ok ≡ true)
          × ((poll cfg next_ctx next_c v).world.alerts.table
              ≡ purge (next_c.purge_fails later) next_c.purge_now w.alerts.table)
  unfolding poll poll_safely panicked
  poll-Unstored ctx next_ctx c next_c w alerts role clean decoded unchanged =
      let v = (poll_safely cfg ctx c (some (in_upsert w.alerts.table)) w).0 in
      let i = ingest_if-unmodified (should_ingest cfg.mode) next_ctx next_c v role unchanged in
      (
        i.0 ∙ ap not clean,
        publish_if-table (should_publish cfg.mode) next_ctx next_c
              (ingest_if cfg (should_ingest cfg.mode) next_ctx next_c v).0
            ∙ i.1,
      )
