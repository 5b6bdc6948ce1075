-- ===== src/Poller/Cycle/Lost.antt =====
-- About poll of internal/poller/poller.go, when the database takes nothing: the heartbeat is sent.
use seestorm_ingest.Health.{record_success, feed_alerts}
use seestorm_ingest.Base.Bytes.{bytes_eq}
use seestorm_ingest.Base.{ap, ◌≡◌, refl, true, false, none, some, subst, sym}
use seestorm_ingest.Nws.Alert.{AlertsResponse}
use seestorm_ingest.Nws.Client.{fetched, Fetch}
use seestorm_ingest.Store.Errors.{Error, is_fatal_batch_err}
use seestorm_ingest.Store.Batch.{BatchResult, upsert_alerts_batch}
use seestorm_ingest.Store.Batch.Lost.{RowsFail, upsert_alerts_batch-Lost, Lost}
use seestorm_ingest.Poller.Mode.{mode_ingest, should_ingest, should_publish, should_heartbeat}
use seestorm_ingest.Poller.Budget.{Context}
use seestorm_ingest.Poller.Alerts.{
  State, Cycle, Setting, AlertsPolled, fetch, after_upsert, after_fetch, poll_alerts,
}
use seestorm_ingest.Poller.Cycle.{
  Config, World, PollCycle, alerts_cycle, fetch_store, fetch_store_ctx, ingest_if, publish_if, poll,
  ping_async, purge,
}

-- The alerts count as stored, and none is.
abbrev Taken : State → AlertsPolled → Type 0
Taken s a = (a.state.table ≡ s.table) × (a.state.last_upsert_failed ≡ false) × (a.ok ≡ true)

after_upsert-Taken : (s : State) (b : BatchResult) → Lost s.table b → Taken s (after_upsert s b)
unfolding after_upsert
after_upsert-Taken s b (t, n, e) = rw (e, after_upsert, t) (refl, refl, refl)

poll_alerts-Taken :
    (set : Setting) (c : Cycle) (s : State) (alerts : AlertsResponse) (e : Error)
    → (fetch set c s).outcome ≡ fetched alerts
    → c.store.begin_fails ≡ some e
    → is_fatal_batch_err e ≡ false
    → c.store.ctx_err ≡ none
    → RowsFail set.codec c.store
    → Taken s (poll_alerts set c s)
unfolding poll_alerts after_fetch
poll_alerts-Taken set c s alerts e f begin mild alive rows =
    let lost =
      upsert_alerts_batch-Lost set.codec c.store rows alerts.features s.table e begin mild alive in
    let kept : State = record s { etags = (fetch set c s).etags } in
    subst (λ (o : Fetch). Taken s (after_fetch set.codec c kept o)) (sym f)
      (after_upsert-Taken
        (record kept { health = record_success s.health feed_alerts c.recorded_at })
        (upsert_alerts_batch set.codec c.store alerts.features s.table) lost)

-- A process that only ingests gets a payload, and the database takes nothing of it: the transaction does
-- not begin, and every row that is then written by itself fails, all by errors that are not the
-- context's, as when the server refuses its connections. Then the cycle stores no alert, so that the
-- table is as it was but for the purge; the flag that is to withhold later heartbeats is cleared; and
-- the heartbeat is sent all the same, if it has an address.
pub poll-Lost :
    {W : Type 0} (cfg : Config) (ctx : Context) (c : PollCycle W) (w : World W)
    (alerts : AlertsResponse) (e : Error)
    → cfg.mode ≡ mode_ingest
    → let phase = fetch_store_ctx cfg ctx c in
      let cycle = alerts_cycle cfg phase c in
      (fetch cfg.setting cycle w.alerts).outcome ≡ fetched alerts
      → cycle.store.begin_fails ≡ some e
      → is_fatal_batch_err e ≡ false
      → cycle.store.ctx_err ≡ none
      → RowsFail cfg.setting.codec cycle.store
      → let p = poll cfg ctx c w in
        (p.world.alerts.table ≡ purge (c.purge_fails phase) c.purge_now w.alerts.table)
        × (p.world.alerts.last_upsert_failed ≡ false)
        × (p.pinged ≡ ping_async cfg.health_ping)
unfolding poll ingest_if publish_if fetch_store should_ingest should_publish should_heartbeat
    bytes_eq
poll-Lost cfg ctx c w alerts e mode f begin mild alive rows =
    let cycle = alerts_cycle cfg (fetch_store_ctx cfg ctx c) c in
    let (t, flag, ok) =
      poll_alerts-Taken cfg.setting cycle w.alerts alerts e f begin mild alive rows in
    rw (mode, poll, ingest_if, publish_if)
      (
        ap (purge (c.purge_fails (fetch_store_ctx cfg ctx c)) c.purge_now) t,
        flag,
        rw (ok, should_heartbeat) refl,
      )
