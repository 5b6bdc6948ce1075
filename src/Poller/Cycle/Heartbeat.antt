-- ===== src/Poller/Cycle/Heartbeat.antt =====
-- About poll of internal/poller/poller.go, cycle after cycle: what a heartbeat says.
use seestorm_ingest.Base.{
  ◌≡◌, refl, ◌∙◌, ap, ◌⊎◌, inl, inr, Bool, true, false, Option, none, some, List, [], ◌∷◌, arith,
  All, subst, if◌then◌else◌,
}
use seestorm_ingest.Base.Bytes.{Bytes}
use seestorm_ingest.Base.Maps.{Map}
use seestorm_ingest.Health.{Registry}
use seestorm_ingest.Store.Errors.{Error}
use seestorm_ingest.Store.Active.{ActiveAlert}
use seestorm_ingest.Base.Int.{ℤ, pos}
use seestorm_ingest.Store.Table.{is_active}
use seestorm_ingest.Store.Collapse.Survivors.{OnePerKey}
use seestorm_ingest.Store.Reading.{get_active_alerts, enrich}
use seestorm_ingest.Store.Reading.Complete.{Kept, get_active_alerts-Kept}
use seestorm_ingest.Publisher.{new_snapshot}
use seestorm_ingest.Poller.Mode.{should_ingest, should_publish, should_heartbeat}
use seestorm_ingest.Poller.Budget.{Context}
use seestorm_ingest.Poller.Alerts.{State, Setting, poll_alerts}
use seestorm_ingest.Poller.Alerts.Conditional.{Honest}
use seestorm_ingest.Poller.Alerts.Vouching.{
  Remembers, delivered, poll_alerts-Remembers, endpoint_of,
}
use seestorm_ingest.Poller.Publish.{
  PublishPhase, publish_snapshot, publish_with_retry, after_merged,
}
use seestorm_ingest.Poller.Cycle.{
  Config, World, PollCycle, alerts_cycle, fetch_store, publish_phase, ingest_if, publish_if, poll,
  fetch_store_ctx, publish_ctx,
}

pub Remembers-frame :
    (set : Setting) (d : Option Bool) (s t : State)
    → t.etags ≡ s.etags
    → t.last_upsert_failed ≡ s.last_upsert_failed
    → Remembers set d s
    → Remembers set d t
Remembers-frame set none s t e f r = (ap (λ (m : Map Bytes). m (endpoint_of set)) e ∙ r.0, f ∙ r.1)
Remembers-frame set (some b) s t e f r = f ∙ r

module _ {W : Type 0} (cfg : Config) where
  -- The last delivery of a payload up to the end of a cycle.
  abbrev pub delivered_by : Context → PollCycle W → World W → Option Bool → Option Bool
  delivered_by poll_ctx c w d =
      if should_ingest cfg.mode
      then delivered cfg.setting d (alerts_cycle cfg (fetch_store_ctx cfg poll_ctx c) c) w.alerts
      else d

  -- Cycles one after another: the last delivery and the world.
  unfoldable pub run_cycles :
      List (Context × PollCycle W) → Option Bool → World W → Option Bool × World W
  unfolding poll
  run_cycles [] d w = (d, w)
  run_cycles ((ctx, c) ∷ cs) d w = run_cycles cs (delivered_by ctx c w d) (poll cfg ctx c w).world

  -- The server answers 304 only to a request with an ETag, in whatever context.
  abbrev pub Upright : PollCycle W → Type 0
  Upright c = (x y : Context) → Honest (c.alerts x y).nws

  pub ingest_if-Remembers :
      (b : Bool) (ctx : Context) (c : PollCycle W) (w : World W) (d : Option Bool)
      → Upright c
      → Remembers cfg.setting d w.alerts
      → let i = ingest_if cfg b ctx c w in
        let d' =
          if b
          then delivered cfg.setting d (alerts_cycle cfg (fetch_store_ctx cfg ctx c) c) w.alerts
          else d in
        Remembers cfg.setting d' i.0.alerts × ((b ≡ false) ⊎ ((i.1 ≡ false) ⊎ (d' ≡ some true)))
  unfolding ingest_if fetch_store alerts_cycle
  ingest_if-Remembers false ctx c w d h r = (r, inl refl)
  ingest_if-Remembers true ctx c w d h r =
      let cycle = alerts_cycle cfg (fetch_store_ctx cfg ctx c) c in
      let a = poll_alerts cfg.setting cycle w.alerts in
      let k = poll_alerts-Remembers cfg.setting cycle w.alerts d (h _ _) r in
      (
        Remembers-frame cfg.setting (delivered cfg.setting d cycle w.alerts) a.state
            (ingest_if cfg true ctx c w).0.alerts refl refl k.0,
        inr k.1,
      )

  publish_if-Remembers :
      (b : Bool) (ctx : Context) (c : PollCycle W) (w : World W) (d : Option Bool)
      → Remembers cfg.setting d w.alerts
      → Remembers cfg.setting d (publish_if cfg b ctx c w).0.alerts
  unfolding publish_if publish_phase
  publish_if-Remembers false ctx c w d r = r
  publish_if-Remembers true ctx c w d r =
      Remembers-frame cfg.setting d w.alerts (publish_if cfg true ctx c w).0.alerts refl refl r

  pub poll-Remembers :
      (ctx : Context) (c : PollCycle W) (w : World W) (d : Option Bool)
      → Upright c
      → Remembers cfg.setting d w.alerts
      → Remembers cfg.setting (delivered_by ctx c w d) (poll cfg ctx c w).world.alerts
        × ((should_ingest cfg.mode ≡ false)
            ⊎ (((poll cfg ctx c w).alerts_ok ≡ false) ⊎ (delivered_by ctx c w d ≡ some true)))
  unfolding poll
  poll-Remembers ctx c w d h r =
      let k = ingest_if-Remembers (should_ingest cfg.mode) ctx c w d h r in
      (
        publish_if-Remembers (should_publish cfg.mode) ctx c
            (ingest_if cfg (should_ingest cfg.mode) ctx c w).0 (delivered_by ctx c w d) k.0,
        k.1,
      )

  run_cycles-Remembers :
      (cs : List (Context × PollCycle W)) (d : Option Bool) (w : World W)
      → All (λ (x : Context × PollCycle W). Upright x.1) cs
      → Remembers cfg.setting d w.alerts
      → Remembers cfg.setting (run_cycles cs d w).0 (run_cycles cs d w).1.alerts
  unfolding run_cycles
  run_cycles-Remembers [] d w h r = r
  run_cycles-Remembers ((ctx, c) ∷ cs) d w h r =
      run_cycles-Remembers cs (delivered_by ctx c w d) (poll cfg ctx c w).world h.1
        (poll-Remembers ctx c w d h.0 r).0

  -- The active alerts were read and the merged snapshot of them was put; and it leaves out no alert in
  -- force of the table.
  abbrev pub PutMerged : Context → PollCycle W → World W → Type 0
  PutMerged poll_ctx c w =
      let ctx = publish_ctx cfg poll_ctx c in
      let ph = c.publish ctx in
      let q = c.query ctx in
      (alerts : List ActiveAlert) × (get_active_alerts cfg.decoders q w.alerts.table ≡ inr alerts)
      × ((publish_with_retry
            (λ k v. (ph.dest k).publish (new_snapshot ph.now cfg.setting.areas alerts) v)
            ph.parent_merged w.stored).1
          ≡ true)
      × OnePerKey alerts
      × ((at : ℤ)
          → All (λ r. is_active q.db_now r ≡ true → Kept alerts (enrich cfg.decoders at r))
              w.alerts.table)

  publish_snapshot-ok :
      (ph : PublishPhase W) (active : Error ⊎ List ActiveAlert) (stored : W)
      (health : Option Registry)
      → (publish_snapshot ph cfg.setting.areas active stored health).merged_ok ≡ true
      → (alerts : List ActiveAlert) × (active ≡ inr alerts)
        × ((publish_with_retry
              (λ k v. (ph.dest k).publish (new_snapshot ph.now cfg.setting.areas alerts) v)
              ph.parent_merged
              stored).1
            ≡ true)
  unfolding publish_snapshot after_merged
  publish_snapshot-ok ph (inl e) stored health h = absurd (ground arith)
  publish_snapshot-ok ph (inr alerts) stored health h = (alerts, refl, h)

  publish_if-ok :
      (ctx : Context) (c : PollCycle W) (w : World W)
      → (publish_if cfg true ctx c w).1 ≡ true
      → PutMerged ctx c w
  unfolding publish_if publish_phase
  publish_if-ok ctx c w h =
      let q = c.query (publish_ctx cfg ctx c) in
      let (alerts, read, put) =
        publish_snapshot-ok (c.publish (publish_ctx cfg ctx c))
          (get_active_alerts cfg.decoders q w.alerts.table) w.stored w.alerts.health h in
      (
        alerts,
        read,
        put,
        (get_active_alerts-Kept cfg.decoders q (pos 0) w.alerts.table alerts read).0,
        λ at. (get_active_alerts-Kept cfg.decoders q at w.alerts.table alerts read).1,
      )

  poll-gate :
      (ctx : Context) (c : PollCycle W) (w : World W)
      → (poll cfg ctx c w).pinged ≡ true
      → (should_ingest cfg.mode ≡ true → (poll cfg ctx c w).alerts_ok ≡ true)
        × (should_publish cfg.mode ≡ true → (poll cfg ctx c w).merged_ok ≡ true)
  unfolding poll should_heartbeat
  poll-gate ctx c w h = (λ i. ground (arith, h, i), λ p. ground (arith, h, p))

  -- The database as it is read in the publish phase, after the fetch+store phase if there is one.
  abbrev pub before_publish : Context → PollCycle W → World W → World W
  before_publish ctx c w = (ingest_if cfg (should_ingest cfg.mode) ctx c w).0

  -- What a heartbeat says, at the end of a cycle: by `d` of the payloads, and of the snapshot.
  abbrev pub Says : Option Bool → Context → PollCycle W → World W → Type 0
  Says d ctx c w =
      (should_ingest cfg.mode ≡ true → d ≡ some true)
      × (should_publish cfg.mode ≡ true → PutMerged ctx c (before_publish ctx c w))

  pub pinged-Says :
      (ctx : Context) (c : PollCycle W) (w : World W) (d : Option Bool)
      → Upright c
      → Remembers cfg.setting d w.alerts
      → (poll cfg ctx c w).pinged ≡ true
      → Says (delivered_by ctx c w d) ctx c w
  unfolding poll
  pinged-Says ctx c w d honest k pinged =
      let g = poll-gate ctx c w pinged in
      (
        λ i. elim (poll-Remembers ctx c w d honest k).1 [
          | inl off ↦ absurd (cc (i, off))
          | inr (inl failing) ↦ absurd (cc (g.0 i, failing))
          | inr (inr landed) ↦ landed
        ],
        λ p. publish_if-ok ctx c (before_publish ctx c w) (
            subst (λ (b : Bool). (publish_if cfg b ctx c (before_publish ctx c w)).1 ≡ true) p
              (g.1 p)),
      )

  -- A process starts with no ETag and no failed batch, and runs any number of whole cycles, with any
  -- failures. When a cycle then sends its heartbeat: if the role ingests, NWS has sent a payload that was
  -- decoded, in this cycle or before, and UpsertAlertsBatch returned no error for the last such payload.
  -- If the role publishes, the active alerts were read from the database as the cycle left it, and the
  -- merged snapshot of them was put; it leaves out no alert in force of the table. The condition on the
  -- server is that it answers 304 only to a request that carries an ETag.
  pub poll-pinged :
      (cs : List (Context × PollCycle W)) (ctx : Context) (c : PollCycle W) (w : World W)
      → ((k : Bytes) → w.alerts.etags k ≡ none)
      → w.alerts.last_upsert_failed ≡ false
      → All (λ (x : Context × PollCycle W). Upright x.1) cs
      → Upright c
      → let r = run_cycles cs none w in
        (poll cfg ctx c r.1).pinged ≡ true
        → (should_ingest cfg.mode ≡ true → delivered_by ctx c r.1 r.0 ≡ some true)
          × (should_publish cfg.mode ≡ true → PutMerged ctx c (before_publish ctx c r.1))
  poll-pinged cs ctx c w fresh clean h honest pinged =
      let r = run_cycles cs none w in
      let k = run_cycles-Remembers cs none w h (fresh (endpoint_of cfg.setting), clean) in
      pinged-Says ctx c r.1 r.0 honest k pinged
