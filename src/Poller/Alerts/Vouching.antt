-- ===== src/Poller/Alerts/Vouching.antt =====
-- About pollAlerts of internal/poller/poller.go, cycle after cycle: what its success says of the store.
use seestorm_ingest.Base.{
  ◌≡◌, refl, ◌∙◌, ◌⊎◌, inl, Bool, true, false, not, Option, none, some, List, [], ◌∷◌, arith, All,
  inr,
}
use seestorm_ingest.Base.Bytes.{Bytes, lit}
use seestorm_ingest.Base.Maps.{Map}
use seestorm_ingest.Strings.{join}
use seestorm_ingest.Nws.Client.{
  Fetch, fetched, not_modified, failed, fetch_active_alerts, alerts_endpoint, or_empty,
}
use seestorm_ingest.Nws.Client.Etags.{EtagsAfter, fetch_active_alerts-EtagsAfter}
use seestorm_ingest.Store.Batch.{BatchResult, upsert_alerts_batch}
use seestorm_ingest.Poller.Alerts.{
  State, Cycle, Setting, after_upsert, after_fetch, fetch, poll_alerts, etag_vouches_for_store,
  record_success, feed_alerts,
}
use seestorm_ingest.Poller.Alerts.Conditional.{Honest, IfModified, fetch_from-IfModified}

abbrev is_none : {A : Type 0} → Option A → Bool
is_none none = true
is_none (some x) = false

-- Whether a payload reached the store without an error; `none` if no payload was decoded.
abbrev delivery : Setting → Cycle → State → Fetch → Option Bool
delivery set c s (fetched alerts) =
    some (is_none (upsert_alerts_batch set.codec c.store alerts.features s.table).error)
delivery set c s _ = none

abbrev latest : Option Bool → Option Bool → Option Bool
latest before none = before
latest before (some b) = some b

-- The last delivery up to the end of a cycle.
abbrev pub delivered : Setting → Option Bool → Cycle → State → Option Bool
delivered set d c s = latest d (delivery set c s (fetch set c s).outcome)

-- The cycles one after another: the last delivery and the state.
unfoldable pub run : Setting → List Cycle → Option Bool → State → Option Bool × State
unfolding poll_alerts
run set [] d s = (d, s)
run set (c ∷ cs) d s = run set cs (delivered set d c s) (poll_alerts set c s).state

abbrev pub endpoint_of : Setting → Bytes
endpoint_of set = alerts_endpoint set.encode (join (lit ",") set.areas)

-- The flag remembers the last delivery; without one there is no ETag.
abbrev pub Remembers : Setting → Option Bool → State → Type 0
Remembers set none s = (s.etags (endpoint_of set) ≡ none) × (s.last_upsert_failed ≡ false)
Remembers set (some b) s = s.last_upsert_failed ≡ not b

module _ (set : Setting) where
  fetch-IfModified :
      (c : Cycle) (s : State)
      → Honest c.nws
      → IfModified (or_empty (s.etags (endpoint_of set))) (fetch set c s).outcome
  unfolding fetch_active_alerts
  fetch-IfModified c s honest = fetch_from-IfModified set.decode c.nws _ _ 3 0 none s.etags honest

  after_upsert-Remembers :
      (s : State) (b : BatchResult) (d : Option Bool)
      → let p = after_upsert s b in
        let d' = latest d (some (is_none b.error)) in
        Remembers set d' p.state × ((p.ok ≡ false) ⊎ (d' ≡ some true))
  unfolding after_upsert
  after_upsert-Remembers s b d = ground arith

  -- One cycle, from the fetch's result on.
  after_fetch-Remembers :
      (c : Cycle) (s : State) (d : Option Bool) (m : Map Bytes) (o : Fetch)
      → Remembers set d s
      → IfModified (or_empty (s.etags (endpoint_of set))) o
      → EtagsAfter (endpoint_of set) (endpoint_of set) s.etags o m
      → let p = after_fetch set.codec c (record s { etags = m }) o in
        let d' = latest d (delivery set c s o) in
        Remembers set d' p.state × ((p.ok ≡ false) ⊎ (d' ≡ some true))
  unfolding after_fetch etag_vouches_for_store
  after_fetch-Remembers c s none m not_modified r h e = ground arith
  after_fetch-Remembers c s (some b) m not_modified r h e = ground arith
  after_fetch-Remembers c s none m (failed x) r h e = ((e ∙ r.0, r.1), inl refl)
  after_fetch-Remembers c s (some b) m (failed x) r h e = (r, inl refl)
  after_fetch-Remembers c s d m (fetched alerts) r h e =
      let b = upsert_alerts_batch set.codec c.store alerts.features s.table in
      after_upsert-Remembers
        (record s { etags = m; health = record_success s.health feed_alerts c.recorded_at }) b d

  pub poll_alerts-Remembers :
      (c : Cycle) (s : State) (d : Option Bool)
      → Honest c.nws
      → Remembers set d s
      → Remembers set (delivered set d c s) (poll_alerts set c s).state
        × (((poll_alerts set c s).ok ≡ false) ⊎ (delivered set d c s ≡ some true))
  unfolding poll_alerts
  poll_alerts-Remembers c s d honest r =
      after_fetch-Remembers c s d (fetch set c s).etags (fetch set c s).outcome r
        (fetch-IfModified c s honest)
        (fetch_active_alerts-EtagsAfter set.decode set.encode c.nws (join (lit ",") set.areas)
          s.etags (endpoint_of set))

  run-Remembers :
      (cs : List Cycle) (d : Option Bool) (s : State)
      → All (λ (c : Cycle). Honest c.nws) cs
      → Remembers set d s
      → Remembers set (run set cs d s).0 (run set cs d s).1
  unfolding run
  run-Remembers [] d s h r = r
  run-Remembers (c ∷ cs) d s h r =
      run-Remembers cs (delivered set d c s) (poll_alerts set c s).state h.1
        (poll_alerts-Remembers c s d h.0 r).0

  -- A process starts with no ETag and no failed batch, and runs any number of cycles, with any
  -- failures of the network, of the decoding and of the database. When a cycle then counts as a
  -- success for the heartbeat, NWS has sent a payload that was decoded, in this cycle or before,
  -- and UpsertAlertsBatch returned no error for the last such payload. The condition on the
  -- server is that it answers 304 only to a request that carries an ETag.
  pub poll_alerts-delivered :
      (cs : List Cycle) (c : Cycle) (s : State)
      → ((k : Bytes) → s.etags k ≡ none)
      → s.last_upsert_failed ≡ false
      → All (λ (b : Cycle). Honest b.nws) cs
      → Honest c.nws
      → (poll_alerts set c (run set cs none s).1).ok ≡ true
      → delivered set (run set cs none s).0 c (run set cs none s).1 ≡ some true
  poll_alerts-delivered cs c s fresh clean h honest ok =
      let r = run-Remembers cs none s h (fresh (endpoint_of set), clean) in
      elim (poll_alerts-Remembers c (run set cs none s).1 (run set cs none s).0 honest r).1 [
        | inl failing ↦ absurd (cc (ok, failing))
        | inr landed ↦ landed
      ]
