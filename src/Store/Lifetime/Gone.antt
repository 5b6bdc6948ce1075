-- ===== src/Store/Lifetime/Gone.antt =====
-- About internal/store/postgres.go: a message that was superseded stays out of the snapshots.
use seestorm_ingest.Base.{
  ℕ, ◌≤◌, ◌<◌, ◌≡◌, refl, ◌⊎◌, inl, inr, false, Option, none, some, List, [], ◌∷◌, All, arith,
  if◌then◌else◌, Bool-cases, not, sym, ◌∙◌, ltb,
}
use seestorm_ingest.Base.Bytes.{Bytes, bytes_eq, bytes_eq_iff}
use seestorm_ingest.Nws.Alert.{Alert}
use seestorm_ingest.Store.Errors.{Error}
use seestorm_ingest.Store.Args.{Codec, args, alert_upsert_args}
use seestorm_ingest.Store.Table.{
  AlertArgs, Row, Table, find, is_live, upsert_row, on_conflict, purge_expired, is_active,
  active_rows, order_by_effective, insert_desc,
}
use seestorm_ingest.Store.Table.Rows.{
  find-upsert_row, upserted, IsKeyed, upsert_row-IsKeyed, find-keep_if, purge_expired-IsKeyed,
  Fresh, Fresh-cons,
}
use seestorm_ingest.Store.Supersede.{retire_referenced}
use seestorm_ingest.Store.Supersede.Marks.{
  retire_referenced-KeptOrRetired, retire_referenced-IsKeyed, KeptOrRetired,
}
use seestorm_ingest.Store.Batch.{Surroundings, upsert_alerts_batch}
use seestorm_ingest.Store.Batch.Steps.{Made, exec_queued-Inv}
use seestorm_ingest.Store.Batch.Passage.{Passage}
use seestorm_ingest.Store.Batch.Degraded.{upsert_alerts_batch-Passages}
use seestorm_ingest.Store.Lifetime.{StoreOp, write, purge, apply_ops, ExpiresAt, Steady}

-- What the table holds of a message that is out of force from `now` on: no row, or one that keeps the
-- expiry time; without a retired row the expiry time has passed.
abbrev Out : ℕ → ℕ → Option Row → Type 0
Out expiry now none = expiry < now
Out expiry now (some r) = (r.expires_at ≡ expiry) × ((is_live r ≡ false) ⊎ (expiry < now))

Out-upserted :
    (expiry now : ℕ) (a : AlertArgs) (o : Option Row)
    → a.expires_at ≡ expiry
    → Out expiry now o
    → Out expiry now (some (upserted a o))
unfolding on_conflict
Out-upserted expiry now a none e h = (e, inr h)
Out-upserted expiry now a (some r) e h = (e, h.1)

alert_upsert_args-expires_at :
    (codec : Codec) (alert : Alert) (received_at : ℕ) (a : AlertArgs)
    → alert_upsert_args codec alert received_at ≡ args a
    → (codec.parse_time alert.properties.expires ≡ some a.expires_at)
      × (a.nws_id ≡ alert.properties.id)
unfolding alert_upsert_args
alert_upsert_args-expires_at codec alert received_at a h = ground arith

Out-retired :
    (expiry now at : ℕ) (alerts : List Alert) (id : Bytes) (before after : Option Row)
    → KeptOrRetired alerts at id before after
    → Out expiry now before
    → Out expiry now after
Out-retired expiry now at alerts id before after (inl same) h = rw same h
Out-retired expiry now at alerts id before after (inr (r, b, live, named, a)) h =
    rw a ((rw b at h).0, inr (ground (arith, b, h, live)))

Out-purged :
    (expiry now at : ℕ) (o : Option Row)
    → at ≤ now
    → Out expiry now o
    → Out expiry now
        (elim o [ none ↦ none | some r ↦ if not (ltb r.expires_at at) then some r else none ])
Out-purged expiry now at none le h = h
Out-purged expiry now at (some r) le h = elim (Bool-cases (ltb r.expires_at at)) [
  | inl old ↦ rw old (ground (arith, old, h, le))
  | inr new ↦ rw new h
]

module _ (codec : Codec) (id : Bytes) (expiry now : ℕ) where
  -- The invariant of the table.
  abbrev Away : Table → Type 0
  Away t = IsKeyed t × Out expiry now (find id t)

  upsert_row-Away :
      (alert : Alert) (a : AlertArgs) (t : Table)
      → ExpiresAt codec id expiry alert
      → Made codec (alert, a)
      → Away t
      → Away (upsert_row a t)
  upsert_row-Away alert a t steady (received_at, made) (k, h) =
      let (parsed, own) = alert_upsert_args-expires_at codec alert received_at a made in
      (
        upsert_row-IsKeyed a t k,
        elim (Bool-cases (bytes_eq a.nws_id id)) [
          | inl same ↦
              let e : a.nws_id ≡ id = (bytes_eq_iff a.nws_id id).0 same in
              rw (find-upsert_row a id t, same)
                (Out-upserted expiry now a (find a.nws_id t)
                  (steady (sym own ∙ e) a.expires_at parsed) (rw e h))
          | inr other ↦ rw (find-upsert_row a id t, other) h
        ],
      )

  retire_referenced-Away :
      (fails : ℕ → Option Error) (at : ℕ) (alerts : List Alert) (t : Table)
      → Away t
      → Away (retire_referenced fails at alerts t).table
  retire_referenced-Away fails at alerts t (k, h) = (
    retire_referenced-IsKeyed fails at alerts t k,
    Out-retired expiry now at alerts id _ _ (retire_referenced-KeptOrRetired fails at alerts t id)
        h,
  )

  Passage-Away :
      (t final : Table) → Passage codec (ExpiresAt codec id expiry) t final → Away t → Away final
  Passage-Away t final p away =
      let written =
        exec_queued-Inv codec (ExpiresAt codec id expiry) Away upsert_row-Away p.writes t p.chosen
          away in
      elim p.ends [
        | inl same ↦ rw same written
        | inr retired ↦ rw retired (retire_referenced-Away p.fails p.now _ _ written)
      ]

  upsert_alerts_batch-Away :
      (w : Surroundings) (alerts : List Alert) (t : Table)
      → All (ExpiresAt codec id expiry) alerts
      → Away t
      → Away (upsert_alerts_batch codec w alerts t).table
  upsert_alerts_batch-Away w alerts t steady away =
      let p = upsert_alerts_batch-Passages codec (ExpiresAt codec id expiry) w alerts t steady in
      Passage-Away p.middle _ p.second (Passage-Away t p.middle p.first away)

  purge_expired-Away : (at : ℕ) (t : Table) → at ≤ now → Away t → Away (purge_expired at t)
  unfolding purge_expired
  purge_expired-Away at t le (k, h) = (
    purge_expired-IsKeyed at t k,
    rw (find-keep_if id (λ r. not (ltb r.expires_at at)) t k)
        (Out-purged expiry now at (find id t) le h),
  )

  apply_ops-Away :
      (ops : List StoreOp) (t : Table)
      → All (Steady codec id expiry now) ops
      → Away t
      → Away (apply_ops codec ops t)
  apply_ops-Away [] t h away = away
  apply_ops-Away (write w alerts ∷ ops) t h away =
      apply_ops-Away ops _ h.1 (upsert_alerts_batch-Away w alerts t h.0 away)
  apply_ops-Away (purge at ∷ ops) t h away =
      apply_ops-Away ops _ h.1 (purge_expired-Away at t h.0 away)

find-insert_desc :
    (id : Bytes) (r : Row) (rows : List Row)
    → bytes_eq r.nws_id id ≡ false
    → Fresh id rows
    → Fresh id (insert_desc r rows)
unfolding find insert_desc
find-insert_desc id r [] h f = ground (arith, h)
find-insert_desc id r (s ∷ rows) h f = ground (arith, h, f, find-insert_desc id r rows h)

find-order_by_effective :
    (id : Bytes) (rows : List Row) → Fresh id rows → Fresh id (order_by_effective rows)
unfolding find order_by_effective
find-order_by_effective id [] f = f
find-order_by_effective id (r ∷ rows) f =
    let (other, rest) = Fresh-cons id r rows f in
    find-insert_desc id r (order_by_effective rows) other (find-order_by_effective id rows rest)

Out-inactive :
    (expiry now : ℕ) (o : Option Row)
    → Out expiry now o
    → ◌≡◌ {A = Option Row}
        (elim o [ none ↦ none | some r ↦ if is_active now r then some r else none ])
        none
Out-inactive expiry now none h = refl
Out-inactive expiry now (some r) h = ground (arith, h)

-- Once a row is retired, no later snapshot query returns its message: not after any batches and
-- purges, whatever fails in them, also where the purges deleted the row and later batches brought the
-- message again. The batches agree on the message's expiry time, and no purge is after the snapshot.
pub apply_ops-Gone :
    (codec : Codec) (ops : List StoreOp) (id : Bytes) (now : ℕ) (t : Table) (r : Row)
    → IsKeyed t
    → find id t ≡ some r
    → is_live r ≡ false
    → All (Steady codec id r.expires_at now) ops
    → find id (active_rows now (apply_ops codec ops t)) ≡ none
unfolding active_rows
apply_ops-Gone codec ops id now t r k e dead steady =
    let (keyed, away) =
      apply_ops-Away codec id r.expires_at now ops t steady (k, rw e (refl, inl dead)) in
    find-order_by_effective id _ (
      find-keep_if id (is_active now) (apply_ops codec ops t) keyed
      ∙ Out-inactive r.expires_at now _ away)
