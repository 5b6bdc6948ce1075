-- ===== src/Store/Lifetime/Snapshots.antt =====
-- About GetActiveAlerts of internal/store/postgres.go: a message that was superseded is in no later
-- snapshot.
use seestorm_ingest.Base.{
  ℕ, suc, ◌≡◌, subst, inl, inr, false, some, List, [], ◌∷◌, All, arith, Option-cases, Sum-cases,
}
use seestorm_ingest.Base.Bytes.{Bytes, bytes_eq, bytes_eq_iff}
use seestorm_ingest.Store.Active.{ActiveAlert}
use seestorm_ingest.Store.Args.{Codec}
use seestorm_ingest.Store.Table.{Row, Table, find, is_live, active_rows}
use seestorm_ingest.Store.Table.Rows.{IsKeyed, Fresh, Fresh-cons}
use seestorm_ingest.Store.Collapse.{collapse_by_event}
use seestorm_ingest.Store.Collapse.Reference.{absorb, absorb_all, collapse_by_event-eq-absorb_all}
use seestorm_ingest.Store.Reading.{
  Decoders, Query, enrich, enrich_rows, finish_rows, get_active_alerts,
}
use seestorm_ingest.Store.Reading.Complete.{HasId}
use seestorm_ingest.Store.Lifetime.{StoreOp, apply_ops, Steady}
use seestorm_ingest.Store.Lifetime.Gone.{apply_ops-Gone}

module _ (P : ActiveAlert → Type 0) where
  absorb-All : (a : ActiveAlert) (out : List ActiveAlert) → P a → All P out → All P (absorb a out)
  absorb-All a [] h k = (h, tt)
  absorb-All a (b ∷ out) h k = ground (arith, absorb-All a out h k.1, h, k)

  absorb_all-All :
      (out alerts : List ActiveAlert) → All P out → All P alerts → All P (absorb_all out alerts)
  absorb_all-All out [] k h = k
  absorb_all-All out (a ∷ rest) k h =
      absorb_all-All (absorb a out) rest (absorb-All a out h.0 k) h.1

  -- The collapse adds nothing.
  collapse_by_event-All :
      (alerts : List ActiveAlert) → All P alerts → All P (collapse_by_event alerts)
  collapse_by_event-All alerts h =
      rw (collapse_by_event-eq-absorb_all alerts) (absorb_all-All [] alerts tt h)

abbrev Other : Bytes → ActiveAlert → Type 0
Other id a = bytes_eq a.nws_id id ≡ false

Other-absent :
    (id : Bytes) (alerts : List ActiveAlert) → All (Other id) alerts → HasId alerts id → ⊥
Other-absent id [] h k = k
Other-absent id (a ∷ alerts) h (inl e) =
    absurd (ground (arith, h.0, (bytes_eq_iff a.nws_id id).1 e))
Other-absent id (a ∷ alerts) h (inr k) = Other-absent id alerts h.1 k

module _ (d : Decoders) (q : Query) (id : Bytes) where
  enrich_rows-Other :
      (i : ℕ) (rows : List Row) (alerts : List ActiveAlert)
      → Fresh id rows
      → enrich_rows d q i rows ≡ inr alerts
      → All (Other id) alerts
  unfolding enrich_rows find enrich
  enrich_rows-Other i [] alerts f e =
      let none_left : [] ≡ alerts = ground arith in subst (All (Other id)) none_left tt
  enrich_rows-Other i (r ∷ rows) alerts f e = elim (Option-cases (q.scan_fails i)) [
    | inr (x, n) ↦ absurd (ground (arith, n))
    | inl n ↦ elim (Sum-cases (enrich_rows d q (suc i) rows)) [
      | inl (x, m) ↦ absurd (ground (arith, n, m))
      | inr (rest, m) ↦
          let (other, fresh) = Fresh-cons id r rows f in
          let g : enrich d (q.now i) r ∷ rest ≡ alerts = ground (arith, n, m) in
          subst (All (Other id)) g (other, enrich_rows-Other (suc i) rows rest fresh m)
    ]
  ]

  -- A snapshot that is read without an error has no alert whose row the query does not return.
  get_active_alerts-Fresh :
      (t : Table) (snapshot : List ActiveAlert)
      → Fresh id (active_rows q.db_now t)
      → get_active_alerts d q t ≡ inr snapshot
      → All (Other id) snapshot
  unfolding get_active_alerts finish_rows
  get_active_alerts-Fresh t snapshot f h = elim (Option-cases q.query_fails) [
    | inr (x, n) ↦ absurd (ground (arith, n))
    | inl n ↦ elim (Sum-cases (enrich_rows d q 0 (active_rows q.db_now t))) [
      | inl (x, m) ↦ absurd (ground (arith, n, m))
      | inr (alerts, m) ↦ elim (Option-cases q.rows_err) [
        | inr (x, k) ↦ absurd (ground (arith, n, m, k))
        | inl k ↦
            let e : collapse_by_event alerts ≡ snapshot = ground (arith, n, m, k) in
            subst (All (Other id)) e (
              collapse_by_event-All (Other id) alerts
                (enrich_rows-Other 0 (active_rows q.db_now t) alerts f m))
      ]
    ]
  ]

-- Once a row is retired, its message is in no snapshot that is read later without an error: not after
-- any batches and purges, whatever fails in them, also where the purges deleted the row and later
-- batches brought the message again. The identifiers of the table's rows differ, the batches agree on
-- the message's expiry time wherever it can be read, and no purge is after the snapshot.
pub get_active_alerts-Gone :
    (d : Decoders) (q : Query) (codec : Codec) (ops : List StoreOp) (id : Bytes) (t : Table)
    (r : Row) (snapshot : List ActiveAlert)
    → IsKeyed t
    → find id t ≡ some r
    → is_live r ≡ false
    → All (Steady codec id r.expires_at q.db_now) ops
    → get_active_alerts d q (apply_ops codec ops t) ≡ inr snapshot
    → ¬ HasId snapshot id
get_active_alerts-Gone d q codec ops id t r snapshot keyed e dead steady h =
    Other-absent id snapshot (
      get_active_alerts-Fresh d q id (apply_ops codec ops t) snapshot
        (apply_ops-Gone codec ops id q.db_now t r keyed e dead steady) h)
