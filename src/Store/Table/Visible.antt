-- ===== src/Store/Table/Visible.antt =====
-- About activeAlertsSQL and purgeExpiredSQL of internal/store/queries.go.
use seestorm_ingest.Base.{ℕ, ◌≤◌, ◌≡◌, refl, ap, [], ◌∷◌, arith, keep_if}
use seestorm_ingest.Store.Table.{Table, is_active, active_rows, order_by_effective, purge_expired}

keep_active-purge :
    (past now : ℕ) (t : Table)
    → past ≤ now
    → keep_if (is_active now) (purge_expired past t) ≡ keep_if (is_active now) t
unfolding purge_expired
keep_active-purge past now [] h = refl
keep_active-purge past now (r ∷ t) h = ground (arith, keep_active-purge past now t h)

-- Purging what has expired by then never changes what a later snapshot reads.
active_rows-purge_expired :
    (past now : ℕ) (t : Table)
    → past ≤ now
    → active_rows now (purge_expired past t) ≡ active_rows now t
unfolding active_rows
active_rows-purge_expired past now t h = ap order_by_effective (keep_active-purge past now t h)
