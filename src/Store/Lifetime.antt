-- ===== src/Store/Lifetime.antt =====
-- About the table of internal/store/postgres.go through the life of the fleet: batches that are
-- written (UpsertAlertsBatch) and purges (PurgeExpired), by any node, one after the other.
pub mod Gone
pub mod Snapshots
pub mod Examples
use seestorm_ingest.Base.{ℕ, ◌≤◌, ◌≡◌, List, [], ◌∷◌, All, some}
use seestorm_ingest.Base.Bytes.{Bytes}
use seestorm_ingest.Nws.Alert.{Alert}
use seestorm_ingest.Store.Args.{Codec}
use seestorm_ingest.Store.Table.{Table, purge_expired}
use seestorm_ingest.Store.Batch.{Surroundings, upsert_alerts_batch}

-- A purge is at the clock of the database.
pub data StoreOp : Type 0 where
  write : Surroundings → List Alert → StoreOp
  purge : ℕ → StoreOp

module _ (codec : Codec) where
  abbrev pub apply_op : StoreOp → Table → Table
  apply_op (write w alerts) t = (upsert_alerts_batch codec w alerts t).table
  apply_op (purge at) t = purge_expired at t

  abbrev pub apply_ops : List StoreOp → Table → Table
  apply_ops [] t = t
  apply_ops (op ∷ ops) t = apply_ops ops (apply_op op t)

  -- Whenever the message `id` is in the batch, its expiry time, if it can be read, is `expiry`.
  abbrev pub ExpiresAt : Bytes → ℕ → Alert → Type 0
  ExpiresAt id expiry a =
      a.properties.id ≡ id → (e : ℕ) → codec.parse_time a.properties.expires ≡ some e → e ≡ expiry

  -- The batches say the same of the message, and nothing is purged after `now`.
  abbrev pub Steady : Bytes → ℕ → ℕ → StoreOp → Type 0
  Steady id expiry now (write w alerts) = All (ExpiresAt id expiry) alerts
  Steady id expiry now (purge at) = at ≤ now
