-- ===== src/Publisher.antt =====
-- internal/publisher/publisher.go: the snapshots, the interface Publisher and the fan-out Multi. Times
-- are nanoseconds from the Unix epoch. `W` is what the destinations hold.
pub mod Fanout
pub mod Objects
pub mod Examples
use seestorm_ingest.Base.{ℕ, ◌/◌, Option, none, some, List, [], ◌∷◌, ◌++◌, length}
use seestorm_ingest.Base.Bytes.{Bytes, lit}
use seestorm_ingest.Store.Active.{ActiveAlert}
use seestorm_ingest.Store.Errors.{Error}

unfoldable pub snapshot_key : Bytes
snapshot_key = lit "active-events.json"

abbrev pub per_state_key_prefix : Bytes
per_state_key_prefix = lit "active-events/"

unfoldable pub per_state_key : Bytes → Bytes
per_state_key state = per_state_key_prefix ++ (state ++ lit ".json")

abbrev pub snapshot_schema_version : ℕ
snapshot_schema_version = 2

pub record Snapshot : Type 0 where
  pub schema_version : ℕ
  pub generated_at : ℕ
  pub generated_at_ms : ℕ
  pub areas : List Bytes
  pub alert_count : ℕ
  pub alerts : List ActiveAlert

pub record StateSnapshot : Type 0 where
  pub schema_version : ℕ
  pub generated_at : ℕ
  pub generated_at_ms : ℕ
  pub area_state : Bytes
  pub alert_count : ℕ
  pub alerts : List ActiveAlert

-- time.Time.UnixMilli, from 1970 on.
abbrev unix_milli : ℕ → ℕ
unix_milli t = t / 1_000_000

unfoldable pub new_snapshot : ℕ → List Bytes → List ActiveAlert → Snapshot
new_snapshot now areas alerts = record {
  schema_version = snapshot_schema_version;
  generated_at = now;
  generated_at_ms = unix_milli now;
  areas = areas;
  alert_count = length alerts;
  alerts = alerts;
}

unfoldable pub new_state_snapshot : Bytes → List ActiveAlert → ℕ → StateSnapshot
new_state_snapshot state alerts at = record {
  schema_version = snapshot_schema_version;
  generated_at = at;
  generated_at_ms = unix_milli at;
  area_state = state;
  alert_count = length alerts;
  alerts = alerts;
}

pub record Publisher (W : Type 0) : Type 0 where
  pub publish : Snapshot → W → W × Option Error
  pub publish_state : StateSnapshot → W → W × Option Error

-- if firstErr == nil { firstErr = err }
abbrev pub keep_first : Option Error → Option Error → Option Error
keep_first none e = e
keep_first (some f) e = some f

module _ {W : Type 0} where
  -- The loop of both methods of Multi; `call` is the method.
  unfoldable pub forward :
      (Publisher W → W → W × Option Error)
      → List (Publisher W)
      → W
      → Option Error
      → W × Option Error
  forward call [] w first_err = (w, first_err)
  forward call (p ∷ ps) w first_err =
      let r = call p w in forward call ps r.0 (keep_first first_err r.1)

  -- NewMulti: itself a Publisher.
  unfoldable pub multi : List (Publisher W) → Publisher W
  unfolding forward
  multi publishers = record {
    publish = λ snapshot w. forward (λ p. p.publish snapshot) publishers w none;
    publish_state = λ snapshot w. forward (λ p. p.publish_state snapshot) publishers w none;
  }
