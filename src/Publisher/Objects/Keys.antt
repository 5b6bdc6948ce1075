-- ===== src/Publisher/Objects/Keys.antt =====
-- About internal/publisher/publisher.go: the keys of the snapshots.
use mathlib.Core.List.{append_cancel_left, append_cancel_right}
use seestorm_ingest.Base.{ℕ, ◌≡◌, ◌≢◌, ap, Option, some, get_elem?, arith}
use seestorm_ingest.Base.Bytes.{Bytes, lit}
use seestorm_ingest.Publisher.{snapshot_key, per_state_key, per_state_key_prefix}

pub per_state_key-snapshot_key : (s : Bytes) → per_state_key s ≢ snapshot_key
unfolding per_state_key snapshot_key
per_state_key-snapshot_key s h =
    let e : ◌≡◌ {A = Option ℕ} (some b'/') (some b'.') = ap (λ k. get_elem? k 13) h in ground arith

pub per_state_key_inj : (s t : Bytes) → per_state_key s ≡ per_state_key t → s ≡ t
unfolding per_state_key
per_state_key_inj s t h =
    append_cancel_right s t (lit ".json") (append_cancel_left per_state_key_prefix _ _ h)
