-- ===== src/Store/Lifetime/Examples.antt =====
-- The theorem about the snapshots at a message that was retired, purged after its expiry time, and
-- delivered again by a server that lags behind.
use seestorm_ingest.Base.{◌≡◌, refl, none, some, List, [], ◌∷◌, inr, All, arith}
use seestorm_ingest.Base.Bytes.{lit, bytes_eq}
use seestorm_ingest.Base.Int.{pos}
use seestorm_ingest.Nws.Alert.{Alert}
use seestorm_ingest.Store.Table.{
  Row, Table, find, upsert_row, purge_expired, active_rows, order_by_effective, on_conflict,
}
use seestorm_ingest.Store.Table.Rows.{IsKeyed}
use seestorm_ingest.Store.Reading.{Query, get_active_alerts, enrich_rows, finish_rows}
use seestorm_ingest.Store.Reading.Complete.{HasId}
use seestorm_ingest.Store.Batch.{upsert_alerts_batch}
use seestorm_ingest.Store.Args.{alert_upsert_args, geom_str, parse_alert_times}
use seestorm_ingest.Store.Supersede.{
  retire_referenced, references_by_event_type, group_alerts, group_references, retire_groups,
}
use seestorm_ingest.Store.Collapse.{collapse_by_event, collapse_from}
use seestorm_ingest.Store.Lifetime.{StoreOp, write, purge, apply_ops, Steady, ExpiresAt}
use seestorm_ingest.Store.Lifetime.Snapshots.{get_active_alerts-Gone}
use seestorm_ingest.Store.Examples.{message, codec, calm, row}
use seestorm_ingest.Store.Reading.Examples.{decoders}

abbrev retired_row : Row
retired_row = row (lit "A") (some 100)

abbrev before : Table
before = retired_row ∷ []

abbrev again : List Alert
again = message (lit "A") [] ∷ []

abbrev ops : List StoreOp
ops = write calm again ∷ purge 950 ∷ write calm again ∷ []

abbrev later : Query
later = record {
  db_now = 1000;
  now = λ i. pos 0;
  query_fails = none;
  scan_fails = λ i. none;
  rows_err = none;
}

-- The first message leaves the row retired; the second, after the purge, makes a row that is live.
retired_stays : apply_ops codec (write calm again ∷ []) before ≡ before
unfolding upsert_alerts_batch retire_referenced references_by_event_type group_alerts
    group_references retire_groups alert_upsert_args bytes_eq upsert_row purge_expired on_conflict
    geom_str parse_alert_times
retired_stays = refl

returns : apply_ops codec ops before ≡ row (lit "A") none ∷ []
unfolding upsert_alerts_batch retire_referenced references_by_event_type group_alerts
    group_references retire_groups alert_upsert_args bytes_eq upsert_row purge_expired on_conflict
    geom_str parse_alert_times
returns = refl

before-IsKeyed : IsKeyed before
unfolding find
before-IsKeyed = (refl, tt)

found : find (lit "A") before ≡ some retired_row
unfolding find bytes_eq
found = refl

again-ExpiresAt : All (ExpiresAt codec (lit "A") 900) again
again-ExpiresAt = ((λ e x h. ground arith), tt)

ops-Steady : All (Steady codec (lit "A") 900 1000) ops
ops-Steady = (again-ExpiresAt, (omega arith, (again-ExpiresAt, tt)))

nothing_left : get_active_alerts decoders later (apply_ops codec ops before) ≡ inr []
unfolding get_active_alerts enrich_rows finish_rows active_rows order_by_effective collapse_by_event
    collapse_from upsert_alerts_batch retire_referenced references_by_event_type group_alerts
    group_references retire_groups alert_upsert_args bytes_eq upsert_row purge_expired on_conflict
    geom_str parse_alert_times
nothing_left = refl

get_active_alerts-Gone_example : ¬ HasId [] (lit "A")
get_active_alerts-Gone_example =
    get_active_alerts-Gone decoders later codec ops (lit "A") before retired_row [] before-IsKeyed
      found refl ops-Steady nothing_left
