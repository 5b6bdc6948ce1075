-- ===== src/Store/Examples.antt =====
-- The theorems about the store at a concrete batch: a message that supersedes an earlier one.
pub mod Snapshot
use seestorm_ingest.Base.{
  ◌≢◌, ◌+◌, length, ℕ, ◌≡◌, refl, ◌⊎◌, inl, inr, Bool, true, false, Option, none, some, List, [],
  ◌∷◌, All, map, Mem, Perm, arith,
}
use seestorm_ingest.Base.Bytes.{Bytes, lit, bytes_eq, contains}
use seestorm_ingest.Nws.Alert.{Alert, AlertReference, AlertProperties}
use seestorm_ingest.Store.Errors.{Error, other, is_fatal_batch_err}
use seestorm_ingest.Store.Args.{Codec, alert_upsert_args, geom_str, parse_alert_times}
use seestorm_ingest.Store.Table.{
  Row, Table, find, upsert_row, is_live, retire_by_reference, retire_row,
}
use seestorm_ingest.Store.Table.Rows.{IsKeyed}
use seestorm_ingest.Store.Supersede.{
  Groups, retire_referenced, retire_groups, references_by_event_type, group_alerts,
  group_references, append_to_group,
}
use seestorm_ingest.Store.Supersede.Marks.{mark, supersedes, never_fails, retire_referenced-eq-mark}
use seestorm_ingest.Store.Batch.{
  Surroundings, upsert_alert, upsert_alerts_batch, upsert_alerts_batch_tx,
}
use seestorm_ingest.Store.Batch.Content.{writable, latest, Content}
use seestorm_ingest.Store.Batch.Written.{upsert_alerts_batch-Written}
use seestorm_ingest.Store.Batch.Halves.{Persists}
use seestorm_ingest.Store.Batch.Safety.{
  NamedBy, upsert_alerts_batch-Landed, upsert_alerts_batch-Persists,
}

abbrev pub warning : Bytes
warning = lit "Tornado Warning"

abbrev pub message : Bytes → List AlertReference → Alert
message id refs = record {
  id = id;
  type = lit "Feature";
  properties = record {
    id = id;
    event = warning;
    severity = lit "Extreme";
    urgency = [];
    headline = [];
    description = [];
    instruction = [];
    area_desc = lit "Dane, WI";
    sender_name = lit "NWS";
    effective = lit "1";
    expires = lit "9";
    status = [];
    message_type = [];
    category = [];
    response = [];
    parameters = [];
    geocode = record { same = []; ugc = [] };
    references = refs;
  };
  geometry = lit "null";
}

abbrev refers_to : Bytes → AlertReference
refers_to id = record { id = []; identifier = id; sender = []; sent = [] }

abbrev batch : List Alert
batch = message (lit "B") (refers_to (lit "A") ∷ []) ∷ []

abbrev pub codec : Codec
codec = record { parse_time = λ s. some 900; marshal = λ p. inr (lit "{}") }

-- The first statement of the transaction fails, so the batch is written row by row.
abbrev pub surroundings : Surroundings
surroundings = record {
  received_at = 100;
  row_received_at = λ i. 100;
  db_now = 100;
  begin_fails = none;
  exec_fails = λ i. some (other 1);
  close_fails = none;
  retire_fails = λ i. none;
  commit_fails = none;
  commit_landed = false;
  ctx_err = none;
  row_fails = λ i. none;
  pool_retire_fails = λ i. none;
}

abbrev pub row : Bytes → Option ℕ → Row
row id retired_at = record {
  args = record {
    nws_id = id;
    event_type = warning;
    severity = lit "Extreme";
    headline = [];
    description = [];
    instruction = [];
    area_desc = lit "Dane, WI";
    sender_name = lit "NWS";
    geometry = none;
    properties = lit "{}";
    effective_at = 900;
    expires_at = 900;
  };
  retired_at = retired_at;
}

abbrev table : Table
table = row (lit "A") none ∷ []

table-IsKeyed : IsKeyed table
unfolding find
table-IsKeyed = (refl, tt)

found : find (lit "A") table ≡ some (row (lit "A") none)
unfolding find bytes_eq
found = refl

retired :
    find (lit "A") (upsert_alerts_batch codec surroundings batch table).table
    ≡ some (row (lit "A") (some 100))
unfolding upsert_alerts_batch find bytes_eq upsert_row contains retire_referenced
    retire_by_reference is_fatal_batch_err upsert_alert
retired = refl

upsert_alerts_batch-Landed_example :
    (event : Bytes) × NamedBy batch
      (upsert_alerts_batch codec surroundings batch table).table
      event
      (lit "A")
    × ((event ≡ warning)
        ⊎ ((surroundings.commit_fails ≢ none) × (surroundings.commit_landed ≡ true)))
upsert_alerts_batch-Landed_example =
    upsert_alerts_batch-Landed codec surroundings batch table (lit "A") (row (lit "A") none)
      (row (lit "A") (some 100)) table-IsKeyed found refl retired refl

upsert_alerts_batch-Persists_example :
    Persists
      (row (lit "A") none)
      (find (lit "A") (upsert_alerts_batch codec surroundings batch table).table)
upsert_alerts_batch-Persists_example =
    upsert_alerts_batch-Persists codec surroundings batch table (lit "A") (row (lit "A") none)
      table-IsKeyed found

retire_referenced-eq-mark_example :
    (retire_referenced never_fails 100 batch table).table ≡ map (mark 100 (supersedes batch)) table
retire_referenced-eq-mark_example = retire_referenced-eq-mark 100 batch table

abbrev group : Bytes → Bytes × List Bytes
group id = (warning, id ∷ [])

-- Nothing fails.
abbrev pub calm : Surroundings
calm = record surroundings { exec_fails = λ i. none }

ends_well :
    let b = upsert_alerts_batch codec calm batch table in (b.error ≡ none) × (b.degraded ≡ false)
unfolding upsert_alerts_batch retire_referenced references_by_event_type group_alerts
    group_references append_to_group retire_groups alert_upsert_args bytes_eq
ends_well = (refl, refl)

upsert_alerts_batch-Written_example :
    let b = upsert_alerts_batch codec calm batch table in
    let plan = writable codec 100 batch in
    ((id : Bytes) → Content (latest id plan) (find id table) (find id b.table))
    × (b.count ≡ length plan)
    × (b.count + b.skipped ≡ length batch)
upsert_alerts_batch-Written_example =
    upsert_alerts_batch-Written codec calm batch table ends_well.0 ends_well.1
