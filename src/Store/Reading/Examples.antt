-- ===== src/Store/Reading/Examples.antt =====
-- The theorem about GetActiveAlerts at a table of three rows: a warning, the message that continues
-- it, and a statement that carries no VTEC.
use seestorm_ingest.Base.{ℕ, ◌≡◌, refl, true, none, some, List, [], ◌∷◌, inr, All, if◌then◌else◌}
use seestorm_ingest.Base.Bytes.{Bytes, lit, bytes_eq, bytes_lt}
use seestorm_ingest.Base.Int.{pos}
use seestorm_ingest.Strings.{trim_space, cut_prefix}
use seestorm_ingest.Regexp.{find_submatch, find_from, match_here, run, stop}
use seestorm_ingest.Nws.Vtec.{parse_vtec, vtec_from, event_id}
use seestorm_ingest.Store.Active.{ActiveAlert}
use seestorm_ingest.Store.Table.{
  Row, Table, is_active, active_rows, order_by_effective, insert_desc,
}
use seestorm_ingest.Store.Collapse.{
  collapse_by_event, collapse_from, collapse_step, challenge, later_issuance, winner, key_eq,
}
use seestorm_ingest.Store.Collapse.Survivors.{OnePerKey}
use seestorm_ingest.Store.Reading.{
  Decoders, Query, enrich, enrich_rows, finish_rows, get_active_alerts,
}
use seestorm_ingest.Store.Reading.Complete.{Kept, get_active_alerts-Kept}

abbrev row : Bytes → Bytes → ℕ → Row
row id properties effective_at = record {
  args = record {
    nws_id = id;
    event_type = lit "Tornado Warning";
    severity = lit "Extreme";
    headline = [];
    description = [];
    instruction = [];
    area_desc = lit "Dane, WI";
    sender_name = [];
    geometry = none;
    properties = properties;
    effective_at = effective_at;
    expires_at = 900;
  };
  retired_at = none;
}

-- The properties are the text of the VTEC value.
abbrev pub decoders : Decoders
decoders = record {
  as_geojson = λ s. s;
  unmarshal = λ s. record {
    parameters = λ k. if bytes_eq k (lit "VTEC") then some (s ∷ []) else none;
    same = [];
  };
  parse_float = λ s. none;
  parse_time = λ s. none;
}

abbrev pub calm : Query
calm = record {
  db_now = 100;
  now = λ i. pos i;
  query_fails = none;
  scan_fails = λ i. none;
  rows_err = none;
}

abbrev vtec : Bytes
vtec = lit "/O.CON.KMKX.TO.W.0042.000000T0000Z-260531T1800Z/"

abbrev table : Table
table = row (lit "A") vtec 10 ∷ row (lit "B") vtec 20 ∷ row (lit "C") [] 5 ∷ []

abbrev snapshot : List ActiveAlert
snapshot =
    enrich decoders (pos 0) (row (lit "B") vtec 20)
    ∷ enrich decoders (pos 2) (row (lit "C") [] 5)
    ∷ []

get_active_alerts_table : get_active_alerts decoders calm table ≡ inr snapshot
unfolding get_active_alerts enrich_rows finish_rows enrich active_rows order_by_effective
    insert_desc collapse_by_event collapse_from collapse_step challenge later_issuance winner key_eq
    bytes_eq bytes_lt parse_vtec vtec_from event_id trim_space find_submatch find_from match_here
    run stop cut_prefix
get_active_alerts_table = refl

get_active_alerts-Kept_example :
    OnePerKey snapshot
    × All (λ r. is_active 100 r ≡ true → Kept snapshot (enrich decoders (pos 7) r)) table
get_active_alerts-Kept_example =
    get_active_alerts-Kept decoders calm (pos 7) table snapshot get_active_alerts_table
