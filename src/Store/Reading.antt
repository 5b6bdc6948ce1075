-- ===== src/Store/Reading.antt =====
-- internal/store/postgres.go: GetActiveAlerts. A row that does not parse somewhere is published without
-- that part: the parsers' errors are only logged.
pub mod Complete
pub mod Examples
use seestorm_ingest.Base.{ℕ, suc, Option, none, some, List, [], ◌∷◌, ◌⊎◌, inl, inr}
use seestorm_ingest.Base.Bytes.{Bytes}
use seestorm_ingest.Base.Int.{ℤ}
use seestorm_ingest.Base.Maps.{Map}
use seestorm_ingest.Float.{Float64}
use seestorm_ingest.Nws.Products.{Vtec, StormMotion, TornadoDetection}
use seestorm_ingest.Nws.Vtec.{VtecResult, absent, bad_vtec, parsed, parse_vtec, event_id}
use seestorm_ingest.Nws.Tags.{parse_warning_tags}
use seestorm_ingest.Nws.Detection.{
  DetectionResult, no_detection, bad_detection, detected, detect_tornado,
}
use seestorm_ingest.Nws.Motion.{MotionResult, still, bad_motion, moves, parse_event_motion}
use seestorm_ingest.Store.Errors.{Error}
use seestorm_ingest.Store.Active.{ActiveAlert}
use seestorm_ingest.Store.States.{derive_states}
use seestorm_ingest.Store.Table.{Row, Table, active_rows}
use seestorm_ingest.Store.Collapse.{collapse_by_event}

-- alertPropsParams
pub record AlertPropsParams : Type 0 where
  pub parameters : Map (List Bytes)
  pub same : List Bytes

-- What is outside the repository: ST_AsGeoJSON of what ST_GeomFromGeoJSON read, what json.Unmarshal
-- leaves in an empty value, with an error or without, strconv.ParseFloat, and time.Parse.
pub record Decoders : Type 0 where
  pub as_geojson : Bytes → Bytes
  pub unmarshal : Bytes → AlertPropsParams
  pub parse_float : Bytes → Option Float64
  pub parse_time : Bytes → Option ℤ

-- What surrounds one call: the clocks of the database and, at each row, of the process; the failures.
pub record Query : Type 0 where
  pub db_now : ℕ
  pub now : ℕ → ℤ
  pub query_fails : Option Error
  pub scan_fails : ℕ → Option Error
  pub rows_err : Option Error

abbrev no_props : AlertPropsParams
no_props = record { parameters = λ k. none; same = [] }

abbrev props_of : Decoders → Bytes → AlertPropsParams
props_of d [] = no_props
props_of d (c ∷ s) = d.unmarshal (c ∷ s)

abbrev geometry_of : Decoders → Option Bytes → Option Bytes
geometry_of d none = none
geometry_of d (some g) = some (d.as_geojson g)

abbrev motion_of : MotionResult → Option StormMotion
motion_of (moves m) = some m
motion_of _ = none

abbrev tornado_of : DetectionResult → Option TornadoDetection
tornado_of (detected d) = some d
tornado_of _ = none

abbrev event_of : VtecResult → Bytes
event_of (parsed v) = event_id v
event_of _ = []

abbrev action_of : VtecResult → Bytes
action_of (parsed v) = v.action
action_of _ = []

-- One round of the loop over the rows, after the scan.
unfoldable pub enrich : Decoders → ℤ → Row → ActiveAlert
unfolding event_id
enrich d now r =
    let props = props_of d r.properties in
    let vtec = parse_vtec props.parameters in
    record {
      nws_id = r.nws_id;
      event_type = r.event_type;
      severity = r.severity;
      headline = r.headline;
      description = r.description;
      area_desc = r.area_desc;
      states = (derive_states props.same r.area_desc).0;
      geometry = geometry_of d r.geometry;
      effective_at = r.effective_at;
      expires_at = r.expires_at;
      storm_motion = motion_of (parse_event_motion d.parse_float d.parse_time now props.parameters);
      warning_tags = parse_warning_tags r.description;
      tornado = tornado_of (detect_tornado props.parameters r.description);
      vtec_event_id = event_of vtec;
      vtec_action = action_of vtec;
      event_id = event_of vtec;
    }

abbrev pub cons_alert : ActiveAlert → Error ⊎ List ActiveAlert → Error ⊎ List ActiveAlert
cons_alert a (inl e) = inl e
cons_alert a (inr rest) = inr (a ∷ rest)

-- The loop, from row `i` on.
unfoldable pub enrich_rows : Decoders → Query → ℕ → List Row → Error ⊎ List ActiveAlert
unfolding enrich
enrich_rows d q i [] = inr []
enrich_rows d q i (r ∷ rows) = elim (q.scan_fails i) [
  | some e ↦ inl e
  | none ↦ cons_alert (enrich d (q.now i) r) (enrich_rows d q (suc i) rows)
]

-- After the loop
unfoldable pub finish_rows : Query → Error ⊎ List ActiveAlert → Error ⊎ List ActiveAlert
finish_rows q (inl e) = inl e
finish_rows q (inr alerts) = elim q.rows_err [
  | some e ↦ inl e
  | none ↦ inr (collapse_by_event alerts)
]

unfoldable pub get_active_alerts : Decoders → Query → Table → Error ⊎ List ActiveAlert
unfolding enrich_rows finish_rows
get_active_alerts d q t = elim q.query_fails [
  | some e ↦ inl e
  | none ↦ finish_rows q (enrich_rows d q 0 (active_rows q.db_now t))
]
