-- ===== src/Store/Examples/Snapshot.antt =====
-- The theorem about the collapse at concrete rows: a warning that was issued twice, and an alert
-- without a VTEC event.
use seestorm_ingest.Base.{ℕ, ◌≡◌, none, List, [], ◌∷◌}
use seestorm_ingest.Base.Bytes.{Bytes, lit}
use seestorm_ingest.Store.Active.{ActiveAlert}
use seestorm_ingest.Store.Collapse.{collapse_by_event}
use seestorm_ingest.Store.Collapse.Reference.{collapse_by_event-eq-absorb_all, absorb_all}

abbrev issued : Bytes → ℕ → Bytes → ActiveAlert
issued id effective_at event_id = record {
  nws_id = id;
  event_type = lit "Tornado Warning";
  severity = lit "Extreme";
  headline = [];
  description = [];
  area_desc = lit "Dane, WI";
  states = lit "WI" ∷ [];
  geometry = none;
  effective_at = effective_at;
  expires_at = 900;
  storm_motion = none;
  warning_tags = none;
  tornado = none;
  vtec_event_id = event_id;
  vtec_action = [];
  event_id = event_id;
}

abbrev alerts : List ActiveAlert
alerts =
    issued (lit "A") 10 (lit "KMKX.TO.W.0042")
    ∷ issued (lit "B") 20 (lit "KMKX.TO.W.0042")
    ∷ issued (lit "C") 5 []
    ∷ []

collapse_by_event-eq-absorb_all_example : collapse_by_event alerts ≡ absorb_all [] alerts
collapse_by_event-eq-absorb_all_example = collapse_by_event-eq-absorb_all alerts
