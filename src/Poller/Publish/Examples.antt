-- ===== src/Poller/Publish/Examples.antt =====
-- The theorem about the publish phase at one alert, where each key's first put fails.
use seestorm_ingest.Base.{ℕ, zero, suc, ◌≡◌, refl, true, none, some, List, [], ◌∷◌, inr}
use seestorm_ingest.Base.Bytes.{Bytes, lit, contains}
use seestorm_ingest.Base.Maps.{Map}
use seestorm_ingest.Base.Int.{pos}
use seestorm_ingest.Store.Errors.{other}
use seestorm_ingest.Store.Active.{ActiveAlert}
use seestorm_ingest.Health.{record_success, reset_publish_failures, feed_publish}
use seestorm_ingest.Publisher.{
  Snapshot, StateSnapshot, new_snapshot, new_state_snapshot, snapshot_key, per_state_key,
}
use seestorm_ingest.Publisher.Objects.{R2}
use seestorm_ingest.Poller.Publish.{PublishPhase, filter_alerts_by_state, publish_snapshot}
use seestorm_ingest.Poller.Publish.Puts.{never}
use seestorm_ingest.Poller.Publish.Files.{Recovers, dest, publish_snapshot-files}

abbrev text : Snapshot → Bytes
text m = m.alert_count ∷ []

abbrev text_of : StateSnapshot → Bytes
text_of s = s.alert_count ∷ []

abbrev r2 : ℕ → R2
r2 k = record {
  marshal = λ m. inr (text m);
  marshal_state = λ s. inr (text_of s);
  history_stamp = λ at. at ∷ [];
  put_fault =
      λ key. elim k [ zero ↦ some (record { error = other 1; applied = true }) | suc _ ↦ none ];
}

r2-Recovers : Recovers r2 text text_of
r2-Recovers = record { marshal = λ k m. refl; marshal_state = λ k s. refl; second = λ key. refl }

abbrev alert : ActiveAlert
alert = record {
  nws_id = lit "A";
  event_type = lit "Tornado Warning";
  severity = lit "Extreme";
  headline = [];
  description = [];
  area_desc = lit "Dane, WI";
  states = lit "WI" ∷ [];
  geometry = none;
  effective_at = 1;
  expires_at = 900;
  storm_motion = none;
  warning_tags = none;
  tornado = none;
  vtec_event_id = [];
  vtec_action = [];
  event_id = [];
}

abbrev areas : List Bytes
areas = lit "WI" ∷ lit "IL" ∷ []

abbrev phase : PublishPhase (Map Bytes)
phase = record {
  now = 7;
  recorded_at = pos 9;
  dest = dest r2 text text_of r2-Recovers;
  parent_merged = never;
  parent_state = λ s. never;
  order = areas;
}

publish_snapshot-files_example :
    let r = publish_snapshot phase areas (inr (alert ∷ [])) (λ k. none) none in
    (r.merged_ok ≡ true)
    × (r.stored snapshot_key ≡ some (text (new_snapshot 7 areas (alert ∷ []))))
    × ((s : Bytes)
        → contains areas s ≡ true
        → r.stored (per_state_key s)
          ≡ some (text_of (new_state_snapshot s (filter_alerts_by_state (alert ∷ []) s) 7)))
    × (r.health ≡ record_success (reset_publish_failures none) feed_publish (pos 9))
publish_snapshot-files_example =
    publish_snapshot-files r2 text text_of r2-Recovers 7 (pos 9) areas areas (alert ∷ [])
      (λ k. none) none (λ s. refl)
