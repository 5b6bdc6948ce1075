-- ===== src/Store/Schema/Examples.antt =====
-- The migration on a new database, on one of an earlier release, and a second time.
use seestorm_ingest.Base.{if◌then◌else◌, ◌≡◌, refl, Option, none, some, [], ◌∷◌, All, true}
use seestorm_ingest.Base.Bytes.{lit, bytes_eq, contains}
use seestorm_ingest.Base.Maps.{put}
use seestorm_ingest.Store.Schema.{
  Schema, table, run_ddl, migrate_sql, weather_events, storm_reports, weather_events_columns,
  storm_reports_columns,
}
use seestorm_ingest.Store.Schema.Growth.{Extends, HasColumn, IsThere}
use seestorm_ingest.Store.Schema.Served.{
  migrate_sql-Settled, migrate_sql-Served, HasColumns, IsUniqueColumn, IsUniqueKey, alert_columns,
  report_columns, relation_names,
}

abbrev pub empty : Schema
empty = record { extensions = []; relations = λ n. none }

-- Before retired_at
abbrev released : Schema
released = record {
  extensions = lit "postgis" ∷ [];
  relations = λ n.
      if bytes_eq n weather_events
      then some (table weather_events_columns [])
      else if bytes_eq n storm_reports
      then some (table storm_reports_columns [])
      else none;
}

abbrev or_empty : Option Schema → Schema
or_empty none = empty
or_empty (some s) = s

-- The database after the migration
abbrev pub migrated : Schema
migrated = or_empty (run_ddl migrate_sql empty)

abbrev upgraded : Schema
upgraded = or_empty (run_ddl migrate_sql released)

pub migrates_empty : run_ddl migrate_sql empty ≡ some migrated
unfolding run_ddl bytes_eq contains put
migrates_empty = refl

migrates_released : run_ddl migrate_sql released ≡ some upgraded
unfolding run_ddl bytes_eq contains put
migrates_released = refl

-- A foreign table of that name without the columns
abbrev foreign : Schema
foreign = record {
  extensions = [];
  relations = λ n. if bytes_eq n weather_events then some (table [] []) else none;
}

fails_on_foreign : run_ddl migrate_sql foreign ≡ none
unfolding run_ddl bytes_eq contains put
fails_on_foreign = refl

migrate_sql-Settled_example :
    Extends released upgraded
    × (contains upgraded.extensions (lit "postgis") ≡ true)
    × All (λ n. IsThere (upgraded.relations n)) relation_names
    × HasColumn (lit "retired_at") (upgraded.relations (lit "weather_events"))
    × (run_ddl migrate_sql upgraded ≡ some upgraded)
migrate_sql-Settled_example = migrate_sql-Settled released upgraded migrates_released

migrate_sql-Served_example :
    let alerts = migrated.relations (lit "weather_events") in
    let reports = migrated.relations (lit "storm_reports") in
    HasColumns alert_columns alerts
    × HasColumn (lit "retired_at") alerts
    × IsUniqueColumn (lit "nws_id") alerts
    × HasColumns report_columns reports
    × IsUniqueKey (lit "report_type" ∷ lit "location" ∷ lit "reported_at" ∷ []) reports
migrate_sql-Served_example = migrate_sql-Served empty migrated refl refl migrates_empty
