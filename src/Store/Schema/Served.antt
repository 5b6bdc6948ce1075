-- ===== src/Store/Schema/Served.antt =====
-- About migrateSQL of internal/store/queries.go: what the statements of the store need is there once it
-- has been run.
use seestorm_ingest.Base.{
  ◌≡◌, Option, none, some, List, [], ◌∷◌, inl, inr, true, All, refl, if◌then◌else◌,
}
use seestorm_ingest.Base.Bytes.{Bytes, bytes_eq, lit, contains}
use seestorm_ingest.Store.Schema.{
  Column, Relation, table, index, Schema, run_ddl, has_columns, migrate_sql, weather_events,
  storm_reports, weather_events_columns, storm_reports_columns, has_column,
}
use seestorm_ingest.Store.Schema.Growth.{Extends, HasColumn, IsThere}
use seestorm_ingest.Store.Schema.Settled.{run_ddl-Made, run_ddl-same}
use seestorm_ingest.Store.Schema.Created.{Creates, Created, run_ddl-Created}

-- The table has these columns.
abbrev pub HasColumns : List Bytes → Option Relation → Type 0
HasColumns names none = ⊥
HasColumns names (some (index on cs how)) = ⊥
HasColumns names (some (table cs u)) = has_columns cs names ≡ true

-- What is said of a column after its type.
abbrev constraint_of : List Column → Bytes → Bytes
constraint_of [] name = []
constraint_of (c ∷ cs) name = if bytes_eq c.name name then c.constraint else constraint_of cs name

-- ON CONFLICT on one column, and on several.
abbrev pub IsUniqueColumn : Bytes → Option Relation → Type 0
IsUniqueColumn name none = ⊥
IsUniqueColumn name (some (index on cs how)) = ⊥
IsUniqueColumn name (some (table cs u)) = constraint_of cs name ≡ lit "UNIQUE NOT NULL"

abbrev pub IsUniqueKey : List Bytes → Option Relation → Type 0
IsUniqueKey names none = ⊥
IsUniqueKey names (some (index on cs how)) = ⊥
IsUniqueKey names (some (table cs u)) = u ≡ names

-- The columns that upsertAlertSQL and activeAlertsSQL name, without retired_at.
abbrev pub alert_columns : List Bytes
alert_columns =
    lit "nws_id"
    ∷ lit "event_type"
    ∷ lit "severity"
    ∷ lit "headline"
    ∷ lit "description"
    ∷ lit "instruction"
    ∷ lit "area_desc"
    ∷ lit "sender_name"
    ∷ lit "geometry"
    ∷ lit "properties"
    ∷ lit "effective_at"
    ∷ lit "expires_at"
    ∷ lit "updated_at"
    ∷ []

-- The columns that upsertStormReportSQL names.
abbrev pub report_columns : List Bytes
report_columns =
    lit "report_type"
    ∷ lit "magnitude"
    ∷ lit "location"
    ∷ lit "county"
    ∷ lit "state"
    ∷ lit "comments"
    ∷ lit "geometry"
    ∷ lit "reported_at"
    ∷ []

abbrev pub report_key : List Bytes
report_key = lit "report_type" ∷ lit "location" ∷ lit "reported_at" ∷ []

-- The two tables, and the seven indexes.
abbrev pub relation_names : List Bytes
relation_names =
    lit "weather_events"
    ∷ lit "storm_reports"
    ∷ lit "idx_events_geometry"
    ∷ lit "idx_events_type_time"
    ∷ lit "idx_events_nws_id"
    ∷ lit "idx_events_expires"
    ∷ lit "idx_events_active"
    ∷ lit "idx_reports_geometry"
    ∷ lit "idx_reports_type_time"
    ∷ []

-- Wherever the migration starts from, if it succeeds, then: no extension, relation or column is lost;
-- PostGIS, both tables and all seven indexes are there, and weather_events has the column retired_at,
-- also where the table is older than it; and a second run succeeds and changes nothing.
pub migrate_sql-Settled :
    (s t : Schema)
    → run_ddl migrate_sql s ≡ some t
    → Extends s t
      × (contains t.extensions (lit "postgis") ≡ true)
      × All (λ n. IsThere (t.relations n)) relation_names
      × HasColumn (lit "retired_at") (t.relations (lit "weather_events"))
      × (run_ddl migrate_sql t ≡ some t)
migrate_sql-Settled s t h =
    let (x, held) = run_ddl-Made migrate_sql s t h in
    (
      x,
      held.0,
      (
        held.1.0,
        (
          held.1.1.1.1.1.1.1.1.0,
          (
            held.1.1.0.1,
            (
              held.1.1.1.0.1,
              (
                held.1.1.1.1.0.1,
                (
                  held.1.1.1.1.1.0.1,
                  (
                    held.1.1.1.1.1.1.1.0.1,
                    (held.1.1.1.1.1.1.1.1.1.0.1, (held.1.1.1.1.1.1.1.1.1.1.0.1, tt)),
                  ),
                ),
              ),
            ),
          ),
        ),
      ),
      held.1.1.1.1.1.1.0,
      run_ddl-same migrate_sql t held,
    )

alerts-created : Creates weather_events weather_events_columns [] migrate_sql
unfolding bytes_eq
alerts-created = inr (refl, inl refl)

reports-created : Creates storm_reports storm_reports_columns report_key migrate_sql
unfolding bytes_eq
reports-created = inr (
  refl,
  inr (refl, inr (refl, inr (refl, inr (refl, inr (refl, inr (refl, inr (refl, inl refl))))))),
)

alerts-Served :
    (o : Option Relation)
    → Created weather_events_columns [] o
    → HasColumns alert_columns o × IsUniqueColumn (lit "nws_id") o
unfolding has_columns has_column bytes_eq
alerts-Served o c = rw (c.is_table, c.longer.eq) (refl, refl)

reports-Served :
    (o : Option Relation)
    → Created storm_reports_columns report_key o
    → HasColumns report_columns o × IsUniqueKey report_key o
unfolding has_columns has_column bytes_eq
reports-Served o c = rw (c.is_table, c.longer.eq) (refl, refl)

-- On a database without the two tables, the migration, if it succeeds, makes what the store's
-- statements need: weather_events with every column that they name and nws_id UNIQUE, on which
-- upsertAlertSQL has its ON CONFLICT; storm_reports with every column that upsertStormReportSQL names
-- and the key of its ON CONFLICT: the type, the place and the time.
pub migrate_sql-Served :
    (s t : Schema)
    → s.relations (lit "weather_events") ≡ none
    → s.relations (lit "storm_reports") ≡ none
    → run_ddl migrate_sql s ≡ some t
    → let alerts = t.relations (lit "weather_events") in
      let reports = t.relations (lit "storm_reports") in
      HasColumns alert_columns alerts
      × HasColumn (lit "retired_at") alerts
      × IsUniqueColumn (lit "nws_id") alerts
      × HasColumns report_columns reports
      × IsUniqueKey (lit "report_type" ∷ lit "location" ∷ lit "reported_at" ∷ []) reports
migrate_sql-Served s t a r h =
    let (columns, unique) =
      alerts-Served _ (run_ddl-Created weather_events _ _ migrate_sql s t alerts-created a h) in
    let (columns', unique') =
      reports-Served _ (run_ddl-Created storm_reports _ _ migrate_sql s t reports-created r h) in
    (columns, (migrate_sql-Settled s t h).3, unique, columns', unique')
