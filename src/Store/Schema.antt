-- ===== src/Store/Schema.antt =====
-- internal/store/queries.go: migrateSQL, the schema that every start of the service runs, as a list of
-- statements on the schema of a database. Each statement is an IF NOT EXISTS and passes over what is
-- there by name, whatever it looks like; it fails as PostgreSQL makes it fail where it needs a table,
-- a column or a type that is not there. The indexes and sequences that PostgreSQL makes for its own
-- constraints are left out.
pub mod Growth
pub mod Settled
pub mod Created
pub mod Served
pub mod Examples
use seestorm_ingest.Base.{
  Bool, true, false, ◌||◌, ◌&&◌, Option, none, some, List, [], ◌∷◌, ◌++◌, if◌then◌else◌,
}
use seestorm_ingest.Base.Bytes.{Bytes, lit, bytes_eq, contains}
use seestorm_ingest.Base.Maps.{Map, put}

pub data ColumnType : Type 0 where
  bigint text jsonb timestamptz : ColumnType
  geometry : Bytes → ColumnType

pub record Column : Type 0 where
  pub name : Bytes
  pub type : ColumnType
  -- What follows the type: NOT NULL, a default, a key.
  pub constraint : Bytes

-- Tables and indexes share their names. A table has its columns and its UNIQUE constraint; an index its
-- table, its columns, and how it is made.
pub data Relation : Type 0 where
  table : List Column → List Bytes → Relation
  index : Bytes → List Bytes → Bytes → Relation

pub record Schema : Type 0 where
  pub extensions : List Bytes
  pub relations : Map Relation

pub data Statement : Type 0 where
  create_extension : Bytes → Statement
  create_table : Bytes → List Column → List Bytes → Statement
  create_index : Bytes → Bytes → List Bytes → Bytes → Statement
  add_column : Bytes → Column → Statement

unfoldable pub has_column : List Column → Bytes → Bool
has_column [] name = false
has_column (c ∷ cs) name = bytes_eq c.name name || has_column cs name

unfoldable pub has_columns : List Column → List Bytes → Bool
unfolding has_column
has_columns cs [] = true
has_columns cs (name ∷ names) = has_column cs name && has_columns cs names

-- The type GEOMETRY is PostGIS's.
unfoldable pub is_known : List Bytes → ColumnType → Bool
is_known extensions (geometry kind) = contains extensions (lit "postgis")
is_known extensions _ = true

unfoldable pub are_known : List Bytes → List Column → Bool
unfolding is_known
are_known extensions [] = true
are_known extensions (c ∷ cs) = is_known extensions c.type && are_known extensions cs

abbrev pub define : Bytes → Relation → Schema → Schema
define name r s = record s { relations = put name r s.relations }

-- From what the name of the new table stands for on
unfoldable pub new_table :
    Option Relation → Bytes → List Column → List Bytes → Schema → Option Schema
unfolding are_known
new_table (some r) name columns unique s = some s
new_table none name columns unique s =
    if are_known s.extensions columns then some (define name (table columns unique) s) else none

-- From the table and what the name of the new index stands for on
unfoldable pub new_index :
    Option Relation → Option Relation → Bytes → Bytes → List Bytes → Bytes → Schema → Option Schema
unfolding has_columns
new_index none _ name on columns how s = none
new_index (some (index _ _ _)) _ name on columns how s = none
new_index (some (table cs u)) (some r) name on columns how s = some s
new_index (some (table cs u)) none name on columns how s =
    if has_columns cs columns then some (define name (index on columns how) s) else none

-- From the table on
unfoldable pub new_column : Option Relation → Bytes → Column → Schema → Option Schema
unfolding has_column is_known
new_column none on c s = none
new_column (some (index _ _ _)) on c s = none
new_column (some (table cs u)) on c s =
    if has_column cs c.name
    then some s
    else if is_known s.extensions c.type
    then some (define on (table (cs ++ c ∷ []) u) s)
    else none

-- One statement; `none` is an error.
unfoldable pub apply : Statement → Schema → Option Schema
unfolding new_table new_index new_column
apply (create_extension name) s =
    if contains s.extensions name
    then some s
    else some (record s { extensions = name ∷ s.extensions })
apply (create_table name columns unique) s = new_table (s.relations name) name columns unique s
apply (create_index name on columns how) s =
    new_index (s.relations on) (s.relations name) name on columns how s
apply (add_column on c) s = new_column (s.relations on) on c s

-- One statement after another, up to the first error
unfoldable pub run_ddl : List Statement → Schema → Option Schema
unfolding apply
run_ddl [] s = some s
run_ddl (c ∷ cs) s = elim (apply c s) [ none ↦ none | some t ↦ run_ddl cs t ]

abbrev col : Bytes → ColumnType → Column
col name type = record { name = name; type = type; constraint = [] }

abbrev col_with : Bytes → ColumnType → Bytes → Column
col_with name type constraint = record { name = name; type = type; constraint = constraint }

abbrev pub weather_events : Bytes
weather_events = lit "weather_events"

abbrev pub storm_reports : Bytes
storm_reports = lit "storm_reports"

abbrev pub weather_events_columns : List Column
weather_events_columns =
    col_with (lit "id") bigint (lit "GENERATED ALWAYS AS IDENTITY PRIMARY KEY")
    ∷ col_with (lit "nws_id") text (lit "UNIQUE NOT NULL")
    ∷ col_with (lit "event_type") text (lit "NOT NULL")
    ∷ col (lit "severity") text
    ∷ col (lit "headline") text
    ∷ col (lit "description") text
    ∷ col (lit "instruction") text
    ∷ col (lit "area_desc") text
    ∷ col (lit "sender_name") text
    ∷ col (lit "geometry") (geometry (lit "Geometry"))
    ∷ col (lit "properties") jsonb
    ∷ col (lit "effective_at") timestamptz
    ∷ col (lit "expires_at") timestamptz
    ∷ col_with (lit "ingested_at") timestamptz (lit "DEFAULT NOW()")
    ∷ col_with (lit "updated_at") timestamptz (lit "DEFAULT NOW()")
    ∷ []

abbrev pub storm_reports_columns : List Column
storm_reports_columns =
    col_with (lit "id") bigint (lit "GENERATED ALWAYS AS IDENTITY PRIMARY KEY")
    ∷ col_with (lit "report_type") text (lit "NOT NULL")
    ∷ col (lit "magnitude") text
    ∷ col (lit "location") text
    ∷ col (lit "county") text
    ∷ col (lit "state") text
    ∷ col (lit "comments") text
    ∷ col (lit "geometry") (geometry (lit "Point"))
    ∷ col_with (lit "reported_at") timestamptz (lit "NOT NULL")
    ∷ col_with (lit "ingested_at") timestamptz (lit "DEFAULT NOW()")
    ∷ []

abbrev pub migrate_sql : List Statement
migrate_sql =
    create_extension (lit "postgis")
    ∷ create_table weather_events weather_events_columns []
    ∷ create_index (lit "idx_events_geometry") weather_events (lit "geometry" ∷ [])
        (lit "USING GIST")
    ∷ create_index (lit "idx_events_type_time") weather_events
        (lit "event_type" ∷ lit "effective_at" ∷ []) (lit "effective_at DESC")
    ∷ create_index (lit "idx_events_nws_id") weather_events (lit "nws_id" ∷ []) []
    ∷ create_index (lit "idx_events_expires") weather_events (lit "expires_at" ∷ [])
        (lit "expires_at DESC")
    ∷ add_column weather_events (col (lit "retired_at") timestamptz)
    ∷ create_index (lit "idx_events_active") weather_events
        (lit "expires_at" ∷ lit "retired_at" ∷ []) (lit "expires_at DESC WHERE retired_at IS NULL")
    ∷ create_table storm_reports storm_reports_columns
        (lit "report_type" ∷ lit "location" ∷ lit "reported_at" ∷ [])
    ∷ create_index (lit "idx_reports_geometry") storm_reports (lit "geometry" ∷ [])
        (lit "USING GIST")
    ∷ create_index (lit "idx_reports_type_time") storm_reports
        (lit "report_type" ∷ lit "reported_at" ∷ []) (lit "reported_at DESC")
    ∷ []
