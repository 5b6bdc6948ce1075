-- ===== src/Startup/Process.antt =====
-- cmd/ingest/main.go: run from the environment to the poller, and main's exit code. The order is the
-- source's: what is missing of the environment, the database, its migration, the R2 publisher, the
-- poller, whose Run returns nil. The health server, which runs beside it, and the signals are left out.
pub mod Started
pub mod Examples
use seestorm_ingest.Base.{
  ℕ, Bool, true, false, Option, none, some, List, [], ◌∷◌, ◌⊎◌, inl, inr, if◌then◌else◌,
}
use seestorm_ingest.Base.Bytes.{Bytes, lit}
use seestorm_ingest.Base.Int.{ℤ}
use seestorm_ingest.Areas.{parse_areas, require_explicit_mode_on_fly}
use seestorm_ingest.Poller.Mode.{Mode, parse_mode, should_publish}
use seestorm_ingest.Store.Schema.{Schema}
use seestorm_ingest.Store.Migrate.{
  PoolConfig, ConnectError, new_store, MigrateError, MigrateFaults, Migrated, migrate,
}
use seestorm_ingest.Startup.{
  StartError, database_url_missing, no_areas, mode_not_set, bad_mode, R2Config, Startup,
  Environment, r2_of, assemble,
}

pub data RunError : Type 0 where
  start : StartError → RunError
  connect : ConnectError → RunError
  migration : MigrateError → RunError
  aws_config : RunError

-- What surrounds the start: time.ParseDuration, the driver, the database, the AWS library.
pub record Outside : Type 0 where
  pub parse_duration : Bytes → Option ℤ
  pub parse_config : Bytes → Option PoolConfig
  pub pool_fails : PoolConfig → Bool
  pub ping_fails : PoolConfig → Bool
  pub migration : MigrateFaults
  pub schema : Schema
  pub aws_fails : R2Config → Bool

-- The error, the database's schema, and what the poller ran with, if it ran.
pub record Ran : Type 0 where
  pub error : Option RunError
  pub schema : Schema
  pub polled : Option Startup

abbrev pub stop : RunError → Schema → Ran
stop e s = record { error = some e; schema = s; polled = none }

module _ (o : Outside) (env : Environment) (database_url : Bytes) (areas : List Bytes) where
  -- From the R2 publisher on
  unfoldable pub run_publishers : Mode → Schema → StartError ⊎ Option R2Config → Ran
  run_publishers mode s (inl e) = stop (start e) s
  run_publishers mode s (inr none) = record {
    error = none;
    schema = s;
    polled = some (assemble o.parse_duration env database_url areas mode none);
  }
  run_publishers mode s (inr (some cfg)) = if o.aws_fails cfg then stop aws_config s else record {
    error = none;
    schema = s;
    polled = some (assemble o.parse_duration env database_url areas mode (some cfg));
  }

  -- Once Migrate has returned
  unfoldable pub run_migration : Mode → Schema → Option MigrateError → Ran
  unfolding run_publishers
  run_migration mode s (some e) = stop (migration e) s
  run_migration mode s none = run_publishers mode s (r2_of (should_publish mode) env)

  -- Once the store is connected, or not
  unfoldable pub run_store : Mode → ConnectError ⊎ PoolConfig → Ran
  unfolding run_migration
  run_store mode (inl e) = stop (connect e) o.schema
  run_store mode (inr pool) =
      let m = migrate o.migration o.schema in run_migration mode m.schema m.error

  -- From the mode on
  unfoldable pub run_mode : Option Mode → Ran
  unfolding run_store
  run_mode none = stop (start bad_mode) o.schema
  run_mode (some mode) =
      run_store mode (new_store o.parse_config o.pool_fails o.ping_fails database_url)

  -- From the check of the role on Fly on
  unfoldable pub run_role : Bool → Ran
  unfolding run_mode
  run_role true = stop (start mode_not_set) o.schema
  run_role false = run_mode (parse_mode (env (lit "MODE")))

-- From the areas on
unfoldable pub run_areas : Outside → Environment → Bytes → List Bytes → Ran
unfolding run_role
run_areas o env database_url [] = stop (start no_areas) o.schema
run_areas o env database_url (a ∷ areas) =
    run_role o env database_url (a ∷ areas)
      (require_explicit_mode_on_fly (env (lit "FLY_APP_NAME")) (env (lit "MODE")))

unfoldable pub run_database : Outside → Environment → Bytes → Ran
unfolding run_areas
run_database o env [] = stop (start database_url_missing) o.schema
run_database o env (c ∷ url) = run_areas o env (c ∷ url) (parse_areas (env (lit "NWS_AREA")))

unfoldable pub run : Outside → Environment → Ran
unfolding run_database
run o env = run_database o env (env (lit "DATABASE_URL"))

-- main
unfoldable pub exit_code : Ran → ℕ
exit_code r = elim r.error [ some e ↦ 1 | none ↦ 0 ]
