-- ===== src/Startup/Process/Examples.antt =====
-- A publisher's start on a new database, and starts that fail on the way.
use seestorm_ingest.Base.{◌≡◌, refl, true, false, none, some, inr}
use seestorm_ingest.Base.Bytes.{lit, bytes_eq, contains}
use seestorm_ingest.Base.Maps.{put}
use seestorm_ingest.Strings.{trim_space, to_lower}
use seestorm_ingest.Areas.{parse_areas, require_explicit_mode_on_fly}
use seestorm_ingest.Poller.Mode.{parse_mode, should_publish}
use seestorm_ingest.Store.Schema.{run_ddl, migrate_sql}
use seestorm_ingest.Store.Schema.Examples.{empty}
use seestorm_ingest.Store.Migrate.{
  PoolConfig, MigrateFaults, migrate, new_store, no_ping, DbError, lock_timed_out,
}
use seestorm_ingest.Startup.{Startup, configure, r2_of, new_r2}
use seestorm_ingest.Startup.Ready.{Ready}
use seestorm_ingest.Startup.Examples.{env, parse_duration}
use seestorm_ingest.Startup.Process.{Outside, run, exit_code, connect, migration}
use seestorm_ingest.Startup.Process.Started.{run-Started}

abbrev defaults : PoolConfig
defaults = record {
  max_conns = 4;
  min_conns = 0;
  max_conn_idle_time = 0;
  max_conn_lifetime = 0;
  runtime_params = λ k. none;
}

abbrev faultless : MigrateFaults
faultless = record {
  begin_fails = none;
  statement_timeout_fails = none;
  lock_timeout_fails = none;
  lock_fails = none;
  ddl_fails = none;
  commit_fails = none;
  commit_landed = false;
}

abbrev outside : Outside
outside = record {
  parse_duration = parse_duration;
  parse_config = λ s. some defaults;
  pool_fails = λ cfg. false;
  ping_fails = λ cfg. false;
  migration = faultless;
  schema = empty;
  aws_fails = λ cfg. false;
}

ends_well : exit_code (run outside (env (lit "publish"))) ≡ 0
unfolding run exit_code r2_of new_r2 parse_areas require_explicit_mode_on_fly parse_mode
    should_publish trim_space to_lower bytes_eq new_store migrate run_ddl contains put
ends_well = refl

run-Started_example :
    let r = run outside (env (lit "publish")) in
    (s : Startup) × (r.polled ≡ some s)
    × (configure parse_duration (env (lit "publish")) ≡ inr s)
    × Ready (env (lit "publish")) s
    × (run_ddl migrate_sql empty ≡ some r.schema)
    × (run_ddl migrate_sql r.schema ≡ some r.schema)
run-Started_example = run-Started outside (env (lit "publish")) ends_well

-- The migration comes after the connection.
no_answer :
    (run (record outside { ping_fails = λ cfg. true }) (env (lit "publish"))).error
    ≡ some (connect no_ping)
unfolding run parse_areas require_explicit_mode_on_fly parse_mode trim_space to_lower bytes_eq
    new_store
no_answer = refl

abbrev busy : DbError
busy = record { code = some (lit "55P03") }

locked_out :
    (run
      (record outside { migration = record faultless { lock_fails = some busy } })
      (env (lit "publish"))).error
    ≡ some (migration (lock_timed_out busy))
unfolding run parse_areas require_explicit_mode_on_fly parse_mode trim_space to_lower bytes_eq
    new_store migrate
locked_out = refl
