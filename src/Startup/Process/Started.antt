-- ===== src/Startup/Process/Started.antt =====
-- About run and main of cmd/ingest/main.go: a process that ends well has polled, on a migrated database.
use seestorm_ingest.Base.{
  ℕ, ◌≡◌, refl, Bool, true, false, Option, none, some, List, [], ◌∷◌, ◌⊎◌, inl, inr, arith,
  Bool-cases,
}
use seestorm_ingest.Base.Bytes.{Bytes, lit}
use seestorm_ingest.Areas.{parse_areas, require_explicit_mode_on_fly}
use seestorm_ingest.Poller.Mode.{Mode, parse_mode, should_publish}
use seestorm_ingest.Store.Schema.{Schema, run_ddl, migrate_sql}
use seestorm_ingest.Store.Schema.Served.{migrate_sql-Settled}
use seestorm_ingest.Store.Migrate.{PoolConfig, ConnectError, MigrateError, new_store, migrate}
use seestorm_ingest.Store.Migrate.Calls.{migrate-Promise}
use seestorm_ingest.Startup.{StartError, R2Config, Startup, Environment, r2_of, assemble, configure}
use seestorm_ingest.Startup.Ready.{Ready, configure-Ready}
use seestorm_ingest.Startup.Process.{
  Outside, Ran, run_publishers, run_migration, run_store, run_mode, run_role, run_areas,
  run_database, run, exit_code,
}

module _ (o : Outside) (env : Environment) where
  -- The poller ran with what the environment configures, on a database that Migrate has been through.
  abbrev pub Started : Ran → Type 0
  Started r =
      (s : Startup) × (r.polled ≡ some s)
      × (configure o.parse_duration env ≡ inr s)
      × (run_ddl migrate_sql o.schema ≡ some r.schema)

  module _ (url : Bytes) (areas : List Bytes)
      (configured : (mode : Mode) (r2 : Option R2Config)
        → require_explicit_mode_on_fly (env (lit "FLY_APP_NAME")) (env (lit "MODE")) ≡ false
        → parse_mode (env (lit "MODE")) ≡ some mode
        → r2_of (should_publish mode) env ≡ inr r2
        → configure o.parse_duration env
          ≡ inr (assemble o.parse_duration env url areas mode r2)) where
    run_publishers-Started :
        (mode : Mode) (s : Schema) (x : StartError ⊎ Option R2Config)
        → require_explicit_mode_on_fly (env (lit "FLY_APP_NAME")) (env (lit "MODE")) ≡ false
        → parse_mode (env (lit "MODE")) ≡ some mode
        → r2_of (should_publish mode) env ≡ x
        → run_ddl migrate_sql o.schema ≡ some s
        → exit_code (run_publishers o env url areas mode s x) ≡ 0
        → Started (run_publishers o env url areas mode s x)
    unfolding run_publishers exit_code
    run_publishers-Started mode s (inl e) p q r m h = absurd (omega (arith, h))
    run_publishers-Started mode s (inr none) p q r m h = (_, refl, configured mode none p q r, m)
    run_publishers-Started mode s (inr (some cfg)) p q r m h = elim (Bool-cases (o.aws_fails cfg)) [
      | inl fails ↦ absurd (ground (arith, fails, h))
      | inr fine ↦ rw fine (_, refl, configured mode (some cfg) p q r, m)
    ]

    run_migration-Started :
        (mode : Mode) (s : Schema) (x : Option MigrateError)
        → require_explicit_mode_on_fly (env (lit "FLY_APP_NAME")) (env (lit "MODE")) ≡ false
        → parse_mode (env (lit "MODE")) ≡ some mode
        → (x ≡ none → run_ddl migrate_sql o.schema ≡ some s)
        → exit_code (run_migration o env url areas mode s x) ≡ 0
        → Started (run_migration o env url areas mode s x)
    unfolding run_migration exit_code
    run_migration-Started mode s (some e) p q m h = absurd (omega (arith, h))
    run_migration-Started mode s none p q m h =
        run_publishers-Started mode s (r2_of (should_publish mode) env) p q refl (m refl) h

    run_store-Started :
        (mode : Mode) (x : ConnectError ⊎ PoolConfig)
        → require_explicit_mode_on_fly (env (lit "FLY_APP_NAME")) (env (lit "MODE")) ≡ false
        → parse_mode (env (lit "MODE")) ≡ some mode
        → exit_code (run_store o env url areas mode x) ≡ 0
        → Started (run_store o env url areas mode x)
    unfolding run_store exit_code
    run_store-Started mode (inl e) p q h = absurd (omega (arith, h))
    run_store-Started mode (inr pool) p q h =
        let m = migrate o.migration o.schema in
        run_migration-Started mode m.schema m.error p q
          (λ e. ((migrate-Promise o.schema o.migration).0 e).0) h

    run_mode-Started :
        (x : Option Mode)
        → require_explicit_mode_on_fly (env (lit "FLY_APP_NAME")) (env (lit "MODE")) ≡ false
        → parse_mode (env (lit "MODE")) ≡ x
        → exit_code (run_mode o env url areas x) ≡ 0
        → Started (run_mode o env url areas x)
    unfolding run_mode exit_code
    run_mode-Started none p q h = absurd (omega (arith, h))
    run_mode-Started (some mode) p q h =
        run_store-Started mode (new_store o.parse_config o.pool_fails o.ping_fails url) p q h

    run_role-Started :
        (x : Bool)
        → require_explicit_mode_on_fly (env (lit "FLY_APP_NAME")) (env (lit "MODE")) ≡ x
        → exit_code (run_role o env url areas x) ≡ 0
        → Started (run_role o env url areas x)
    unfolding run_role exit_code
    run_role-Started true p h = absurd (omega (arith, h))
    run_role-Started false p h = run_mode-Started (parse_mode (env (lit "MODE"))) p refl h

  run_areas-Started :
      (c : ℕ) (url : Bytes) (areas : List Bytes)
      → env (lit "DATABASE_URL") ≡ c ∷ url
      → parse_areas (env (lit "NWS_AREA")) ≡ areas
      → exit_code (run_areas o env (c ∷ url) areas) ≡ 0
      → Started (run_areas o env (c ∷ url) areas)
  unfolding run_areas exit_code configure
  run_areas-Started c url [] n m h = absurd (omega (arith, h))
  run_areas-Started c url (a ∷ areas) n m h =
      run_role-Started (c ∷ url) (a ∷ areas) (λ mode r2 p q r. ground (arith, n, m, p, q, r))
        (require_explicit_mode_on_fly (env (lit "FLY_APP_NAME")) (env (lit "MODE"))) refl h

  run_database-Started :
      (url : Bytes)
      → env (lit "DATABASE_URL") ≡ url
      → exit_code (run_database o env url) ≡ 0
      → Started (run_database o env url)
  unfolding run_database exit_code
  run_database-Started [] n h = absurd (omega (arith, h))
  run_database-Started (c ∷ url) n h =
      run_areas-Started c url (parse_areas (env (lit "NWS_AREA"))) n refl h

  -- A process that exits with 0 has run the poller, with what the environment configures and with what
  -- the poller needs, on a database that Migrate has been through: the migration was committed, and
  -- running it again would change nothing.
  pub run-Started :
      exit_code (run o env) ≡ 0
      → (s : Startup) × ((run o env).polled ≡ some s)
        × (configure o.parse_duration env ≡ inr s)
        × Ready env s
        × (run_ddl migrate_sql o.schema ≡ some (run o env).schema)
        × (run_ddl migrate_sql (run o env).schema ≡ some (run o env).schema)
  unfolding run
  run-Started h =
      let (s, polled, configured, migrated) =
        run_database-Started (env (lit "DATABASE_URL")) refl h in
      (
        s,
        polled,
        configured,
        configure-Ready o.parse_duration env s configured,
        migrated,
        (migrate_sql-Settled o.schema (run o env).schema migrated).4,
      )
