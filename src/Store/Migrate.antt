-- ===== src/Store/Migrate.antt =====
-- internal/store/postgres.go: buildPoolConfig, New and Migrate. pgxpool is a parameter: what ParseConfig
-- makes of an address, and which calls fail. `migrate` is Migrate from its first call to its return;
-- `after` is the same code call by call, for several nodes that start together.
pub mod Calls
pub mod Fleet
pub mod Examples
use seestorm_ingest.Base.{
  ℕ, Bool, true, false, ◌*◌, ◌/◌, Option, none, some, List, [], ◌∷◌, ◌⊎◌, inl, inr, if◌then◌else◌,
}
use seestorm_ingest.Base.Bytes.{Bytes, lit, bytes_eq}
use seestorm_ingest.Base.Maps.{Map, put}
use seestorm_ingest.Duration.{second}
use seestorm_ingest.Store.Schema.{Schema, run_ddl, migrate_sql}

-- The fields of pgxpool.Config that the code sets.
pub record PoolConfig : Type 0 where
  pub max_conns : ℕ
  pub min_conns : ℕ
  pub max_conn_idle_time : ℕ
  pub max_conn_lifetime : ℕ
  pub runtime_params : Map Bytes

abbrev minute : ℕ
minute = 60 * second

unfoldable pub build_pool_config : (Bytes → Option PoolConfig) → Bytes → Option PoolConfig
build_pool_config parse_config database_url = elim (parse_config database_url) [
  | none ↦ none
  | some cfg ↦ some (record cfg {
    max_conns = 16;
    min_conns = 2;
    max_conn_idle_time = 4 * minute;
    max_conn_lifetime = 30 * minute;
    runtime_params = put (lit "statement_timeout") (lit "15000") cfg.runtime_params;
  })
]

pub data ConnectError : Type 0 where
  bad_address no_pool no_ping : ConnectError

-- New, when the pool cannot be made, or the database does not answer
unfoldable pub new_store :
    (Bytes → Option PoolConfig)
    → (PoolConfig → Bool)
    → (PoolConfig → Bool)
    → Bytes
    → ConnectError ⊎ PoolConfig
unfolding build_pool_config
new_store parse_config pool_fails ping_fails database_url =
    elim (build_pool_config parse_config database_url) [
      | none ↦ inl bad_address
      | some cfg ↦
          if pool_fails cfg then inl no_pool else if ping_fails cfg then inl no_ping else inr cfg
    ]

-- An error of the driver, with the SQLSTATE if it is one of the server's.
pub record DbError : Type 0 where
  pub code : Option Bytes

pub data MigrateError : Type 0 where
  begin_failed statement_timeout_failed lock_timeout_failed : DbError → MigrateError
  lock_timed_out lock_failed ddl_failed commit_failed : DbError → MigrateError

-- What is sent in the transaction, with the numbers in it.
pub data Call : Type 0 where
  begin_tx migrate_ddl commit rollback : Call
  set_statement_timeout set_lock_timeout advisory_lock : ℕ → Call

abbrev pub migrate_advisory_lock_key : ℕ
migrate_advisory_lock_key = 774_300_010_001

abbrev pub migrate_lock_timeout : ℕ
migrate_lock_timeout = 15 * second

-- How each call ends; `commit_landed`: a commit that fails may have been carried out all the same.
pub record MigrateFaults : Type 0 where
  pub begin_fails : Option DbError
  pub statement_timeout_fails : Option DbError
  pub lock_timeout_fails : Option DbError
  pub lock_fails : Option DbError
  pub ddl_fails : Option DbError
  pub commit_fails : Option DbError
  pub commit_landed : Bool

pub record Migrated : Type 0 where
  pub schema : Schema
  pub error : Option MigrateError
  pub calls : List Call

-- The message for a lock that was not granted in time, by lock_not_available
unfoldable pub lock_error : DbError → MigrateError
lock_error e = elim e.code [
  | none ↦ lock_failed e
  | some code ↦ if bytes_eq code (lit "55P03") then lock_timed_out e else lock_failed e
]

-- A statement that the server refuses for what the schema is.
abbrev pub refused : DbError
refused = record { code = none }

-- The database in a transaction: what is stored, and what the transaction sees.
pub record Tx : Type 0 where
  pub before : Schema
  pub working : Schema

-- The next call, and what comes after it
abbrev pub then_call : Call → Migrated → Migrated
then_call c r = record r { calls = c ∷ r.calls }

-- The return with an error, by which the deferred rollback runs
abbrev pub give_up : Tx → MigrateError → Migrated
give_up tx e = record { schema = tx.before; error = some e; calls = rollback ∷ [] }

-- From the DDL's success on; after a commit the rollback does nothing.
unfoldable pub commit_migration : MigrateFaults → Tx → Migrated
commit_migration f tx = then_call commit (elim f.commit_fails [
  | some e ↦
      give_up (if f.commit_landed then record tx { before = tx.working } else tx) (commit_failed e)
  | none ↦ record { schema = tx.working; error = none; calls = rollback ∷ [] }
])

-- From the lock on
unfoldable pub migrate_locked : MigrateFaults → Tx → Migrated
unfolding commit_migration
migrate_locked f tx = then_call migrate_ddl (elim f.ddl_fails [
  | some e ↦ give_up tx (ddl_failed e)
  | none ↦ elim (run_ddl migrate_sql tx.working) [
    | none ↦ give_up tx (ddl_failed refused)
    | some t ↦ commit_migration f (record tx { working = t })
  ]
])

-- From the begin of the transaction on
unfoldable pub migrate_begun : MigrateFaults → Tx → Migrated
unfolding migrate_locked lock_error
migrate_begun f tx = then_call (set_statement_timeout 0) (elim f.statement_timeout_fails [
  | some e ↦ give_up tx (statement_timeout_failed e)
  | none ↦ then_call (set_lock_timeout (migrate_lock_timeout / second)) (elim f.lock_timeout_fails [
    | some e ↦ give_up tx (lock_timeout_failed e)
    | none ↦
        then_call (advisory_lock migrate_advisory_lock_key)
          (elim f.lock_fails [ some e ↦ give_up tx (lock_error e) | none ↦ migrate_locked f tx ])
  ])
])

unfoldable pub migrate : MigrateFaults → Schema → Migrated
unfolding migrate_begun
migrate f s = then_call begin_tx (elim f.begin_fails [
  | some e ↦ record { schema = s; error = some (begin_failed e); calls = [] }
  | none ↦ migrate_begun f (record { before = s; working = s })
])

-- Where a node is in Migrate: before its first call, after each, and at the end.
pub data Session : Type 0 where
  starting begun unlimited bounded locked : Session
  changed : Schema → Session
  returned : Option MigrateError → Session

abbrev fail : MigrateError → Session
fail e = returned (some e)

-- Once the DDL has been answered
unfoldable pub after_ddl : Option Schema → Session
after_ddl none = fail (ddl_failed refused)
after_ddl (some t) = changed t

-- The next call has ended.
unfoldable pub after : Session → Option DbError → Schema → Session
unfolding lock_error after_ddl
after starting (some e) s = fail (begin_failed e)
after starting none s = begun
after begun (some e) s = fail (statement_timeout_failed e)
after begun none s = unlimited
after unlimited (some e) s = fail (lock_timeout_failed e)
after unlimited none s = bounded
after bounded (some e) s = fail (lock_error e)
after bounded none s = locked
after locked (some e) s = fail (ddl_failed e)
after locked none s = after_ddl (run_ddl migrate_sql s)
after (changed t) (some e) s = fail (commit_failed e)
after (changed t) none s = returned none
after (returned e) reply s = returned e

-- What the database holds then: only a commit changes it.
unfoldable pub stored : Session → Option DbError → Bool → Schema → Schema
stored (changed t) none landed s = t
stored (changed t) (some e) landed s = if landed then t else s
stored _ reply landed s = s
