-- ===== src/Store/Migrate/Examples.antt =====
-- The start of one node, and of two that meet at the lock.
use seestorm_ingest.Base.{ℕ, ◌≡◌, refl, true, false, none, some, [], ◌∷◌, arith}
use seestorm_ingest.Base.Bytes.{lit, bytes_eq}
use seestorm_ingest.Store.Schema.Examples.{empty}
use seestorm_ingest.Store.Migrate.{
  DbError, MigrateFaults, migrate, migrate_begun, lock_timed_out, starting, after, begin_tx,
  set_statement_timeout, set_lock_timeout, advisory_lock, rollback,
}
use seestorm_ingest.Store.Migrate.Calls.{Promise, migrate-Promise}
use seestorm_ingest.Store.Migrate.Fleet.{holds, Fleet, moved, move, Reach, boot, next, IsSafe}
use seestorm_ingest.Store.Migrate.Fleet.Safe.{migrate_fleet}

abbrev busy : DbError
busy = record { code = some (lit "55P03") }

-- Another node holds the lock for too long.
abbrev waits : MigrateFaults
waits = record {
  begin_fails = none;
  statement_timeout_fails = none;
  lock_timeout_fails = none;
  lock_fails = some busy;
  ddl_fails = none;
  commit_fails = none;
  commit_landed = false;
}

gives_up : (migrate waits empty).error ≡ some (lock_timed_out busy)
unfolding migrate migrate_begun bytes_eq
gives_up = refl

gives_up_calls :
    (migrate waits empty).calls
    ≡ begin_tx
      ∷ set_statement_timeout 0
      ∷ set_lock_timeout 15
      ∷ advisory_lock 774_300_010_001
      ∷ rollback
      ∷ []
unfolding migrate migrate_begun
gives_up_calls = refl

migrate-Promise_example : Promise empty waits (migrate waits empty)
migrate-Promise_example = migrate-Promise empty waits

abbrev fresh : Fleet
fresh = record { sessions = λ i. starting; schema = empty }

-- A lock manager that grants the lock whenever no other session holds it.
abbrev Free : Fleet → ℕ → Type 0
Free f i = (j : ℕ) → holds (f.sessions j) ≡ true → j ≡ i

abbrev served : Fleet → ℕ → Fleet
served f i = moved f i none false

abbrev asking : Fleet
asking = served (served (served fresh 0) 0) 0

abbrev holding : Fleet
holding = served asking 0

asking-Free : Free asking 0
unfolding moved holds after
asking-Free j h = ground arith

-- Node 0 migrates the database, while node 1 begins.
boots : Reach Free empty (served (served (served holding 0) 1) 0)
unfolding moved after
boots =
    next
      (next
        (next
          (next
            (next
              (next
                (next (boot fresh (λ i. refl) refl)
                  (move fresh 0 none false (λ e k. absurd (cc e))))
                (move (served fresh 0) 0 none false (λ e k. absurd (cc e))))
              (move (served (served fresh 0) 0) 0 none false (λ e k. absurd (cc e))))
            (move asking 0 none false (λ e k. asking-Free)))
          (move holding 0 none false (λ e k. absurd (cc e))))
        (move (served holding 0) 1 none false (λ e k. absurd (cc e))))
      (move (served (served holding 0) 1) 0 none false (λ e k. absurd (ground arith)))

migrate_fleet_example : IsSafe empty (served (served (served holding 0) 1) 0)
migrate_fleet_example = migrate_fleet Free (λ f i j g h. g j h) empty boots
