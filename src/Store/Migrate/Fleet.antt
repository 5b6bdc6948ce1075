-- ===== src/Store/Migrate/Fleet.antt =====
-- Migrate of internal/store/postgres.go, run by any number of nodes at once. The advisory lock is the
-- server's, so which node is granted it is a parameter.
pub mod Steps
pub mod Safe
use seestorm_ingest.Base.{
  ℕ, ◌≡◌, ◌≢◌, refl, sym, subst, ◌∙◌, ◌⊎◌, inl, inr, Bool, true, false, Option, none, some, arith,
  if◌then◌else◌, ◌==◌, ==_iff, Bool-cases,
}
use seestorm_ingest.Store.Schema.{Schema, run_ddl, migrate_sql}
use seestorm_ingest.Store.Schema.Growth.{Extends, Extends-refl, Extends-trans}
use seestorm_ingest.Store.Schema.Served.{migrate_sql-Settled}
use seestorm_ingest.Store.Migrate.{
  Session, starting, begun, unlimited, bounded, locked, changed, returned, DbError, after, stored,
  after_ddl,
}

-- From the lock to the end of the transaction.
unfoldable pub holds : Session → Bool
holds locked = true
holds (changed t) = true
holds _ = false

pub record Fleet : Type 0 where
  pub sessions : ℕ → Session
  pub schema : Schema

unfoldable pub moved : Fleet → ℕ → Option DbError → Bool → Fleet
moved f i reply landed = record {
  sessions = λ j. if j == i then after (f.sessions i) reply f.schema else f.sessions j;
  schema = stored (f.sessions i) reply landed f.schema;
}

-- The documentation of pg_advisory_xact_lock: it is granted to nobody while another session holds the
-- lock, and a session holds it from then to the end of its transaction.
abbrev pub Exclusive : (Fleet → ℕ → Type 0) → Type 0
Exclusive granted = (f : Fleet) (i j : ℕ) → granted f i → holds (f.sessions j) ≡ true → j ≡ i

module _ (granted : Fleet → ℕ → Type 0) where
  -- A call of some node ends; one that asks for the lock ends well only if it is granted.
  pub data Step : Fleet → Fleet → Type 0 where
    move :
        (f : Fleet) (i : ℕ) (reply : Option DbError) (landed : Bool)
        → (f.sessions i ≡ bounded → reply ≡ none → granted f i)
        → Step f (moved f i reply landed)

  pub data Reach (s : Schema) : Fleet → Type 0 where
    boot : (f : Fleet) → ((i : ℕ) → f.sessions i ≡ starting) → f.schema ≡ s → Reach s f
    next : {f g : Fleet} → Reach s f → Step f g → Reach s g

-- Whose DDL is under way: what it made of the database.
abbrev pub Working : Schema → Session → Type 0
Working s (changed t) = run_ddl migrate_sql s ≡ some t
Working s _ = Unit

pub record IsSafe (s : Schema) (f : Fleet) : Type 0 where
  pub alone : (i j : ℕ) → holds (f.sessions i) ≡ true → holds (f.sessions j) ≡ true → i ≡ j
  pub working : (i : ℕ) → Working f.schema (f.sessions i)
  pub settled :
      (i : ℕ) → f.sessions i ≡ returned none → run_ddl migrate_sql f.schema ≡ some f.schema
  pub grown : Extends s f.schema
