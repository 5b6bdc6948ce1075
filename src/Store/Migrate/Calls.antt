-- ===== src/Store/Migrate/Calls.antt =====
-- About Migrate of internal/store/postgres.go, on one node: what it sends and what it leaves.
use seestorm_ingest.Base.{
  ◌≢◌, ◌⊎◌, inl, inr, ◌≡◌, refl, Bool, true, false, Option, none, some, List, [], ◌∷◌,
}
use seestorm_ingest.Store.Schema.{Schema, run_ddl, migrate_sql}
use seestorm_ingest.Store.Migrate.{
  migrate_begun, then_call, begin_tx, set_statement_timeout, set_lock_timeout, advisory_lock, Call,
  migrate_ddl, commit, rollback, give_up, ddl_failed, refused, DbError, MigrateFaults, Migrated,
  migrate_locked, commit_migration, after, after_ddl, stored, Session, returned, migrate, starting,
}

-- The code call by call, to its end.
unfoldable pub run_session : Session → List (Option DbError × Bool) → Schema → Session × Schema
unfolding after stored
run_session x [] s = (x, s)
run_session x ((reply, landed) ∷ replies) s =
    run_session (after x reply s) replies (stored x reply landed s)

abbrev pub replies : MigrateFaults → List (Option DbError × Bool)
replies f =
    (f.begin_fails, false)
    ∷ (f.statement_timeout_fails, false)
    ∷ (f.lock_timeout_fails, false)
    ∷ (f.lock_fails, false)
    ∷ (f.ddl_fails, false)
    ∷ (f.commit_fails, f.commit_landed)
    ∷ []

abbrev Ends : Session × Schema → Migrated → Type 0
Ends x r = x ≡ (returned r.error, r.schema)

module _ (s : Schema) where
  commit_migration-Ends :
      (f : MigrateFaults) (o : Option DbError) (b : Bool) (t : Schema)
      → Ends (run_session (Session.changed t) ((o, b) ∷ []) s) (
          commit_migration
            (record f { commit_fails = o; commit_landed = b })
            (record { before = s; working = t }))
  unfolding run_session commit_migration
  commit_migration-Ends f none b t = refl
  commit_migration-Ends f (some e) true t = refl
  commit_migration-Ends f (some e) false t = refl

  after_ddl-Ends :
      (f : MigrateFaults) (d : Option Schema)
      → run_ddl migrate_sql s ≡ d
      → f.ddl_fails ≡ none
      → Ends
          (run_session (after_ddl d) ((f.commit_fails, f.commit_landed) ∷ []) s)
          (migrate_locked f (record { before = s; working = s }))
  unfolding run_session migrate_locked after_ddl
  after_ddl-Ends f none e h = rw (h, migrate_locked) (rw (e, migrate_locked) refl)
  after_ddl-Ends f (some t) e h =
      rw (h, migrate_locked)
        (rw (e, migrate_locked) (commit_migration-Ends f f.commit_fails f.commit_landed t))

  abbrev faults :
      Option DbError
      → Option DbError
      → Option DbError
      → Option DbError
      → Option DbError
      → Option DbError
      → Bool
      → MigrateFaults
  faults a b c d e g landed = record {
    begin_fails = a;
    statement_timeout_fails = b;
    lock_timeout_fails = c;
    lock_fails = d;
    ddl_fails = e;
    commit_fails = g;
    commit_landed = landed;
  }

  faults-Ends :
      (a b c d e g : Option DbError) (l : Bool)
      → let f = faults a b c d e g l in Ends (run_session starting (replies f) s) (migrate f s)
  unfolding run_session migrate migrate_begun migrate_locked
  faults-Ends (some x) b c d e g l = refl
  faults-Ends none (some x) c d e g l = refl
  faults-Ends none none (some x) d e g l = refl
  faults-Ends none none none (some x) e g l = refl
  faults-Ends none none none none (some x) g l = refl
  faults-Ends none none none none none g l =
      after_ddl-Ends (faults none none none none none g l) (run_ddl migrate_sql s) refl refl

  -- Migrate from its first call to its return does what its calls do one after another: it returns what
  -- the last of them leads to, and leaves the database so.
  migrate-eq-run_session :
      (f : MigrateFaults)
      → run_session starting (replies f) s ≡ (returned (migrate f s).error, (migrate f s).schema)
  migrate-eq-run_session f =
      faults-Ends f.begin_fails f.statement_timeout_fails f.lock_timeout_fails f.lock_fails
        f.ddl_fails f.commit_fails f.commit_landed

  abbrev pub sends_ddl : List Call → Bool
  sends_ddl [] = false
  sends_ddl (migrate_ddl ∷ cs) = true
  sends_ddl (c ∷ cs) = sends_ddl cs

  abbrev pub ends_in_rollback : List Call → Bool
  ends_in_rollback [] = false
  ends_in_rollback (rollback ∷ []) = true
  ends_in_rollback (c ∷ cs) = ends_in_rollback cs

  -- The calls up to the DDL, with their numbers.
  abbrev pub guarded : List Call → List Call
  guarded rest =
      begin_tx
      ∷ set_statement_timeout 0
      ∷ set_lock_timeout 15
      ∷ advisory_lock 774_300_010_001
      ∷ migrate_ddl
      ∷ rest

  -- What Migrate promises of what it returns
  abbrev pub Promise : MigrateFaults → Migrated → Type 0
  Promise f r =
      (r.error ≡ none
        → (run_ddl migrate_sql s ≡ some r.schema) × (r.calls ≡ guarded (commit ∷ rollback ∷ [])))
      × (r.error ≢ none
          → (r.schema ≡ s)
            ⊎ ((f.commit_fails ≢ none)
                × (f.commit_landed ≡ true)
                × (run_ddl migrate_sql s ≡ some r.schema)))
      × (sends_ddl r.calls ≡ true → (rest : List Call) × (r.calls ≡ guarded rest))
      × (f.begin_fails ≡ none → ends_in_rollback r.calls ≡ true)

  -- From the lock on, after the calls before it.
  locked_calls : MigrateFaults → Option Schema → Migrated
  locked_calls f o = then_call begin_tx (
      then_call (set_statement_timeout 0) (
        then_call (set_lock_timeout 15) (
          then_call (advisory_lock 774_300_010_001) (
            then_call migrate_ddl (elim o [
              | none ↦ give_up (record { before = s; working = s }) (ddl_failed refused)
              | some t ↦ commit_migration f (record { before = s; working = t })
            ])))))

  locked-Promise :
      (g : Option DbError) (l : Bool) (o : Option Schema)
      → run_ddl migrate_sql s ≡ o
      → let f = faults none none none none none g l in Promise f (locked_calls f o)
  unfolding commit_migration locked_calls
  locked-Promise g l none made =
      ((λ h. absurd (cc h)), (λ h. inl refl), (λ h. (rollback ∷ [], refl)), (λ h. refl))
  locked-Promise none l (some t) made = (
    (λ h. (made, refl)),
    (λ h. absurd (h refl)),
    (λ h. (commit ∷ rollback ∷ [], refl)),
    (λ h. refl),
  )
  locked-Promise (some x) true (some t) made = (
    (λ h. absurd (cc h)),
    (λ h. inr ((λ k. cc k), refl, made)),
    (λ h. (commit ∷ rollback ∷ [], refl)),
    (λ h. refl),
  )
  locked-Promise (some x) false (some t) made =
      ((λ h. absurd (cc h)), (λ h. inl refl), (λ h. (commit ∷ rollback ∷ [], refl)), (λ h. refl))

  faults-Promise :
      (a b c d e g : Option DbError) (l : Bool)
      → let f = faults a b c d e g l in Promise f (migrate f s)
  unfolding migrate migrate_begun migrate_locked locked_calls
  faults-Promise (some x) b c d e g l =
      ((λ h. absurd (cc h)), (λ h. inl refl), (λ h. absurd (cc h)), (λ h. absurd (cc h)))
  faults-Promise none (some x) c d e g l =
      ((λ h. absurd (cc h)), (λ h. inl refl), (λ h. absurd (cc h)), (λ h. refl))
  faults-Promise none none (some x) d e g l =
      ((λ h. absurd (cc h)), (λ h. inl refl), (λ h. absurd (cc h)), (λ h. refl))
  faults-Promise none none none (some x) e g l =
      ((λ h. absurd (cc h)), (λ h. inl refl), (λ h. absurd (cc h)), (λ h. refl))
  faults-Promise none none none none (some x) g l =
      ((λ h. absurd (cc h)), (λ h. inl refl), (λ h. (rollback ∷ [], refl)), (λ h. refl))
  faults-Promise none none none none none g l = locked-Promise g l (run_ddl migrate_sql s) refl

  -- If Migrate returns no error, the DDL has been run on what the database held, and what it left is
  -- stored; the calls were: begin, no statement timeout, 15 s of waiting for a lock, the advisory lock
  -- 774300010001, the DDL, the commit, and the deferred rollback. If it returns one, the database is as
  -- it was, unless a commit that was reported as failed was carried out. Whatever fails, the DDL is sent
  -- only after the four calls before it, in their order, and a transaction that was begun ends with the
  -- rollback.
  pub migrate-Promise : (f : MigrateFaults) → Promise f (migrate f s)
  migrate-Promise f =
      faults-Promise f.begin_fails f.statement_timeout_fails f.lock_timeout_fails f.lock_fails
        f.ddl_fails f.commit_fails f.commit_landed
