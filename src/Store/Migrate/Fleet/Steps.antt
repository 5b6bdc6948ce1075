-- ===== src/Store/Migrate/Fleet/Steps.antt =====
-- About Migrate of internal/store/postgres.go: one call of one node, and the lock.
use seestorm_ingest.Base.{
  ◌≡◌, ◌≢◌, refl, ◌⊎◌, inl, inr, Bool, true, false, Option, none, some, arith,
}
use seestorm_ingest.Store.Schema.{Schema, run_ddl, migrate_sql}
use seestorm_ingest.Store.Migrate.{
  Session, starting, begun, unlimited, bounded, locked, changed, returned, DbError, after, stored,
  after_ddl,
}
use seestorm_ingest.Store.Migrate.Fleet.{holds, Working}

-- A node comes to hold the lock only by being granted it.
pub holds-after :
    (x : Session) (reply : Option DbError) (s : Schema)
    → holds (after x reply s) ≡ true
    → (holds x ≡ true) ⊎ ((x ≡ bounded) × (reply ≡ none))
unfolding holds after
holds-after starting (some e) s h = absurd (ground arith)
holds-after starting none s h = absurd (ground arith)
holds-after begun (some e) s h = absurd (ground arith)
holds-after begun none s h = absurd (ground arith)
holds-after unlimited (some e) s h = absurd (ground arith)
holds-after unlimited none s h = absurd (ground arith)
holds-after bounded (some e) s h = absurd (ground arith)
holds-after bounded none s h = inr (refl, refl)
holds-after locked reply s h = inl refl
holds-after (changed t) reply s h = inl refl
holds-after (returned e) reply s h = absurd (ground arith)

Working-after_ddl :
    (s : Schema) (o : Option Schema) → run_ddl migrate_sql s ≡ o → Working s (after_ddl o)
unfolding after_ddl
Working-after_ddl s none e = tt
Working-after_ddl s (some t) e = e

pub Working-after :
    (x : Session) (reply : Option DbError) (landed : Bool) (s : Schema)
    → Working (stored x reply landed s) (after x reply s)
unfolding after stored
Working-after starting (some e) landed s = tt
Working-after starting none landed s = tt
Working-after begun (some e) landed s = tt
Working-after begun none landed s = tt
Working-after unlimited (some e) landed s = tt
Working-after unlimited none landed s = tt
Working-after bounded (some e) landed s = tt
Working-after bounded none landed s = tt
Working-after locked (some e) landed s = tt
Working-after locked none landed s = Working-after_ddl s (run_ddl migrate_sql s) refl
Working-after (changed t) (some e) landed s = tt
Working-after (changed t) none landed s = tt
Working-after (returned e) reply landed s = tt

-- The database is as it was, or as the node that holds the lock has made it.
pub stored-cases :
    (x : Session) (reply : Option DbError) (landed : Bool) (s : Schema)
    → Working s x
    → (stored x reply landed s ≡ s)
      ⊎ ((holds x ≡ true) × (run_ddl migrate_sql s ≡ some (stored x reply landed s)))
unfolding stored holds
stored-cases starting reply landed s w = inl refl
stored-cases begun reply landed s w = inl refl
stored-cases unlimited reply landed s w = inl refl
stored-cases bounded reply landed s w = inl refl
stored-cases locked reply landed s w = inl refl
stored-cases (changed t) none landed s w = inr (refl, w)
stored-cases (changed t) (some e) true s w = inr (refl, w)
stored-cases (changed t) (some e) false s w = inl refl
stored-cases (returned e) reply landed s w = inl refl

after_ddl-returned : (o : Option Schema) → after_ddl o ≢ returned none
unfolding after_ddl
after_ddl-returned none h = cc
after_ddl-returned (some t) h = cc

pub Working-idle : (s : Schema) (x : Session) → (holds x ≡ true → ⊥) → Working s x
unfolding holds
Working-idle s starting h = tt
Working-idle s begun h = tt
Working-idle s unlimited h = tt
Working-idle s bounded h = tt
Working-idle s locked h = tt
Working-idle s (changed t) h = absurd (h refl)
Working-idle s (returned e) h = tt

-- Migrate returns nil only when what it made has been committed.
pub after-returned :
    (x : Session) (reply : Option DbError) (landed : Bool) (s : Schema)
    → Working s x
    → after x reply s ≡ returned none
    → (x ≡ returned none) ⊎ (run_ddl migrate_sql s ≡ some (stored x reply landed s))
unfolding after stored
after-returned starting (some e) landed s w h = absurd (ground arith)
after-returned starting none landed s w h = absurd (ground arith)
after-returned begun (some e) landed s w h = absurd (ground arith)
after-returned begun none landed s w h = absurd (ground arith)
after-returned unlimited (some e) landed s w h = absurd (ground arith)
after-returned unlimited none landed s w h = absurd (ground arith)
after-returned bounded (some e) landed s w h = absurd (ground arith)
after-returned bounded none landed s w h = absurd (ground arith)
after-returned locked (some e) landed s w h = absurd (ground arith)
after-returned locked none landed s w h = absurd (after_ddl-returned (run_ddl migrate_sql s) h)
after-returned (changed t) (some e) landed s w h = absurd (ground arith)
after-returned (changed t) none landed s w h = inr w
after-returned (returned e) reply landed s w h = inl h
