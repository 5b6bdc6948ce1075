-- ===== src/Store/Migrate/Fleet/Safe.antt =====
-- About Migrate of internal/store/postgres.go, run by any number of nodes at once.
use seestorm_ingest.Base.{
  ℕ, ◌≡◌, ◌≢◌, sym, subst, ◌∙◌, inl, inr, Bool, true, Option, none, some, arith, if◌then◌else◌,
  ◌==◌, ==_iff, Bool-cases,
}
use seestorm_ingest.Store.Schema.{Schema, run_ddl, migrate_sql}
use seestorm_ingest.Store.Schema.Growth.{Extends, Extends-refl, Extends-trans}
use seestorm_ingest.Store.Schema.Served.{migrate_sql-Settled}
use seestorm_ingest.Store.Migrate.{Session, starting, bounded, returned, DbError, after, stored}
use seestorm_ingest.Store.Migrate.Fleet.{
  holds, Fleet, moved, Exclusive, Step, move, Reach, boot, next, Working, IsSafe,
}
use seestorm_ingest.Store.Migrate.Fleet.Steps.{
  holds-after, Working-after, stored-cases, after-returned, Working-idle,
}

-- What is asked of a session of the fleet after a step, at the node that moved and at any other.
at_moved :
    (P : Session → Type 0) (f : Fleet) (i : ℕ) (reply : Option DbError) (landed : Bool)
    → P (after (f.sessions i) reply f.schema)
    → ((j : ℕ) → j ≢ i → P (f.sessions j))
    → (j : ℕ) → P ((moved f i reply landed).sessions j)
unfolding moved
at_moved P f i reply landed here there j = elim (Bool-cases (j == i)) [
  | inl e ↦
      subst (λ (b : Bool). P (if b then after (f.sessions i) reply f.schema else f.sessions j))
        (sym e) here
  | inr e ↦
      subst (λ (b : Bool). P (if b then after (f.sessions i) reply f.schema else f.sessions j))
        (sym e) (there j (λ k. absurd (cc (e, (==_iff j i).1 k))))
]

module _ (f : Fleet) (i : ℕ) (reply : Option DbError) (landed : Bool) (s : Schema)
    (safe : IsSafe s f) where
  abbrev schema' : Schema
  schema' = stored (f.sessions i) reply landed f.schema

  -- A node that works on the database while another moves
  Working-moved : (j : ℕ) → j ≢ i → Working schema' (f.sessions j)
  Working-moved j other =
      elim (stored-cases (f.sessions i) reply landed f.schema (safe.working i)) [
        | inl same ↦ subst (λ x. Working x (f.sessions j)) (sym same) (safe.working j)
        | inr (mine, e) ↦
            Working-idle schema' (f.sessions j) (λ yours. other (safe.alone j i yours mine))
      ]

  settled-moved :
      run_ddl migrate_sql f.schema ≡ some f.schema → run_ddl migrate_sql schema' ≡ some schema'
  settled-moved e = elim (stored-cases (f.sessions i) reply landed f.schema (safe.working i)) [
    | inl same ↦ subst (λ x. run_ddl migrate_sql x ≡ some x) (sym same) e
    | inr (mine, made) ↦ (migrate_sql-Settled f.schema schema' made).4
  ]

  returned-moved :
      (j : ℕ)
      → (moved f i reply landed).sessions j ≡ returned none
      → run_ddl migrate_sql schema' ≡ some schema'
  returned-moved =
      at_moved (λ x. x ≡ returned none → run_ddl migrate_sql schema' ≡ some schema') f i reply
        landed
        (λ h. elim (after-returned (f.sessions i) reply landed f.schema (safe.working i) h) [
          | inl before ↦ settled-moved (safe.settled i before)
          | inr made ↦ (migrate_sql-Settled f.schema schema' made).4
        ])
        (λ j other h. settled-moved (safe.settled j h))

  grown-moved : Extends s schema'
  grown-moved = elim (stored-cases (f.sessions i) reply landed f.schema (safe.working i)) [
    | inl same ↦ subst (Extends s) (sym same) safe.grown
    | inr (mine, made) ↦
        Extends-trans s f.schema schema' safe.grown (migrate_sql-Settled f.schema schema' made).0
  ]

  -- The node that moves holds the lock afterwards: nobody else does.
  alone_after :
      (granted : Fleet → ℕ → Type 0)
      → Exclusive granted
      → (f.sessions i ≡ bounded → reply ≡ none → granted f i)
      → holds (after (f.sessions i) reply f.schema) ≡ true
      → (j : ℕ) → holds (f.sessions j) ≡ true
      → j ≡ i
  alone_after granted exclusive asked h j k = elim (holds-after (f.sessions i) reply f.schema h) [
    | inl before ↦ safe.alone j i k before
    | inr (waiting, well) ↦ exclusive f i j (asked waiting well) k
  ]

  alone-moved :
      (granted : Fleet → ℕ → Type 0)
      → Exclusive granted
      → (f.sessions i ≡ bounded → reply ≡ none → granted f i)
      → (j k : ℕ) → holds ((moved f i reply landed).sessions j) ≡ true
      → holds ((moved f i reply landed).sessions k) ≡ true
      → j ≡ k
  unfolding moved
  alone-moved granted exclusive asked j k p q =
      let mine = alone_after granted exclusive asked in
      elim (Bool-cases (j == i)) [
        | inl a ↦ elim (Bool-cases (k == i)) [
          | inl b ↦ (==_iff j i).0 a ∙ sym ((==_iff k i).0 b)
          | inr b ↦
              absurd
                (ground (arith, a, b, p, q, mine (ground (arith, a, p)) k (ground (arith, b, q))))
        ]
        | inr a ↦ elim (Bool-cases (k == i)) [
          | inl b ↦
              absurd
                (ground (arith, a, b, p, q, mine (ground (arith, b, q)) j (ground (arith, a, p))))
          | inr b ↦ safe.alone j k (ground (arith, a, p)) (ground (arith, b, q))
        ]
      ]

module _ (granted : Fleet → ℕ → Type 0) (exclusive : Exclusive granted) where
  Step-IsSafe : (s : Schema) {f g : Fleet} → Step granted f g → IsSafe s f → IsSafe s g
  unfolding moved
  Step-IsSafe s (move f i reply landed asked) safe = record {
    alone = alone-moved f i reply landed s safe granted exclusive asked;
    working =
        at_moved (Working (stored (f.sessions i) reply landed f.schema)) f i reply landed
          (Working-after (f.sessions i) reply landed f.schema)
          (Working-moved f i reply landed s safe);
    settled = returned-moved f i reply landed s safe;
    grown = grown-moved f i reply landed s safe;
  }

  boot-IsSafe :
      (s : Schema) (f : Fleet) → ((i : ℕ) → f.sessions i ≡ starting) → f.schema ≡ s → IsSafe s f
  unfolding holds
  boot-IsSafe s f fresh e = record {
    alone = λ i j p q. absurd (ground (arith, fresh i, p));
    working = λ i. subst (Working f.schema) (sym (fresh i)) tt;
    settled = λ i h. absurd (cc (fresh i, h));
    grown = subst (Extends s) (sym e) (Extends-refl s);
  }

  -- Any number of nodes run Migrate at once on one database, in any order of their calls, any of which
  -- may fail, and so may a commit after it was carried out. If the server grants the lock to nobody
  -- while another session holds it: at most one node at a time is between its lock and the end of its
  -- transaction, so no two run the DDL together; no extension, relation or column is lost; and once
  -- Migrate has returned without an error on any node, the database is as the DDL wants it: another
  -- run succeeds and changes nothing.
  pub migrate_fleet : (s : Schema) {f : Fleet} → Reach granted s f → IsSafe s f
  migrate_fleet s (boot f fresh e) = boot-IsSafe s f fresh e
  migrate_fleet s (next r st) = Step-IsSafe s st (migrate_fleet s r)
