-- ===== src/Store/Schema/Created.antt =====
-- About migrateSQL of internal/store/queries.go: a table that was not there before.
use seestorm_ingest.Base.{
  ◌≡◌, subst, ◌∙◌, Bool, false, Option, none, some, List, [], ◌∷◌, arith, Option-cases, inl, inr,
  ◌⊎◌, ap,
}
use seestorm_ingest.Base.Bytes.{Bytes, bytes_eq}
use seestorm_ingest.Base.Maps.{put, put-same}
use seestorm_ingest.Store.Schema.{
  Column, Relation, table, index, Schema, Statement, create_extension, create_table, create_index,
  add_column, new_table, new_index, new_column, apply, run_ddl,
}
use seestorm_ingest.Store.Schema.Growth.{Grows, Longer}
use seestorm_ingest.Store.Schema.Settled.{run_ddl-Made}

-- The statement may change what stands at the name.
abbrev touches : Bytes → Statement → Bool
touches name (create_extension e) = false
touches name (create_table n cs u) = bytes_eq name n
touches name (create_index n on cs how) = bytes_eq name n
touches name (add_column on c) = bytes_eq name on

apply-other :
    (name : Bytes) (c : Statement) (s u : Schema)
    → apply c s ≡ some u
    → touches name c ≡ false
    → u.relations name ≡ s.relations name
unfolding apply new_table new_index new_column put
apply-other name (create_extension e) s u h k = ground (arith, h)
apply-other name (create_table n cs q) s u h k = ground (arith, h, k)
apply-other name (create_index n on cs how) s u h k = ground (arith, h, k)
apply-other name (add_column on c) s u h k = ground (arith, h, k)

-- The first statement about the name creates this table.
abbrev pub Creates : Bytes → List Column → List Bytes → List Statement → Type 0
Creates name cs u [] = ⊥
Creates name cs u (c ∷ ddl) =
    (c ≡ create_table name cs u) ⊎ ((touches name c ≡ false) × Creates name cs u ddl)

-- The table with its constraint, and perhaps with more columns.
pub record Created (cs : List Column) (u : List Bytes) (o : Option Relation) : Type 0 where
  pub columns : List Column
  pub is_table : o ≡ some (table columns u)
  pub longer : Longer cs columns

Created-Grows :
    (cs : List Column) (u : List Bytes) (o : Option Relation)
    → Grows (some (table cs u)) o
    → Created cs u o
Created-Grows cs u none g = elim g [ ]
Created-Grows cs u (some (index on ds how)) g = elim g [ ]
Created-Grows cs u (some (table ds v)) g = record {
  columns = ds;
  is_table = ap (λ w. some (table ds w)) g.1;
  longer = g.2;
}

create_table-new :
    (name : Bytes) (cs : List Column) (u : List Bytes) (s t : Schema)
    → s.relations name ≡ none
    → apply (create_table name cs u) s ≡ some t
    → t.relations name ≡ some (table cs u)
unfolding apply new_table
create_table-new name cs u s t e h = ground (arith, e, h, put-same name (table cs u) s.relations)

pub run_ddl-Created :
    (name : Bytes) (cs : List Column) (u : List Bytes) (ddl : List Statement) (s t : Schema)
    → Creates name cs u ddl
    → s.relations name ≡ none
    → run_ddl ddl s ≡ some t
    → Created cs u (t.relations name)
unfolding run_ddl
run_ddl-Created name cs u [] s t k e h = elim k [ ]
run_ddl-Created name cs u (c ∷ ddl) s t k e h = elim (Option-cases (apply c s)) [
  | inl f ↦ absurd (ground (arith, f))
  | inr (v, f) ↦
      let rest : run_ddl ddl v ≡ some t = ground (arith, f) in
      elim k [
        | inl here ↦
            let made : v.relations name ≡ some (table cs u) =
              create_table-new name cs u s v e (rw here at f) in
            Created-Grows cs u _ (
              subst (λ o. Grows o (t.relations name)) made
                ((run_ddl-Made ddl v t rest).0.relations name))
        | inr (other, later) ↦
            run_ddl-Created name cs u ddl v t later (apply-other name c s v f other ∙ e) rest
      ]
]
