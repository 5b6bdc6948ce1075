-- ===== src/Store/Schema/Settled.antt =====
-- About migrateSQL of internal/store/queries.go: a schema that it has been run on needs it no more.
use seestorm_ingest.Base.{
  ◌≡◌, refl, subst, sym, true, Option, none, some, List, [], ◌∷◌, ◌++◌, All, arith, Bool-cases,
  Option-cases, inl, inr,
}
use seestorm_ingest.Base.Bytes.{Bytes, bytes_eq_iff, contains}
use seestorm_ingest.Base.Maps.{put-same}
use seestorm_ingest.Store.Schema.{
  Column, Relation, table, index, Schema, Statement, create_extension, create_table, create_index,
  add_column, has_column, has_columns, new_table, new_index, new_column, apply, run_ddl, define,
  are_known, is_known,
}
use seestorm_ingest.Store.Schema.Growth.{
  Grows, Extends, Extends-define, Extends-refl, Extends-trans, has_column-append, has_column-last,
  IsTable-Grows, Holds-Extends, Grows-refl, IsThere, IsTable, HasColumn, Holds,
}

new_table-same :
    (o : Option Relation) (name : Bytes) (cs : List Column) (u : List Bytes) (s : Schema)
    → IsThere o
    → new_table o name cs u s ≡ some s
unfolding new_table
new_table-same none name cs u s h = elim h [ ]
new_table-same (some r) name cs u s h = refl

new_index-same :
    (o p : Option Relation) (name on : Bytes) (cs : List Bytes) (how : Bytes) (s : Schema)
    → IsTable o
    → IsThere p
    → new_index o p name on cs how s ≡ some s
unfolding new_index
new_index-same none p name on cs how s h k = elim h [ ]
new_index-same (some (index _ _ _)) p name on cs how s h k = elim h [ ]
new_index-same (some (table ds u)) none name on cs how s h k = elim k [ ]
new_index-same (some (table ds u)) (some r) name on cs how s h k = refl

new_column-same :
    (o : Option Relation) (on : Bytes) (c : Column) (s : Schema)
    → HasColumn c.name o
    → new_column o on c s ≡ some s
unfolding new_column
new_column-same none on c s h = elim h [ ]
new_column-same (some (index _ _ _)) on c s h = elim h [ ]
new_column-same (some (table cs u)) on c s h = rw h refl

apply-same : (c : Statement) (s : Schema) → Holds c s → apply c s ≡ some s
unfolding apply
apply-same (create_extension name) s h = rw h refl
apply-same (create_table name cs u) s h = new_table-same (s.relations name) name cs u s h
apply-same (create_index name on cs how) s h =
    new_index-same (s.relations on) (s.relations name) name on cs how s h.0 h.1
apply-same (add_column on c) s h = new_column-same (s.relations on) on c s h

pub some_inj : {A : Type 0} {x y : A} → some x ≡ some y → x ≡ y
some_inj h = cc

contains-first : (e : Bytes) (xs : List Bytes) → contains (e ∷ xs) e ≡ true
unfolding contains
contains-first e xs = ground (arith, bytes_eq_iff e e)

contains-later :
    (x : Bytes) (xs : List Bytes) (e : Bytes) → contains xs e ≡ true → contains (x ∷ xs) e ≡ true
unfolding contains
contains-later x xs e h = ground arith

-- What a statement leaves: all that was there, and what it asks for.
abbrev Made : Statement → Schema → Schema → Type 0
Made c s t = Extends s t × Holds c t

IsThere-of : (r : Relation) (o : Option Relation) → o ≡ some r → IsThere o
IsThere-of r o e = subst IsThere (sym e) tt

new_table-Made :
    (o : Option Relation) (name : Bytes) (cs : List Column) (u : List Bytes) (s t : Schema)
    → s.relations name ≡ o
    → new_table o name cs u s ≡ some t
    → Made (create_table name cs u) s t
unfolding new_table
new_table-Made (some r) name cs u s t e h =
    subst (Made (create_table name cs u) s) (some_inj h) (Extends-refl s, IsThere-of r _ e)
new_table-Made none name cs u s t e h = elim (Bool-cases (are_known s.extensions cs)) [
  | inr unknown ↦ absurd (ground (arith, unknown))
  | inl known ↦
      let f : define name (table cs u) s ≡ t = ground (arith, known) in
      subst (Made (create_table name cs u) s) f (
        Extends-define name (table cs u) s (subst (λ o. Grows o (some (table cs u))) (sym e) tt),
        IsThere-of (table cs u) _ (put-same name (table cs u) s.relations),
      )
]

new_index-Made :
    (o p : Option Relation) (name on : Bytes) (cs : List Bytes) (how : Bytes) (s t : Schema)
    → s.relations on ≡ o
    → s.relations name ≡ p
    → new_index o p name on cs how s ≡ some t
    → Made (create_index name on cs how) s t
unfolding new_index
new_index-Made none p name on cs how s t e f h = absurd (ground arith)
new_index-Made (some (index _ _ _)) p name on cs how s t e f h = absurd (ground arith)
new_index-Made (some (table ds u)) (some r) name on cs how s t e f h =
    subst (Made (create_index name on cs how) s) (some_inj h)
      (Extends-refl s, (subst IsTable (sym e) tt, IsThere-of r _ f))
new_index-Made (some (table ds u)) none name on cs how s t e f h =
    elim (Bool-cases (has_columns ds cs)) [
      | inr missing ↦ absurd (ground (arith, missing))
      | inl all ↦
          let g : define name (index on cs how) s ≡ t = ground (arith, all) in
          let x =
            Extends-define name (index on cs how) s
              (subst (λ o. Grows o (some (index on cs how))) (sym f) tt) in
          subst (Made (create_index name on cs how) s) g (
            x,
            (
              IsTable-Grows _ _ (x.relations on) (subst IsTable (sym e) tt),
              IsThere-of (index on cs how) _ (put-same name (index on cs how) s.relations),
            ),
          )
    ]

new_column-Made :
    (o : Option Relation) (on : Bytes) (c : Column) (s t : Schema)
    → s.relations on ≡ o
    → new_column o on c s ≡ some t
    → Made (add_column on c) s t
unfolding new_column
new_column-Made none on c s t e h = absurd (ground arith)
new_column-Made (some (index _ _ _)) on c s t e h = absurd (ground arith)
new_column-Made (some (table cs u)) on c s t e h = elim (Bool-cases (has_column cs c.name)) [
  | inl old ↦
      let f : s ≡ t = ground (arith, old) in
      subst (Made (add_column on c) s) f (Extends-refl s, subst (HasColumn c.name) (sym e) old)
  | inr new ↦ elim (Bool-cases (is_known s.extensions c.type)) [
    | inr unknown ↦ absurd (ground (arith, new, unknown))
    | inl known ↦
        let r = table (cs ++ c ∷ []) u in
        let f : define on r s ≡ t = ground (arith, new, known) in
        subst (Made (add_column on c) s) f (
          Extends-define on r s (
              subst (λ o. Grows o (some r)) (sym e)
                (
                  (λ d h. has_column-append cs (c ∷ []) d h),
                  refl,
                  record { more = c ∷ []; eq = refl },
                )),
          subst (HasColumn c.name) (sym (put-same on r s.relations)) (has_column-last cs c),
        )
  ]
]

apply-Made : (c : Statement) (s t : Schema) → apply c s ≡ some t → Made c s t
unfolding apply
apply-Made (create_extension name) s t h = elim (Bool-cases (contains s.extensions name)) [
  | inl old ↦
      let f : s ≡ t = ground (arith, old) in
      subst (Made (create_extension name) s) f (Extends-refl s, old)
  | inr new ↦
      let f : record s { extensions = name ∷ s.extensions } ≡ t = ground (arith, new) in
      subst (Made (create_extension name) s) f (
        record {
          extensions = λ e k. contains-later name s.extensions e k;
          relations = λ n. Grows-refl (s.relations n);
        },
        contains-first name s.extensions,
      )
]
apply-Made (create_table name cs u) s t h = new_table-Made (s.relations name) name cs u s t refl h
apply-Made (create_index name on cs how) s t h =
    new_index-Made (s.relations on) (s.relations name) name on cs how s t refl refl h
apply-Made (add_column on c) s t h = new_column-Made (s.relations on) on c s t refl h

pub run_ddl-Made :
    (cs : List Statement) (s t : Schema)
    → run_ddl cs s ≡ some t
    → Extends s t × All (λ c. Holds c t) cs
unfolding run_ddl
run_ddl-Made [] s t h = (subst (Extends s) (some_inj h) (Extends-refl s), tt)
run_ddl-Made (c ∷ cs) s t h = elim (Option-cases (apply c s)) [
  | inl e ↦ absurd (ground (arith, e))
  | inr (u, e) ↦
      let (x, held) = apply-Made c s u e in
      let (y, rest) = run_ddl-Made cs u t (ground (arith, e)) in
      (Extends-trans s u t x y, (Holds-Extends c u t y held, rest))
]

pub run_ddl-same :
    (cs : List Statement) (s : Schema) → All (λ c. Holds c s) cs → run_ddl cs s ≡ some s
unfolding run_ddl
run_ddl-same [] s h = refl
run_ddl-same (c ∷ cs) s h = rw (apply-same c s h.0, run_ddl) (run_ddl-same cs s h.1)
