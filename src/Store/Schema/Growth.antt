-- ===== src/Store/Schema/Growth.antt =====
-- About migrateSQL of internal/store/queries.go: what it means that a schema has only grown, and that
-- what a statement asks for is there.
use mathlib.Core.List.{append-nil, append_assoc}
use seestorm_ingest.Base.{
  ap, if◌then◌else◌, ◌≡◌, refl, subst, sym, Bool, true, Option, none, some, List, [], ◌∷◌, ◌++◌,
  arith, Bool-cases, ◌∙◌, inl, inr,
}
use seestorm_ingest.Base.Bytes.{Bytes, bytes_eq, bytes_eq_iff, contains}
use seestorm_ingest.Base.Maps.{put}
use seestorm_ingest.Store.Schema.{
  Column, Relation, table, index, Schema, Statement, create_extension, create_table, create_index,
  add_column, has_column, define,
}

-- The columns as they were, and others after them.
pub record Longer (cs ds : List Column) : Type 0 where
  pub more : List Column
  pub eq : ds ≡ cs ++ more

Longer-refl : (cs : List Column) → Longer cs cs
Longer-refl cs = record { more = []; eq = sym (append-nil cs) }

Longer-trans : (cs ds es : List Column) → Longer cs ds → Longer ds es → Longer cs es
Longer-trans cs ds es h k = record {
  more = h.more ++ k.more;
  eq = k.eq ∙ ap (λ xs. xs ++ k.more) h.eq ∙ append_assoc cs h.more k.more;
}

-- What stands at a name afterwards: an index as it was, a table with its columns and perhaps more.
abbrev pub Grows : Option Relation → Option Relation → Type 0
Grows none o = Unit
Grows (some (index on cs how)) o = o ≡ some (index on cs how)
Grows (some (table cs u)) none = ⊥
Grows (some (table cs u)) (some (index on ds how)) = ⊥
Grows (some (table cs u)) (some (table ds v)) =
    ((c : Bytes) → has_column cs c ≡ true → has_column ds c ≡ true) × (v ≡ u) × Longer cs ds

pub record Extends (s t : Schema) : Type 0 where
  pub extensions : (e : Bytes) → contains s.extensions e ≡ true → contains t.extensions e ≡ true
  pub relations : (n : Bytes) → Grows (s.relations n) (t.relations n)

pub Grows-refl : (o : Option Relation) → Grows o o
Grows-refl none = tt
Grows-refl (some (index on cs how)) = refl
Grows-refl (some (table cs u)) = ((λ c h. h), refl, Longer-refl cs)

Grows-trans : (o p q : Option Relation) → Grows o p → Grows p q → Grows o q
Grows-trans none p q h k = tt
Grows-trans (some (index on cs how)) p q h k = subst (λ x. Grows x q) h k
Grows-trans (some (table cs u)) none q h k = elim h [ ]
Grows-trans (some (table cs u)) (some (index on ds how)) q h k = elim h [ ]
Grows-trans (some (table cs u)) (some (table ds v)) none h k = elim k [ ]
Grows-trans (some (table cs u)) (some (table ds v)) (some (index on es how)) h k = elim k [ ]
Grows-trans (some (table cs u)) (some (table ds v)) (some (table es w)) h k =
    ((λ c e. k.0 c (h.0 c e)), k.1 ∙ h.1, Longer-trans cs ds es h.2 k.2)

pub Extends-refl : (s : Schema) → Extends s s
Extends-refl s = record { extensions = λ e h. h; relations = λ n. Grows-refl (s.relations n) }

pub Extends-trans : (s t u : Schema) → Extends s t → Extends t u → Extends s u
Extends-trans s t u a b = record {
  extensions = λ e h. b.extensions e (a.extensions e h);
  relations = λ n.
      Grows-trans (s.relations n) (t.relations n) (u.relations n) (a.relations n) (b.relations n);
}

pub Extends-define :
    (name : Bytes) (r : Relation) (s : Schema)
    → Grows (s.relations name) (some r)
    → Extends s (define name r s)
unfolding put
Extends-define name r s g = record {
  extensions = λ e h. h;
  relations = λ n. elim (Bool-cases (bytes_eq n name)) [
    | inl same ↦
        subst (λ (b : Bool). Grows (s.relations n) (if b then some r else s.relations n)) (sym same)
          (subst (λ (m : Bytes). Grows (s.relations m) (some r))
            (sym ((bytes_eq_iff n name).0 same)) g)
    | inr other ↦
        subst (λ (b : Bool). Grows (s.relations n) (if b then some r else s.relations n))
          (sym other) (Grows-refl (s.relations n))
  ];
}

pub has_column-append :
    (cs ds : List Column) (c : Bytes) → has_column cs c ≡ true → has_column (cs ++ ds) c ≡ true
unfolding has_column
has_column-append [] ds c h = cc
has_column-append (x ∷ cs) ds c h = ground (arith, has_column-append cs ds c)

pub has_column-last : (cs : List Column) (c : Column) → has_column (cs ++ c ∷ []) c.name ≡ true
unfolding has_column
has_column-last [] c = ground (arith, bytes_eq_iff c.name c.name)
has_column-last (x ∷ cs) c = ground (arith, has_column-last cs c)

-- What stands at a name: anything, a table, a table with this column.
abbrev pub IsThere : Option Relation → Type 0
IsThere none = ⊥
IsThere (some r) = Unit

abbrev pub IsTable : Option Relation → Type 0
IsTable none = ⊥
IsTable (some (index on cs how)) = ⊥
IsTable (some (table cs u)) = Unit

abbrev pub HasColumn : Bytes → Option Relation → Type 0
HasColumn c none = ⊥
HasColumn c (some (index on cs how)) = ⊥
HasColumn c (some (table cs u)) = has_column cs c ≡ true

IsThere-Grows : (o p : Option Relation) → Grows o p → IsThere o → IsThere p
IsThere-Grows none p g h = elim h [ ]
IsThere-Grows (some (index on cs how)) p g h = subst IsThere (sym g) tt
IsThere-Grows (some (table cs u)) none g h = g
IsThere-Grows (some (table cs u)) (some r) g h = tt

pub IsTable-Grows : (o p : Option Relation) → Grows o p → IsTable o → IsTable p
IsTable-Grows none p g h = elim h [ ]
IsTable-Grows (some (index on cs how)) p g h = elim h [ ]
IsTable-Grows (some (table cs u)) none g h = g
IsTable-Grows (some (table cs u)) (some (index on ds how)) g h = g
IsTable-Grows (some (table cs u)) (some (table ds v)) g h = tt

HasColumn-Grows : (c : Bytes) (o p : Option Relation) → Grows o p → HasColumn c o → HasColumn c p
HasColumn-Grows c none p g h = elim h [ ]
HasColumn-Grows c (some (index on cs how)) p g h = elim h [ ]
HasColumn-Grows c (some (table cs u)) none g h = g
HasColumn-Grows c (some (table cs u)) (some (index on ds how)) g h = g
HasColumn-Grows c (some (table cs u)) (some (table ds v)) g h = g.0 c h

-- What a statement asks for is there.
abbrev pub Holds : Statement → Schema → Type 0
Holds (create_extension name) s = contains s.extensions name ≡ true
Holds (create_table name cs u) s = IsThere (s.relations name)
Holds (create_index name on cs how) s = IsTable (s.relations on) × IsThere (s.relations name)
Holds (add_column on c) s = HasColumn c.name (s.relations on)

pub Holds-Extends : (c : Statement) (s t : Schema) → Extends s t → Holds c s → Holds c t
Holds-Extends (create_extension name) s t x h = x.extensions name h
Holds-Extends (create_table name cs u) s t x h = IsThere-Grows _ _ (x.relations name) h
Holds-Extends (create_index name on cs how) s t x h =
    (IsTable-Grows _ _ (x.relations on) h.0, IsThere-Grows _ _ (x.relations name) h.1)
Holds-Extends (add_column on c) s t x h = HasColumn-Grows c.name _ _ (x.relations on) h
