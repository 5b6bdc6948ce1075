-- ===== src/Store/Table/Rows.antt =====
-- About the statements of internal/store/queries.go, seen through `find`.
use seestorm_ingest.Base.{
  ℕ, ◌≡◌, refl, sym, subst, ◌∙◌, Bool, Option, none, some, List, [], ◌∷◌, map, arith, if◌then◌else◌,
  keep_if, false,
}
use mathlib.Core.Option
use seestorm_ingest.Base.Bytes.{Bytes, bytes_eq, bytes_eq_iff}
use seestorm_ingest.Store.Table.{
  AlertArgs, Row, Table, find, on_conflict, upsert_row, retire_row, retire_by_reference,
  purge_expired,
}

-- The row that an upsert leaves under its identifier.
abbrev pub upserted : AlertArgs → Option Row → Row
upserted a none = record { args = a; retired_at = none }
upserted a (some r) = on_conflict a r

pub find-upsert_row :
    (a : AlertArgs) (id : Bytes) (t : Table)
    → find id (upsert_row a t)
      ≡ (if bytes_eq a.nws_id id then some (upserted a (find a.nws_id t)) else find id t)
unfolding find upsert_row
find-upsert_row a id [] = refl
find-upsert_row a id (r ∷ t) = ground (
  arith,
  bytes_eq_iff a.nws_id id,
  bytes_eq_iff r.nws_id id,
  bytes_eq_iff r.nws_id a.nws_id,
  find-upsert_row a id t,
)

pub find-retire_by_reference :
    (now : ℕ) (ids : List Bytes) (event_type id : Bytes) (t : Table)
    → find id (retire_by_reference now ids event_type t)
      ≡ Option.map (retire_row now ids event_type) (find id t)
unfolding find retire_by_reference
find-retire_by_reference now ids event_type id [] = refl
find-retire_by_reference now ids event_type id (r ∷ t) =
    ground (arith, find-retire_by_reference now ids event_type id t)

-- No row of the list has the identifier.
abbrev pub Fresh : Bytes → Table → Type 0
Fresh id t = find id t ≡ none

pub Fresh-cons :
    (id : Bytes) (r : Row) (t : Table)
    → Fresh id (r ∷ t)
    → (bytes_eq r.nws_id id ≡ false) × Fresh id t
unfolding find
Fresh-cons id r t f = ground arith

-- The UNIQUE constraint on `nws_id`.
abbrev pub IsKeyed : Table → Type 0
IsKeyed [] = Unit {0}
IsKeyed (r ∷ t) = Fresh r.nws_id t × IsKeyed t

pub upsert_row-IsKeyed : (a : AlertArgs) (t : Table) → IsKeyed t → IsKeyed (upsert_row a t)
unfolding upsert_row
upsert_row-IsKeyed a [] k = (unfold find in refl, tt)
upsert_row-IsKeyed a (r ∷ t) k = ground (
  arith,
  bytes_eq_iff r.nws_id a.nws_id,
  bytes_eq_iff a.nws_id r.nws_id,
  find-upsert_row a r.nws_id t,
  upsert_row-IsKeyed a t k.1,
)

pub retire_by_reference-IsKeyed :
    (now : ℕ) (ids : List Bytes) (event_type : Bytes) (t : Table)
    → IsKeyed t
    → IsKeyed (retire_by_reference now ids event_type t)
unfolding retire_by_reference
retire_by_reference-IsKeyed now ids event_type [] k = tt
retire_by_reference-IsKeyed now ids event_type (r ∷ t) k = ground (
  arith,
  find-retire_by_reference now ids event_type r.nws_id t,
  retire_by_reference-IsKeyed now ids event_type t k.1,
)

pub Fresh-keep_if : (id : Bytes) (p : Row → Bool) (t : Table) → Fresh id t → Fresh id (keep_if p t)
unfolding find
Fresh-keep_if id p [] f = f
Fresh-keep_if id p (r ∷ t) f = ground (arith, Fresh-keep_if id p t)

keep_if-IsKeyed : (p : Row → Bool) (t : Table) → IsKeyed t → IsKeyed (keep_if p t)
keep_if-IsKeyed p [] k = tt
keep_if-IsKeyed p (r ∷ t) k =
    ground (arith, Fresh-keep_if r.nws_id p t k.0, keep_if-IsKeyed p t k.1)

-- A keyed table keeps the row of an identifier, or loses it, by the test of that row alone.
pub find-keep_if :
    (id : Bytes) (p : Row → Bool) (t : Table)
    → IsKeyed t
    → find id (keep_if p t)
      ≡ elim (find id t) [ none ↦ none | some r ↦ if p r then some r else none ]
unfolding find
find-keep_if id p [] k = refl
find-keep_if id p (r ∷ t) k =
    ground
      (arith, bytes_eq_iff r.nws_id id, Fresh-keep_if r.nws_id p t k.0, find-keep_if id p t k.1)

pub purge_expired-IsKeyed : (now : ℕ) (t : Table) → IsKeyed t → IsKeyed (purge_expired now t)
unfolding purge_expired
purge_expired-IsKeyed now t k = keep_if-IsKeyed _ t k

pub nws_id-find : (id : Bytes) (t : Table) (r : Row) → find id t ≡ some r → r.nws_id ≡ id
unfolding find
nws_id-find id [] r h = cc
nws_id-find id (s ∷ t) r h = ground (arith, bytes_eq_iff s.nws_id id, nws_id-find id t r)

-- A change of rows that keeps their identifiers is seen through `find`.
pub find-map :
    (f : Row → Row) (id : Bytes) (t : Table)
    → ((r : Row) → (f r).nws_id ≡ r.nws_id)
    → find id (map f t) ≡ Option.map f (find id t)
unfolding find
find-map f id [] h = refl
find-map f id (r ∷ t) h = ground (arith, h r, find-map f id t h)

pub map-IsKeyed :
    (f : Row → Row) (t : Table)
    → ((r : Row) → (f r).nws_id ≡ r.nws_id)
    → IsKeyed t
    → IsKeyed (map f t)
map-IsKeyed f [] h k = tt
map-IsKeyed f (r ∷ t) h k = (
  subst (λ id. Fresh id (map f t)) (sym (h r)) (find-map f r.nws_id t h ∙ rw k.0),
  map-IsKeyed f t h k.1,
)
