-- ===== src/Store/Supersede/Marks.antt =====
-- About retireReferenced of internal/store/supersede.go: which rows a pass retires.
use mathlib.Core.Path.{fun_ext}
use seestorm_ingest.Base.{
  ℕ, suc, ◌≡◌, refl, ap, ◌∙◌, sym, Bool, true, false, ◌&&◌, ◌||◌, not, Option, none, some, List, [],
  ◌∷◌, ◌++◌, map, arith, if◌then◌else◌, Option-cases, inr, inl, ◌⊎◌,
}
use seestorm_ingest.Base.Bytes.{Bytes, bytes_eq, bytes_eq_iff, contains}
use seestorm_ingest.Nws.Alert.{Alert, AlertReference}
use seestorm_ingest.Store.Table.Rows.{find-map, nws_id-find, map-IsKeyed, IsKeyed}
use seestorm_ingest.Store.Table.{Row, Table, is_live, retire_row, retire_by_reference, find}
use seestorm_ingest.Store.Errors.{Error}
use seestorm_ingest.Store.Supersede.{
  Groups, append_to_group, group_references, group_alerts, references_by_event_type, retire_groups,
  retire_referenced,
}

-- Some reference names the identifier. An empty identifier names nothing.
abbrev pub refers : List AlertReference → Bytes → Bool
refers [] id = false
refers (r ∷ rs) id = not (bytes_eq r.identifier []) && bytes_eq r.identifier id || refers rs id

-- Some message of the given type names the identifier.
abbrev pub supersedes : List Alert → Bytes → Bytes → Bool
supersedes [] event id = false
supersedes (a ∷ rest) event id =
    bytes_eq a.properties.event event && refers a.properties.references id
    || supersedes rest event id

-- The groups hold the identifier under the type.
abbrev pub grouped : Groups → Bytes → Bytes → Bool
grouped [] event id = false
grouped ((e, ids) ∷ gs) event id = bytes_eq e event && contains ids id || grouped gs event id

contains-append :
    (xs ys : List Bytes) (s : Bytes) → contains (xs ++ ys) s ≡ (contains xs s || contains ys s)
unfolding contains
contains-append [] ys s = refl
contains-append (x ∷ xs) ys s = ground (arith, contains-append xs ys s)

grouped-append_to_group :
    (event id : Bytes) (gs : Groups) (e i : Bytes)
    → grouped (append_to_group event id gs) e i
      ≡ (grouped gs e i || bytes_eq event e && bytes_eq id i)
unfolding append_to_group contains
grouped-append_to_group event id [] e i = ground arith
grouped-append_to_group event id ((k, ids) ∷ gs) e i = ground (
  arith,
  bytes_eq_iff k event,
  contains-append ids (id ∷ []) i,
  grouped-append_to_group event id gs e i,
)

grouped-group_references :
    (event : Bytes) (rs : List AlertReference) (out : Groups) (e i : Bytes)
    → grouped (group_references event rs out) e i
      ≡ (grouped out e i || bytes_eq event e && refers rs i)
unfolding group_references
grouped-group_references event [] out e i = ground arith
grouped-group_references event (r ∷ rs) out e i =
    let out' : Groups =
      if bytes_eq r.identifier [] then out else append_to_group event r.identifier out in
    ground (
      arith,
      grouped-group_references event rs out' e i,
      grouped-append_to_group event r.identifier out e i,
    )

grouped-group_alerts :
    (rest : List Alert) (out : Groups) (e i : Bytes)
    → grouped (group_alerts rest out) e i ≡ (grouped out e i || supersedes rest e i)
unfolding group_alerts
grouped-group_alerts [] out e i = ground arith
grouped-group_alerts (a ∷ rest) out e i = ground (
  arith,
  grouped-group_alerts rest (group_references a.properties.event a.properties.references out) e i,
  grouped-group_references a.properties.event a.properties.references out e i,
)

-- The row, retired if it is live and marked.
abbrev pub mark : ℕ → (Bytes → Bytes → Bool) → Row → Row
mark now m r =
    if is_live r && m r.event_type r.nws_id then record r { retired_at = some now } else r

abbrev pub never_fails : ℕ → Option Error
never_fails _ = none

mark-retire_row :
    (now : ℕ) (ids : List Bytes) (event : Bytes) (gs : Groups) (t : Table)
    → map (mark now (grouped gs)) (retire_by_reference now ids event t)
      ≡ map (mark now (grouped ((event, ids) ∷ gs))) t
unfolding retire_by_reference retire_row
mark-retire_row now ids event gs [] = refl
mark-retire_row now ids event gs (r ∷ t) = ground (
  arith,
  bytes_eq_iff r.event_type event,
  bytes_eq_iff event r.event_type,
  mark-retire_row now ids event gs t,
)

map-mark-nothing : (now : ℕ) (t : Table) → map (mark now (grouped [])) t ≡ t
map-mark-nothing now [] = refl
map-mark-nothing now (r ∷ t) = ground (arith, map-mark-nothing now t)

-- The groups whose statements ran.
abbrev pub completed : (ℕ → Option Error) → ℕ → Groups → Groups
completed fails k [] = []
completed fails k (g ∷ gs) = elim (fails k) [ some _ ↦ [] | none ↦ g ∷ completed fails (suc k) gs ]

-- A pass marks what the groups hold whose statements ran.
pub retire_groups-eq-mark :
    (fails : ℕ → Option Error) (k now total : ℕ) (gs : Groups) (t : Table)
    → (retire_groups fails k now total gs t).table
      ≡ map (mark now (grouped (completed fails k gs))) t
unfolding retire_groups
retire_groups-eq-mark fails k now total [] t = sym (map-mark-nothing now t)
retire_groups-eq-mark fails k now total ((event, ids) ∷ gs) t = elim (Option-cases (fails k)) [
  | inr (e, h) ↦ rw (h, retire_groups, completed) (sym (map-mark-nothing now t))
  | inl h ↦
      rw (h, retire_groups, completed)
        (retire_groups-eq-mark fails (suc k) now _ gs (retire_by_reference now ids event t)
          ∙ mark-retire_row now ids event (completed fails (suc k) gs) t)
]

pub completed_all : (k : ℕ) (gs : Groups) → completed never_fails k gs ≡ gs
completed_all k [] = refl
completed_all k (g ∷ gs) = ap (◌∷◌ g) (completed_all (suc k) gs)

grouped-completed :
    (fails : ℕ → Option Error) (k : ℕ) (gs : Groups) (e i : Bytes)
    → grouped (completed fails k gs) e i ≡ true
    → grouped gs e i ≡ true
grouped-completed fails k [] e i h = h
grouped-completed fails k ((event, ids) ∷ gs) e i h =
    ground (arith, grouped-completed fails (suc k) gs e i)

pub grouped-references :
    (alerts : List Alert) → grouped (references_by_event_type alerts) ≡ supersedes alerts
unfolding references_by_event_type
grouped-references alerts = fun_ext λ e. fun_ext λ i. grouped-group_alerts alerts [] e i

-- Where no statement fails, the pass retires exactly the live rows that some message of the batch
-- names, by a non-empty identifier, under the type of the row; all other rows stay as they are.
pub retire_referenced-eq-mark :
    (now : ℕ) (alerts : List Alert) (t : Table)
    → (retire_referenced never_fails now alerts t).table ≡ map (mark now (supersedes alerts)) t
unfolding retire_referenced
retire_referenced-eq-mark now alerts t =
    let gs = references_by_event_type alerts in
    retire_groups-eq-mark never_fails 0 now 0 gs t
    ∙ ap (λ m. map (mark now m) t) (ap grouped (completed_all 0 gs) ∙ grouped-references alerts)

-- Whatever fails, a pass leaves the row of an identifier alone, or it retires a live row that some
-- message of the batch names under the type of the row.
abbrev pub KeptOrRetired : List Alert → ℕ → Bytes → Option Row → Option Row → Type 0
KeptOrRetired alerts now id before after =
    (after ≡ before)
    ⊎ ((r : Row) × (before ≡ some r)
        × (is_live r ≡ true)
        × (supersedes alerts r.event_type id ≡ true)
        × (after ≡ some (record r { retired_at = some now })))

mark_cases :
    (now : ℕ) (m : Bytes → Bytes → Bool) (r : Row)
    → (mark now m r ≡ r)
      ⊎ ((is_live r ≡ true)
          × (m r.event_type r.nws_id ≡ true)
          × (mark now m r ≡ record r { retired_at = some now }))
mark_cases now m r = ground arith

mark-KeptOrRetired :
    (fails : ℕ → Option Error) (now : ℕ) (alerts : List Alert) (t : Table) (id : Bytes) (r : Row)
    → find id t ≡ some r
    → let done = completed fails 0 (references_by_event_type alerts) in
      KeptOrRetired alerts now id (some r) (some (mark now (grouped done) r))
mark-KeptOrRetired fails now alerts t id r e =
    let gs = references_by_event_type alerts in
    elim (mark_cases now (grouped (completed fails 0 gs)) r) [
      | inl same ↦ inl (ap some same)
      | inr (live, hit, eq) ↦
          let named : supersedes alerts r.event_type r.nws_id ≡ true =
            rw (← grouped-references alerts) (grouped-completed fails 0 gs _ _ hit) in
          inr (r, refl, live, (rw (nws_id-find id t r e) at named), ap some eq)
    ]

pub retire_referenced-KeptOrRetired :
    (fails : ℕ → Option Error) (now : ℕ) (alerts : List Alert) (t : Table) (id : Bytes)
    → KeptOrRetired alerts now id (find id t) (find id (retire_referenced fails now alerts t).table)
unfolding retire_referenced
retire_referenced-KeptOrRetired fails now alerts t id =
    let gs = references_by_event_type alerts in
    let done = completed fails 0 gs in
    rw
      (
        retire_groups-eq-mark fails 0 now 0 gs t,
        find-map (mark now (grouped done)) id t (λ r. ground arith),
      )
      (elim (Option-cases (find id t)) [
        | inl e ↦ rw e (inl refl)
        | inr (r, e) ↦ rw e (mark-KeptOrRetired fails now alerts t id r e)
      ])

pub retire_referenced-IsKeyed :
    (fails : ℕ → Option Error) (now : ℕ) (alerts : List Alert) (t : Table)
    → IsKeyed t
    → IsKeyed (retire_referenced fails now alerts t).table
unfolding retire_referenced
retire_referenced-IsKeyed fails now alerts t k =
    let gs = references_by_event_type alerts in
    rw (retire_groups-eq-mark fails 0 now 0 gs t)
      (map-IsKeyed (mark now (grouped (completed fails 0 gs))) t (λ r. ground arith) k)
