-- ===== src/Store/Batch/Steps.antt =====
-- About the loops of UpsertAlertsBatch of internal/store/postgres.go: what upserts do to the row of an
-- identifier.
use seestorm_ingest.Base.{
  ℕ, ◌≡◌, refl, sym, subst, ◌∙◌, inl, inr, Option, none, some, List, [], ◌∷◌, map, arith,
  Bool-cases, All, All-map, ◌++◌,
}
use seestorm_ingest.Base.Bytes.{Bytes, bytes_eq, bytes_eq_iff}
use seestorm_ingest.Nws.Alert.{Alert}
use seestorm_ingest.Store.Args.{Codec, args, alert_upsert_args}
use seestorm_ingest.Store.Table.{AlertArgs, Row, Table, find, upsert_row, on_conflict}
use seestorm_ingest.Store.Table.Rows.{find-upsert_row, upserted, IsKeyed, upsert_row-IsKeyed}
use seestorm_ingest.Store.Batch.{exec_queued}

-- The row is still there, and its `retired_at` is what it was.
abbrev pub SameMark : Option Row → Option Row → Type 0
SameMark none after = Unit {0}
SameMark (some r) after = (r' : Row) × (after ≡ some r') × (r'.retired_at ≡ r.retired_at)

pub SameMark-refl : (o : Option Row) → SameMark o o
SameMark-refl none = tt
SameMark-refl (some r) = (r, refl, refl)

SameMark-trans : (a b c : Option Row) → SameMark a b → SameMark b c → SameMark a c
SameMark-trans none b c p q = tt
SameMark-trans (some r) none c p q = ground arith
SameMark-trans (some r) (some s) c p q = (q.0, q.1, ground arith)

-- Each row of the first table persists in the second, and both are keyed.
pub record Upserts (t u : Table) : Type 0 where
  pub same : (id : Bytes) → SameMark (find id t) (find id u)
  pub keyed : IsKeyed u

pub Upserts-refl : (t : Table) → IsKeyed t → Upserts t t
Upserts-refl t k = record { same = λ id. SameMark-refl (find id t); keyed = k }

pub Upserts-trans : (t u v : Table) → Upserts t u → Upserts u v → Upserts t v
Upserts-trans t u v p q = record {
  same = λ id. SameMark-trans (find id t) (find id u) (find id v) (p.same id) (q.same id);
  keyed = q.keyed;
}

SameMark-upserted : (a : AlertArgs) (o : Option Row) → SameMark o (some (upserted a o))
SameMark-upserted a none = tt
SameMark-upserted a (some r) = (on_conflict a r, refl, unfold on_conflict in refl)

SameMark-upsert_row :
    (a : AlertArgs) (t : Table) (id : Bytes) → SameMark (find id t) (find id (upsert_row a t))
SameMark-upsert_row a t id = elim (Bool-cases (bytes_eq a.nws_id id)) [
  | inl same ↦
      rw (find-upsert_row a id t, same)
        (subst (λ j. SameMark (find id t) (some (upserted a (find j t))))
          (sym ((bytes_eq_iff a.nws_id id).0 same)) (SameMark-upserted a (find id t)))
  | inr other ↦ rw (find-upsert_row a id t, other) (SameMark-refl (find id t))
]

pub upsert_row-Upserts : (a : AlertArgs) (t : Table) → IsKeyed t → Upserts t (upsert_row a t)
upsert_row-Upserts a t k = record {
  same = SameMark-upsert_row a t;
  keyed = upsert_row-IsKeyed a t k;
}

-- The table has a row of the identifier.
abbrev pub HasRow : Table → Bytes → Type 0
HasRow t id = (r : Row) × (find id t ≡ some r)

pub HasRow-Upserts : (t u : Table) (id : Bytes) → Upserts t u → HasRow t id → HasRow u id
HasRow-Upserts t u id k (r, e) =
    let (r', after, _) = subst (λ o. SameMark o (find id u)) e (k.same id) in (r', after)

pub upsert_row-HasRow : (a : AlertArgs) (t : Table) → HasRow (upsert_row a t) a.nws_id
upsert_row-HasRow a t = (
  upserted a (find a.nws_id t),
  find-upsert_row a a.nws_id t ∙ rw ((bytes_eq_iff a.nws_id a.nws_id).1 refl),
)

-- The statement of an alert is about the row of the alert's identifier.
abbrev pub IsFor : Alert × AlertArgs → Type 0
IsFor p = p.1.nws_id ≡ p.0.properties.id

pub alert_upsert_args-IsFor :
    (codec : Codec) (alert : Alert) (received_at : ℕ) (a : AlertArgs)
    → alert_upsert_args codec alert received_at ≡ args a
    → IsFor (alert, a)
unfolding alert_upsert_args
alert_upsert_args-IsFor codec alert received_at a h = ground arith

pub exec_queued-Upserts :
    (q : List (Alert × AlertArgs)) (t : Table) → IsKeyed t → Upserts t (exec_queued q t)
unfolding exec_queued
exec_queued-Upserts [] t k = Upserts-refl t k
exec_queued-Upserts ((alert, a) ∷ q) t k =
    let first = upsert_row-Upserts a t k in
    Upserts-trans t (upsert_row a t) _ first (exec_queued-Upserts q (upsert_row a t) first.keyed)

pub exec_queued-HasRow :
    (q : List (Alert × AlertArgs)) (t : Table)
    → IsKeyed t
    → All IsFor q
    → All (λ (alert : Alert). HasRow (exec_queued q t) alert.properties.id) (map (λ p. p.0) q)
unfolding exec_queued
exec_queued-HasRow [] t k h = tt
exec_queued-HasRow ((alert, a) ∷ q) t k h =
    let u = upsert_row a t in
    let keyed = upsert_row-IsKeyed a t k in
    (
      subst (HasRow (exec_queued q u)) h.0
          (HasRow-Upserts u _ a.nws_id (exec_queued-Upserts q u keyed) (upsert_row-HasRow a t)),
      exec_queued-HasRow q u keyed h.1,
    )

-- The statement is the one that the program makes of the alert, at some time of receipt.
abbrev pub Made : Codec → Alert × AlertArgs → Type 0
Made codec p = (received_at : ℕ) × (alert_upsert_args codec p.0 received_at ≡ args p.1)

-- Every alert in the queue is one that satisfies `P`, with a statement of its own.
abbrev pub Queued {ℓ} : Codec → (Alert → Type ℓ) → List (Alert × AlertArgs) → Type ℓ
Queued codec P q = All (λ p. P p.0 × Made codec p) q

module _ {ℓ} (codec : Codec) (P : Alert → Type ℓ) where
  pub Queued-chosen : (q : List (Alert × AlertArgs)) → Queued codec P q → All P (map (λ p. p.0) q)
  Queued-chosen [] h = tt
  Queued-chosen (x ∷ q) h = (h.0.0, Queued-chosen q h.1)

  Queued-IsFor : (q : List (Alert × AlertArgs)) → Queued codec P q → All IsFor q
  Queued-IsFor q h = All-map _ _ q (λ p k. alert_upsert_args-IsFor codec p.0 k.1.0 p.1 k.1.1) h

  pub Queued-HasRow :
      (q : List (Alert × AlertArgs)) (t : Table)
      → IsKeyed t
      → Queued codec P q
      → All (λ (alert : Alert). HasRow (exec_queued q t) alert.properties.id) (map (λ p. p.0) q)
  Queued-HasRow q t k h = exec_queued-HasRow q t k (Queued-IsFor q h)

-- What each statement of the queue preserves, the queue preserves.
pub exec_queued-Inv {ℓ κ} :
    (codec : Codec) (P : Alert → Type ℓ) (Inv : Table → Type κ)
    → ((alert : Alert) (a : AlertArgs) (t : Table)
        → P alert
        → Made codec (alert, a)
        → Inv t
        → Inv (upsert_row a t))
    → (q : List (Alert × AlertArgs)) (t : Table) → Queued codec P q
    → Inv t
    → Inv (exec_queued q t)
unfolding exec_queued
exec_queued-Inv codec P Inv step [] t h i = i
exec_queued-Inv codec P Inv step ((alert, a) ∷ q) t h i =
    exec_queued-Inv codec P Inv step q (upsert_row a t) h.1 (step alert a t h.0.0 h.0.1 i)

pub exec_queued-append :
    (q : List (Alert × AlertArgs)) (alert : Alert) (a : AlertArgs) (t : Table)
    → exec_queued (q ++ (alert, a) ∷ []) t ≡ upsert_row a (exec_queued q t)
unfolding exec_queued
exec_queued-append [] alert a t = refl
exec_queued-append ((b, x) ∷ q) alert a t = exec_queued-append q alert a (upsert_row x t)
