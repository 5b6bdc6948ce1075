-- ===== src/Store/Reading/Complete.antt =====
-- About GetActiveAlerts of internal/store/postgres.go: what a snapshot holds.
use seestorm_ingest.Base.{
  Sum-cases, All-both, ℕ, suc, ◌≡◌, refl, sym, ◌⊎◌, inl, inr, Bool, true, false, List, [], ◌∷◌,
  arith, All, Option-cases, Bool-cases, keep_if, if◌then◌else◌, ltb, subst, All-map,
}
use seestorm_ingest.Base.Bytes.{Bytes}
use seestorm_ingest.Base.Int.{ℤ}
use seestorm_ingest.Store.Active.{ActiveAlert}
use seestorm_ingest.Store.Table.{
  Row, Table, is_active, active_rows, order_by_effective, insert_desc,
}
use seestorm_ingest.Store.Collapse.{collapse_by_event, later_issuance}
use seestorm_ingest.Store.Collapse.Survivors.{
  Covers, OnePerKey, collapse_by_event-Covers, keep_plain-collapse_by_event, is_plain,
  collapse_by_event-OnePerKey,
}
use seestorm_ingest.Store.Reading.{
  Decoders, Query, enrich, enrich_rows, finish_rows, get_active_alerts,
}

module _ (P : Row → Type 0) where
  insert_desc-All : (r : Row) (rows : List Row) → All P (insert_desc r rows) → P r × All P rows
  unfolding insert_desc
  insert_desc-All r [] h = h
  insert_desc-All r (s ∷ rows) h = elim (Bool-cases (ltb r.effective_at s.effective_at)) [
    | inl e ↦
        let k : All P (s ∷ insert_desc r rows) =
          subst (λ (b : Bool). All P (if b then s ∷ insert_desc r rows else r ∷ s ∷ rows)) e h in
        let ih = insert_desc-All r rows k.1 in (ih.0, (k.0, ih.1))
    | inr e ↦ subst (λ (b : Bool). All P (if b then s ∷ insert_desc r rows else r ∷ s ∷ rows)) e h
  ]

  order_by_effective-All : (rows : List Row) → All P (order_by_effective rows) → All P rows
  unfolding order_by_effective
  order_by_effective-All [] h = tt
  order_by_effective-All (r ∷ rows) h =
      let k = insert_desc-All r (order_by_effective rows) h in
      (k.0, order_by_effective-All rows k.1)

module _ {A : Type 0} (P : A → Type 0) where
  keep_if-All : (p : A → Bool) (t : List A) → All P (keep_if p t) → All (λ r. p r ≡ true → P r) t
  keep_if-All p [] h = tt
  keep_if-All p (r ∷ t) h = elim (Bool-cases (p r)) [
    | inl e ↦
        let k : All P (r ∷ keep_if p t) =
          subst (λ (b : Bool). All P (elim b [ true ↦ r ∷ keep_if p t | false ↦ keep_if p t ])) e
            h in
        ((λ x. k.0), keep_if-All p t k.1)
    | inr e ↦ (
      (λ x. absurd (ground arith)),
      keep_if-All p t (
          subst (λ (b : Bool). All P (elim b [ true ↦ r ∷ keep_if p t | false ↦ keep_if p t ])) e
            h),
    )
  ]

-- An alert with this identifier is in the list.
abbrev pub HasId : List ActiveAlert → Bytes → Type 0
HasId [] id = ⊥
HasId (a ∷ alerts) id = (a.nws_id ≡ id) ⊎ HasId alerts id

keep_if-HasId :
    (p : ActiveAlert → Bool) (alerts : List ActiveAlert) (id : Bytes)
    → HasId (keep_if p alerts) id
    → HasId alerts id
keep_if-HasId p [] id h = h
keep_if-HasId p (a ∷ alerts) id h = elim (Bool-cases (p a)) [
  | inl e ↦
      let k : HasId (a ∷ keep_if p alerts) id =
        subst
          (λ (b : Bool).
            HasId (elim b [ true ↦ a ∷ keep_if p alerts | false ↦ keep_if p alerts ]) id)
          e h in
      elim k [ inl same ↦ inl same | inr later ↦ inr (keep_if-HasId p alerts id later) ]
  | inr e ↦ inr (
      keep_if-HasId p alerts id (
        subst
          (λ (b : Bool).
            HasId (elim b [ true ↦ a ∷ keep_if p alerts | false ↦ keep_if p alerts ]) id)
          e h))
]

HasId-self : (alerts : List ActiveAlert) → All (λ a. HasId alerts a.nws_id) alerts
HasId-self [] = tt
HasId-self (a ∷ alerts) = (inl refl, All-map _ _ alerts (λ b h. inr h) (HasId-self alerts))

-- The snapshot has the alert's event, as it stands after it, and if it has no event, the alert.
abbrev pub Kept : List ActiveAlert → ActiveAlert → Type 0
Kept snapshot a = Covers snapshot a × (is_plain a ≡ true → HasId snapshot a.nws_id)

collapse_by_event-Kept : (alerts : List ActiveAlert) → All (Kept (collapse_by_event alerts)) alerts
collapse_by_event-Kept alerts =
    let s = collapse_by_event alerts in
    let Present : ActiveAlert → Type 0 = λ a. HasId (keep_if is_plain s) a.nws_id in
    let present : All Present (keep_if is_plain alerts) =
      subst (All Present) (keep_plain-collapse_by_event alerts) (HasId-self (keep_if is_plain s)) in
    All-both (Covers s) (λ a. is_plain a ≡ true → HasId s a.nws_id) alerts
      (collapse_by_event-Covers alerts)
      (All-map (λ a. is_plain a ≡ true → Present a) _ alerts
        (λ a h e. keep_if-HasId is_plain s a.nws_id (h e))
        (keep_if-All Present is_plain alerts present))

module _ (d : Decoders) (q : Query) where
  -- The clock at a row shows in the motion alone.
  Covers-enrich :
      (r : Row) (x y : ℤ) (snapshot : List ActiveAlert)
      → Covers snapshot (enrich d x r)
      → Covers snapshot (enrich d y r)
  unfolding enrich later_issuance
  Covers-enrich r x y [] h = elim h [ ]
  Covers-enrich r x y (a ∷ snapshot) (inl h) = inl h
  Covers-enrich r x y (a ∷ snapshot) (inr h) = inr (Covers-enrich r x y snapshot h)

  enrich_rows-Kept :
      (at : ℤ) (snapshot : List ActiveAlert) (i : ℕ) (rows : List Row) (alerts : List ActiveAlert)
      → enrich_rows d q i rows ≡ inr alerts
      → All (Kept snapshot) alerts
      → All (λ r. Kept snapshot (enrich d at r)) rows
  unfolding enrich_rows
  enrich_rows-Kept at snapshot i [] alerts e h = tt
  enrich_rows-Kept at snapshot i (r ∷ rows) alerts e h = elim (Option-cases (q.scan_fails i)) [
    | inr (x, n) ↦ absurd (ground (arith, n))
    | inl n ↦ elim (Sum-cases (enrich_rows d q (suc i) rows)) [
      | inl (x, m) ↦ absurd (ground (arith, n, m))
      | inr (rest, m) ↦
          let f : enrich d (q.now i) r ∷ rest ≡ alerts = ground (arith, n, m) in
          let k : All (Kept snapshot) (enrich d (q.now i) r ∷ rest) =
            subst (All (Kept snapshot)) (sym f) h in
          (
            (Covers-enrich r (q.now i) at snapshot (k.0).0, (k.0).1),
            enrich_rows-Kept at snapshot (suc i) rows rest m k.1,
          )
    ]
  ]

  -- A snapshot that is read without an error has at most one alert for each VTEC event, type and area,
  -- and leaves out no alert that is in force. For each row of the table that has neither expired nor been
  -- retired, whatever of it fails to parse: if it has no VTEC event, or none that parses, the snapshot
  -- has an alert with its identifier; and if it has one, the snapshot has an alert of the same event,
  -- type and area that is no earlier issuance.
  pub get_active_alerts-Kept :
      (at : ℤ) (t : Table) (snapshot : List ActiveAlert)
      → get_active_alerts d q t ≡ inr snapshot
      → OnePerKey snapshot
        × All (λ r. is_active q.db_now r ≡ true → Kept snapshot (enrich d at r)) t
  unfolding get_active_alerts finish_rows active_rows
  get_active_alerts-Kept at t snapshot h = elim (Option-cases q.query_fails) [
    | inr (x, n) ↦ absurd (ground (arith, n))
    | inl n ↦ elim (Sum-cases (enrich_rows d q 0 (active_rows q.db_now t))) [
      | inl (x, m) ↦ absurd (ground (arith, n, m))
      | inr (alerts, m) ↦ elim (Option-cases q.rows_err) [
        | inr (x, k) ↦ absurd (ground (arith, n, m, k))
        | inl k ↦
            let e : collapse_by_event alerts ≡ snapshot = ground (arith, n, m, k) in
            let covered = subst (λ s. All (Kept s) alerts) e (collapse_by_event-Kept alerts) in
            let rows = enrich_rows-Kept at snapshot 0 (active_rows q.db_now t) alerts m covered in
            (
              subst OnePerKey e (collapse_by_event-OnePerKey alerts).0,
              keep_if-All (λ r. Kept snapshot (enrich d at r)) (is_active q.db_now) t
                  (order_by_effective-All (λ r. Kept snapshot (enrich d at r)) _ rows),
            )
      ]
    ]
  ]
