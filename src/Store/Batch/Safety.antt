-- ===== src/Store/Batch/Safety.antt =====
-- About UpsertAlertsBatch of internal/store/postgres.go: what a batch can do to earlier rows.
use seestorm_ingest.Base.{
  none, ◌≢◌, Bool-cases, All-both, ap, ℕ, ◌≡◌, refl, subst, ◌∙◌, ◌⊎◌, inl, inr, true, Option, some,
  List, arith, All, All-map, Mem, false, sym,
}
use seestorm_ingest.Base.Bytes.{Bytes}
use seestorm_ingest.Nws.Alert.{Alert}
use seestorm_ingest.Store.Errors.{Error}
use seestorm_ingest.Store.Args.{Codec}
use seestorm_ingest.Store.Table.{Row, Table, find, is_live}
use seestorm_ingest.Store.Table.Rows.{IsKeyed}
use seestorm_ingest.Store.Supersede.{retire_referenced}
use seestorm_ingest.Store.Supersede.Marks.{
  retire_referenced-KeptOrRetired, KeptOrRetired, supersedes,
}
use seestorm_ingest.Store.Batch.{Surroundings, upsert_alerts_batch}
use seestorm_ingest.Store.Batch.Steps.{SameMark, HasRow}
use seestorm_ingest.Store.Batch.Halves.{
  Written, Persists, Persists-retire_referenced, Written-Persists, Written-IsKeyed, Persists-trans,
  halves,
}

module _ (codec : Codec) (w : Surroundings) (alerts : List Alert) (t : Table) where
  -- Whatever fails, writing a batch loses no row, and a row that was retired stays retired, at the
  -- same time, also when its identifier is written again.
  pub upsert_alerts_batch-Persists :
      (id : Bytes) (r : Row)
      → IsKeyed t
      → find id t ≡ some r
      → Persists r (find id (upsert_alerts_batch codec w alerts t).table)
  upsert_alerts_batch-Persists id r k e =
      let h = halves codec w alerts t k in
      let (s, at, m) = Written-Persists alerts t h.middle h.first id r e in
      Persists-trans r s _ m (Written-Persists alerts h.middle _ h.second id s at)

  -- Whatever fails, no identifier gets two rows.
  pub upsert_alerts_batch-IsKeyed : IsKeyed t → IsKeyed (upsert_alerts_batch codec w alerts t).table
  upsert_alerts_batch-IsKeyed k =
      let h = halves codec w alerts t k in Written-IsKeyed alerts h.middle _ h.second

-- The alerts of the batch that have a row in the table.
abbrev pub Landed : List Alert → Table → Alert → Type 0
Landed alerts t a = Mem a alerts × HasRow t a.properties.id

HasRow-retire_referenced :
    (fails : ℕ → Option Error) (now : ℕ) (alerts : List Alert) (t : Table) (id : Bytes)
    → HasRow t id
    → HasRow (retire_referenced fails now alerts t).table id
HasRow-retire_referenced fails now alerts t id (r, e) =
    let (s, at, _) = Persists-retire_referenced fails now alerts t id r e in (s, at)

same_live : (r s : Row) → s.retired_at ≡ r.retired_at → is_live r ≡ true → is_live s ≡ true
same_live r s m h = ground arith

still_live :
    (r s r' : Row)
    → s.retired_at ≡ r.retired_at
    → is_live r ≡ true
    → ◌≡◌ {A = Option Row} (some s) (some r')
    → is_live r' ≡ false
    → ⊥
still_live r s r' m h e d = ground arith

-- A row that was live before a pass and is retired after it was named by the pass.
named_by_pass :
    (landed : List Alert) (now : ℕ) (id : Bytes) (s r' : Row) (before after : Option Row)
    → KeptOrRetired landed now id before after
    → before ≡ some s
    → is_live s ≡ true
    → after ≡ some r'
    → is_live r' ≡ false
    → supersedes landed r'.event_type id ≡ true
named_by_pass landed now id s r' before after (inl same) b live a dead =
    ground (arith, same, b, a, live, dead)
named_by_pass landed now id s r' before after (inr (q, _, _, named, a')) b live a dead =
    let e : r'.event_type ≡ q.event_type = ground (arith, a, a') in rw e named

-- Alerts that have a row in the table name the identifier, under the type `event`.
abbrev pub NamedBy : List Alert → Table → Bytes → Bytes → Type 0
NamedBy alerts final event id =
    (landed : List Alert) × All (Landed alerts final) landed × (supersedes landed event id ≡ true)

-- The same, of one passage.
Written-Landed :
    (alerts : List Alert) (t final : Table) (id : Bytes) (r r' : Row)
    → Written alerts t final
    → find id t ≡ some r
    → is_live r ≡ true
    → find id final ≡ some r'
    → is_live r' ≡ false
    → NamedBy alerts final r'.event_type id
Written-Landed alerts t final id r r' p e live after dead =
    let (s, at, mark) = subst (λ o. SameMark o (find id p.written)) e (p.upserts.same id) in
    elim p.ends [
      | inl same ↦ absurd (still_live r s r' mark live (sym at ∙ rw same at after) dead)
      | inr retired ↦
          let last = ap (find id) retired in
          (
            p.landed,
            rw retired (
                All-both _ _ p.landed p.chosen (
                  All-map _ _ p.landed
                    (λ a. HasRow-retire_referenced p.fails p.now p.landed p.written a.properties.id)
                    p.rows)),
            named_by_pass p.landed p.now id s r' _ _
                (retire_referenced-KeptOrRetired p.fails p.now p.landed p.written id) at
                (same_live r s mark live) (sym last ∙ after) dead,
          )
    ]

-- What a passage found in the table is in it after another.
NamedBy-later :
    (alerts : List Alert) (t final : Table) (event id : Bytes)
    → Written alerts t final
    → NamedBy alerts t event id
    → NamedBy alerts final event id
NamedBy-later alerts t final event id p (landed, rows, named) = (
  landed,
  All-map _ _ landed
      (λ a h.
        let (s, at, _) = Written-Persists alerts t final p a.properties.id h.1.0 h.1.1 in
        (h.0, (s, at)))
      rows,
  named,
)

-- Whatever fails, a live row is retired only by alerts of the batch whose own rows are in the table:
-- one of them names its identifier, by a non-empty reference, under the type of the row. This is the
-- type that the row has in the end, unless a commit that failed was carried out all the same, so that
-- the fallback could write the row once more.
pub upsert_alerts_batch-Landed :
    (codec : Codec) (w : Surroundings) (alerts : List Alert) (t : Table) (id : Bytes) (r r' : Row)
    → IsKeyed t
    → find id t ≡ some r
    → is_live r ≡ true
    → find id (upsert_alerts_batch codec w alerts t).table ≡ some r'
    → is_live r' ≡ false
    → (event : Bytes) × NamedBy alerts (upsert_alerts_batch codec w alerts t).table event id
      × ((event ≡ r'.event_type) ⊎ ((w.commit_fails ≢ none) × (w.commit_landed ≡ true)))
upsert_alerts_batch-Landed codec w alerts t id r r' k e live after dead =
    let h = halves codec w alerts t k in
    let (s, at, _) = Written-Persists alerts t h.middle h.first id r e in
    elim h.once [
      | inl same ↦
          let start : find id h.middle ≡ some r = rw same e in
          (
            r'.event_type,
            Written-Landed alerts h.middle _ id r r' h.second start live after dead,
            inl refl,
          )
      | inr (inl same) ↦
          let end : find id h.middle ≡ some r' = sym (ap (find id) same) ∙ after in
          (
            r'.event_type,
            NamedBy-later alerts h.middle _ r'.event_type id h.second
                (Written-Landed alerts t h.middle id r r' h.first e live end dead),
            inl refl,
          )
      | inr (inr landed) ↦ elim (Bool-cases (is_live s)) [
        | inl alive ↦ (
          r'.event_type,
          Written-Landed alerts h.middle _ id s r' h.second at alive after dead,
          inl refl,
        )
        | inr gone ↦ (
          s.event_type,
          NamedBy-later alerts h.middle _ s.event_type id h.second
              (Written-Landed alerts t h.middle id r s h.first e live at gone),
          inr landed,
        )
      ]
    ]
