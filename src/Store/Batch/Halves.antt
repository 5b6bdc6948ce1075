-- ===== src/Store/Batch/Halves.antt =====
-- About UpsertAlertsBatch of internal/store/postgres.go: what one of its passages over a keyed table does
-- to earlier rows.
use seestorm_ingest.Base.{
  none, ◌≢◌, All-Mem, ℕ, ◌≡◌, refl, subst, ◌∙◌, ◌⊎◌, inl, inr, true, Option, some, List, arith, All,
  Mem, map,
}
use seestorm_ingest.Base.Bytes.{Bytes}
use seestorm_ingest.Nws.Alert.{Alert}
use seestorm_ingest.Store.Errors.{Error}
use seestorm_ingest.Store.Args.{Codec}
use seestorm_ingest.Store.Table.{Row, Table, find, is_live}
use seestorm_ingest.Store.Table.Rows.{IsKeyed}
use seestorm_ingest.Store.Supersede.{retire_referenced}
use seestorm_ingest.Store.Supersede.Marks.{
  retire_referenced-KeptOrRetired, retire_referenced-IsKeyed,
}
use seestorm_ingest.Store.Batch.{Surroundings, upsert_alerts_batch, exec_queued}
use seestorm_ingest.Store.Batch.Steps.{
  SameMark, HasRow, Upserts, exec_queued-Upserts, Queued-chosen, Queued-HasRow,
}
use seestorm_ingest.Store.Batch.Passage.{Passage}
use seestorm_ingest.Store.Batch.Degraded.{upsert_alerts_batch-Passages}

-- What a passage writes before it retires anything.
pub record Written (alerts : List Alert) (t final : Table) : Type 0 where
  pub written : Table
  pub landed : List Alert
  pub fails : ℕ → Option Error
  pub now : ℕ
  pub upserts : Upserts t written
  pub chosen : All (λ (a : Alert). Mem a alerts) landed
  pub rows : All (λ (a : Alert). HasRow written a.properties.id) landed
  pub ends : (final ≡ written) ⊎ (final ≡ (retire_referenced fails now landed written).table)

abbrev Of : List Alert → Alert → Type 0
Of alerts a = Mem a alerts

written_by :
    (codec : Codec) (alerts : List Alert) (t final : Table)
    → IsKeyed t
    → Passage codec (Of alerts) t final
    → Written alerts t final
written_by codec alerts t final k p = record {
  written = exec_queued p.writes t;
  landed = map (λ q. q.0) p.writes;
  fails = p.fails;
  now = p.now;
  upserts = exec_queued-Upserts p.writes t k;
  chosen = Queued-chosen codec (Of alerts) p.writes p.chosen;
  rows = Queued-HasRow codec (Of alerts) p.writes t k p.chosen;
  ends = p.ends;
}

-- The row is there, and if it was retired it is retired as it was.
abbrev pub Persists : Row → Option Row → Type 0
Persists r after =
    (r' : Row) × (after ≡ some r') × ((is_live r ≡ true) ⊎ (r'.retired_at ≡ r.retired_at))

pub Persists-retire_referenced :
    (fails : ℕ → Option Error) (now : ℕ) (alerts : List Alert) (t : Table) (id : Bytes) (r : Row)
    → find id t ≡ some r
    → Persists r (find id (retire_referenced fails now alerts t).table)
Persists-retire_referenced fails now alerts t id r e =
    elim (retire_referenced-KeptOrRetired fails now alerts t id) [
      | inl same ↦ (r, same ∙ e, inr refl)
      | inr (s, before, live, named, after) ↦
          (record s { retired_at = some now }, after, inl (ground (arith, before, e, live)))
    ]

mark_chain :
    (r s s' : Row)
    → s.retired_at ≡ r.retired_at
    → (is_live s ≡ true) ⊎ (s'.retired_at ≡ s.retired_at)
    → (is_live r ≡ true) ⊎ (s'.retired_at ≡ r.retired_at)
mark_chain r s s' m h = ground arith

module _ (alerts : List Alert) (t final : Table) (p : Written alerts t final) where
  pub Written-Persists : (id : Bytes) (r : Row) → find id t ≡ some r → Persists r (find id final)
  Written-Persists id r e =
      let (s, at, mark) = subst (λ o. SameMark o (find id p.written)) e (p.upserts.same id) in
      elim p.ends [
        | inl same ↦ rw same (s, at, inr mark)
        | inr retired ↦
            let (s', at', kept) =
              Persists-retire_referenced p.fails p.now p.landed p.written id s at in
            rw retired (s', at', mark_chain r s s' mark kept)
      ]

  pub Written-IsKeyed : IsKeyed final
  Written-IsKeyed = elim p.ends [
    | inl same ↦ rw same p.upserts.keyed
    | inr retired ↦
        rw retired (retire_referenced-IsKeyed p.fails p.now p.landed p.written p.upserts.keyed)
  ]

pub Persists-trans :
    (r s : Row) (after : Option Row)
    → (is_live r ≡ true) ⊎ (s.retired_at ≡ r.retired_at)
    → Persists s after
    → Persists r after
Persists-trans r s after m (s', at, k) =
    (s', at, elim m [ inl live ↦ inl live | inr same ↦ mark_chain r s s' same k ])

-- The two passages of a batch, over keyed tables.
pub record Halves (w : Surroundings) (alerts : List Alert) (t final : Table) : Type 0 where
  pub middle : Table
  pub first : Written alerts t middle
  pub second : Written alerts middle final
  pub once : (middle ≡ t) ⊎ (final ≡ middle) ⊎ ((w.commit_fails ≢ none) × (w.commit_landed ≡ true))

pub halves :
    (codec : Codec) (w : Surroundings) (alerts : List Alert) (t : Table)
    → IsKeyed t
    → Halves w alerts t (upsert_alerts_batch codec w alerts t).table
halves codec w alerts t k =
    let p = upsert_alerts_batch-Passages codec (Of alerts) w alerts t (All-Mem alerts) in
    let first = written_by codec alerts t p.middle k p.first in
    record {
      middle = p.middle;
      first = first;
      second =
          written_by codec alerts p.middle _ (Written-IsKeyed alerts t p.middle first) p.second;
      once = p.once;
    }
