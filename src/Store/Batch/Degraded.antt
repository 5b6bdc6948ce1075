-- ===== src/Store/Batch/Degraded.antt =====
-- About the fallback of UpsertAlertsBatch of internal/store/postgres.go, and the whole of it: how it
-- ends, in the terms of `Passage`.
use seestorm_ingest.Base.{
  ℕ, suc, ◌≡◌, refl, sym, ◌⊎◌, inl, inr, Option, none, some, List, [], ◌∷◌, ◌++◌, ◌+◌, Option-cases,
  Bool-cases, All, All-append, ◌∙◌, ap,
}
use mathlib.Core.List.{map-append, map}
use seestorm_ingest.Nws.Alert.{Alert}
use seestorm_ingest.Store.Errors.{Error, is_fatal_batch_err}
use seestorm_ingest.Store.Args.{Codec, ArgsResult, args, skip, failed, alert_upsert_args}
use seestorm_ingest.Store.Table.{Table}
use seestorm_ingest.Store.Supersede.{retire_referenced}
use seestorm_ingest.Store.Batch.{
  Surroundings, Fallback, upsert_alert, upsert_alerts_batch_tx, fallback_rows, finish_fallback,
  after_failure, after_tx, upsert_alerts_batch, AlertArgs, exec_queued, upsert_row,
}
use seestorm_ingest.Store.Batch.Steps.{Made, Queued, exec_queued-append}
use seestorm_ingest.Store.Batch.Atomic.{upsert_alerts_batch_tx-Atomic}
use seestorm_ingest.Store.Batch.Passage.{Passage, Passage-refl, tx-Passage, Passages}

-- What a row that was written leaves: its statement, over what the table held.
abbrev Wrote : Codec → Table → Alert → Error ⊎ Table → Type 0
Wrote codec t alert (inl e) = Unit {0}
Wrote codec t alert (inr u) = (a : AlertArgs) × Made codec (alert, a) × (u ≡ upsert_row a t)

upsert_alert-Wrote :
    (codec : Codec) (received_at : ℕ) (fails : Option Error) (alert : Alert) (t : Table)
    → Wrote codec t alert (upsert_alert codec received_at fails alert t)
unfolding upsert_alert
upsert_alert-Wrote codec received_at fails alert t =
    by_args (alert_upsert_args codec alert received_at) refl fails
  where
    by_args :
        (r : ArgsResult)
        → alert_upsert_args codec alert received_at ≡ r
        → (f : Option Error) → Wrote codec t alert (upsert_alert codec received_at f alert t)
    by_args (failed x) e f = rw (e, upsert_alert) tt
    by_args skip e f = rw (e, upsert_alert) tt
    by_args (args a) e (some x) = rw (e, upsert_alert) tt
    by_args (args a) e none = rw (e, upsert_alert) (a, (received_at, e), refl)

module _ {ℓ} (codec : Codec) (P : Alert → Type ℓ) (t : Table) where
  -- The invariant of the loop: the table is what the statements of the alerts that succeeded leave.
  record Loop (s : Fallback) : Type ℓ where
    writes : List (Alert × AlertArgs)
    chosen : Queued codec P writes
    succeeded : s.succeeded ≡ map (λ p. p.0) writes
    table : s.table ≡ exec_queued writes t

  Loop-success :
      (s : Fallback) (alert : Alert) (u : Table)
      → P alert
      → Loop s
      → Wrote codec s.table alert (inr u)
      → Loop (record s { table = u; count = s.count + 1; succeeded = s.succeeded ++ alert ∷ [] })
  Loop-success s alert u p l (a, made, e) = record {
    writes = l.writes ++ (alert, a) ∷ [];
    chosen = All-append _ l.writes ((alert, a) ∷ []) l.chosen ((p, made), tt);
    succeeded =
        rw l.succeeded
          (sym (map-append (λ (p : Alert × AlertArgs). p.0) l.writes ((alert, a) ∷ [])));
    table = e ∙ ap (upsert_row a) l.table ∙ sym (exec_queued-append l.writes alert a t);
  }

  module _ (w : Surroundings) where
    fallback_rows-Loop :
        (i : ℕ) (alerts : List Alert) (s : Fallback)
        → All P alerts
        → Loop s
        → Loop (fallback_rows codec w i alerts s)
    unfolding fallback_rows
    fallback_rows-Loop i [] s h l = l
    fallback_rows-Loop i (alert ∷ rest) s h l =
        by_row (upsert_alert codec (w.row_received_at i) (w.row_fails i) alert s.table) refl
          (upsert_alert-Wrote codec (w.row_received_at i) (w.row_fails i) alert s.table)
          (λ s' l'. fallback_rows-Loop (suc i) rest s' h.1 l')
      where
        by_row :
            (r : Error ⊎ Table)
            → upsert_alert codec (w.row_received_at i) (w.row_fails i) alert s.table ≡ r
            → Wrote codec s.table alert r
            → ((s' : Fallback) → Loop s' → Loop (fallback_rows codec w (suc i) rest s'))
            → Loop (fallback_rows codec w i (alert ∷ rest) s)
        by_row (inr u) e wrote ih =
            rw (e, fallback_rows) (ih _ (Loop-success s alert u h.0 l wrote))
        by_row (inl x) e wrote ih =
            let same : (s' : Fallback) → s'.table ≡ s.table → s'.succeeded ≡ s.succeeded → Loop s' =
              λ s' k m. record {
                writes = l.writes;
                chosen = l.chosen;
                succeeded = m ∙ l.succeeded;
                table = k ∙ l.table;
              } in
            elim (Bool-cases (is_fatal_batch_err x)) [
              | inl f ↦ rw (e, fallback_rows, f) (same _ refl refl)
              | inr f ↦ rw (e, fallback_rows, f) (ih _ (same _ refl refl))
            ]

    finish_fallback-Passage :
        (s : Fallback) → Loop s → Passage codec P t (finish_fallback w s).table
    unfolding finish_fallback
    finish_fallback-Passage s l = elim (Option-cases s.fatal) [
      | inr (x, e) ↦ rw (e, finish_fallback) (ended nothing (inl l.table))
      | inl e ↦ rw (e, finish_fallback, l.succeeded, l.table) (ended w.pool_retire_fails (inr refl))
    ]
      where
        nothing : ℕ → Option Error
        nothing _ = none

        ended :
            {final : Table} (fails : ℕ → Option Error)
            → (final ≡ exec_queued l.writes t)
              ⊎ (final
                  ≡ (retire_referenced fails w.db_now
                      (map (λ p. p.0) l.writes)
                      (exec_queued l.writes t)).table)
            → Passage codec P t final
        ended fails ends = record {
          writes = l.writes;
          fails = fails;
          now = w.db_now;
          chosen = l.chosen;
          ends = ends;
        }

    after_failure-Passage :
        (alerts : List Alert) (e : Error)
        → All P alerts
        → Passage codec P t (after_failure codec w alerts t e).table
    unfolding after_failure
    after_failure-Passage alerts e h = elim (Bool-cases (is_fatal_batch_err e)) [
      | inl fatal ↦ rw fatal (Passage-refl codec P t)
      | inr data_shape ↦ rw data_shape (elim (Option-cases w.ctx_err) [
        | inr (c, dead) ↦ rw (dead, after_failure) (Passage-refl codec P t)
        | inl alive ↦
            rw (alive, after_failure)
              (finish_fallback-Passage _ (fallback_rows-Loop 0 alerts _ h started))
      ])
    ]
      where
        started : Loop (record { table = t; count = 0; skipped = 0; succeeded = []; fatal = none })
        started = record {
          writes = [];
          chosen = tt;
          succeeded = refl;
          table = unfold exec_queued in refl;
        }

module _ {ℓ} (codec : Codec) (P : Alert → Type ℓ) (w : Surroundings) where
  after_tx-Passages :
      (alerts : List Alert) (t : Table)
      → All P alerts
      → Passages codec P w t
          (after_tx codec w alerts (upsert_alerts_batch_tx codec w alerts t)).table
  unfolding after_tx
  after_tx-Passages alerts t h =
      let tx = upsert_alerts_batch_tx codec w alerts t in
      let first = tx-Passage codec P w alerts t h in
      elim (Option-cases tx.error) [
        | inl e ↦
            rw (e, after_tx)
              (record {
                middle = tx.table;
                first = first;
                second = Passage-refl codec P tx.table;
                once = inr (inl refl);
              })
        | inr (x, e) ↦
            rw (e, after_tx)
              (record {
                middle = tx.table;
                first = first;
                second = after_failure-Passage codec P tx.table w alerts x h;
                once = elim (upsert_alerts_batch_tx-Atomic codec w alerts t) [
                  | inl clean ↦ absurd (cc (e, clean))
                  | inr (inl same) ↦ inl same
                  | inr (inr landed) ↦ inr (inr landed)
                ];
              })
      ]

  -- However a batch ends, it wrote some of its alerts and retired what those reference.
  pub upsert_alerts_batch-Passages :
      (alerts : List Alert) (t : Table)
      → All P alerts
      → Passages codec P w t (upsert_alerts_batch codec w alerts t).table
  unfolding upsert_alerts_batch
  upsert_alerts_batch-Passages [] t h = record {
    middle = t;
    first = Passage-refl codec P t;
    second = Passage-refl codec P t;
    once = inl refl;
  }
  upsert_alerts_batch-Passages (a ∷ rest) t h = after_tx-Passages (a ∷ rest) t h
