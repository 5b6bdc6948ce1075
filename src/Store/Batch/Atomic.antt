-- ===== src/Store/Batch/Atomic.antt =====
-- About upsertAlertsBatchTx of internal/store/postgres.go: its failures.
use seestorm_ingest.Base.{
  ℕ, ◌≡◌, refl, ◌⊎◌, inl, inr, none, List, [], ◌∷◌, length, map, Option-cases, ◌≢◌, Bool-cases,
  true,
}
use seestorm_ingest.Nws.Alert.{Alert}
use seestorm_ingest.Store.Errors.{Error}
use seestorm_ingest.Store.Args.{Codec}
use seestorm_ingest.Store.Table.{Table}
use seestorm_ingest.Store.Supersede.{retire_referenced}
use seestorm_ingest.Store.Batch.{
  Surroundings, TxResult, upsert_alerts_batch_tx, commit_tx, run_queue, run_result, Retired,
  AlertArgs, Queue, or_else, first_error, exec_queued,
}

-- An error comes with the table as it was, unless a commit that failed was carried out.
abbrev pub Atomic : Surroundings → Table → TxResult → Type 0
Atomic w t tx =
    (tx.error ≡ none) ⊎ (tx.table ≡ t) ⊎ ((w.commit_fails ≢ none) × (w.commit_landed ≡ true))

commit_tx-Atomic :
    (w : Surroundings) (t : Table) (inserted skipped : ℕ) (r : Retired)
    → Atomic w t (commit_tx w t inserted skipped r)
unfolding commit_tx
commit_tx-Atomic w t inserted skipped r = elim (Option-cases r.error) [
  | inr (x, e) ↦ rw (e, commit_tx) (inr (inl refl))
  | inl e ↦ elim (Option-cases w.commit_fails) [
    | inl f ↦ rw (e, f, commit_tx) (inl refl)
    | inr (x, f) ↦ elim (Bool-cases w.commit_landed) [
      | inl landed ↦ inr (inr ((λ h. cc (f, h)), landed))
      | inr lost ↦ rw (e, f, commit_tx) (rw lost (inr (inl refl)))
    ]
  ]
]

run_queue-Atomic :
    (w : Surroundings) (q : List (Alert × AlertArgs)) (skipped : ℕ) (t : Table)
    → Atomic w t (run_queue w q skipped t)
unfolding run_queue
run_queue-Atomic w [] skipped t = inr (inl refl)
run_queue-Atomic w (x ∷ q) skipped t =
    elim (Option-cases (or_else (first_error w.exec_fails 0 (x ∷ q)) w.close_fails)) [
      | inr (y, e) ↦ rw (e, run_queue) (inr (inl refl))
      | inl e ↦
          rw (e, run_queue)
            (commit_tx-Atomic w t (length (x ∷ q)) skipped (
              retire_referenced w.retire_fails w.db_now (map (λ p. p.0) (x ∷ q))
                (exec_queued (x ∷ q) t)))
    ]

run_result-Atomic :
    (w : Surroundings) (t : Table) (r : Error ⊎ Queue) → Atomic w t (run_result w t r)
unfolding run_result
run_result-Atomic w t (inl e) = inr (inl refl)
run_result-Atomic w t (inr q) = run_queue-Atomic w q.queued q.skipped t

-- A transaction that ends in an error leaves the table as it was, or its commit failed and was carried
-- out all the same.
pub upsert_alerts_batch_tx-Atomic :
    (codec : Codec) (w : Surroundings) (alerts : List Alert) (t : Table)
    → Atomic w t (upsert_alerts_batch_tx codec w alerts t)
unfolding upsert_alerts_batch_tx
upsert_alerts_batch_tx-Atomic codec w alerts t = elim (Option-cases w.begin_fails) [
  | inr (x, e) ↦ rw (e, upsert_alerts_batch_tx) (inr (inl refl))
  | inl e ↦ rw (e, upsert_alerts_batch_tx) (run_result-Atomic w t _)
]
