-- ===== src/Store/Batch/Written.antt =====
-- About UpsertAlertsBatch of internal/store/postgres.go on its happy path: what the table holds then.
use seestorm_ingest.Base.{
  ◌≢◌, ℕ, suc, ◌+◌, ◌≡◌, refl, sym, subst, ap, ◌∙◌, ◌⊎◌, inl, inr, true, false, Option, none, some,
  List, [], ◌∷◌, ◌++◌, map, length, arith, Option-cases, Bool-cases,
}
use mathlib.Core.List.{append-nil, append_assoc}
use seestorm_ingest.Base.Bytes.{Bytes}
use seestorm_ingest.Nws.Alert.{Alert}
use seestorm_ingest.Store.Errors.{Error, is_fatal_batch_err}
use seestorm_ingest.Store.Args.{Codec, ArgsResult, args, skip, failed, alert_upsert_args}
use seestorm_ingest.Store.Table.{AlertArgs, Table, find}
use seestorm_ingest.Store.Supersede.{retire_referenced}
use seestorm_ingest.Store.Supersede.Marks.{retire_referenced-KeptOrRetired}
use seestorm_ingest.Store.Batch.{
  Fallback, Surroundings, Queue, exec_queued, queue_alerts, or_else, first_error, commit_tx,
  run_queue, TxResult, rolled_back, upsert_alerts_batch_tx, run_result, after_failure,
  finish_fallback, fallback_rows, after_tx, upsert_alerts_batch,
}
use seestorm_ingest.Store.Batch.Content.{
  writable, latest, Content, Content-refl, exec_queued-Content, Content-retired,
}

-- What the queue has become once the alerts have been looked at: what is written of them is added, the
-- others are counted.
abbrev Filled : Queue → List (Alert × AlertArgs) → ℕ → Error ⊎ Queue → Type 0
Filled q plan n (inl e) = Unit
Filled q plan n (inr q') =
    (q'.queued ≡ q.queued ++ plan) × (length plan + q'.skipped ≡ q.skipped + n)

Filled-skip :
    (q : Queue) (plan : List (Alert × AlertArgs)) (n : ℕ) (r : Error ⊎ Queue)
    → Filled (record q { skipped = q.skipped + 1 }) plan n r
    → Filled q plan (suc n) r
Filled-skip q plan n (inl e) h = tt
Filled-skip q plan n (inr q') h = (h.0, omega (arith, h.1))

Filled-add :
    (q : Queue) (x : Alert × AlertArgs) (plan : List (Alert × AlertArgs)) (n : ℕ)
    (r : Error ⊎ Queue)
    → Filled (record q { queued = q.queued ++ x ∷ [] }) plan n r
    → Filled q (x ∷ plan) (suc n) r
Filled-add q x plan n (inl e) h = tt
Filled-add q x plan n (inr q') h = (h.0 ∙ append_assoc q.queued (x ∷ []) plan, omega (arith, h.1))

module _ (codec : Codec) (at : ℕ) where
  queue_alerts-Filled :
      (alerts : List Alert) (q : Queue)
      → Filled q (writable codec at alerts) (length alerts) (queue_alerts codec at alerts q)
  unfolding queue_alerts writable
  queue_alerts-Filled [] q = (sym (append-nil q.queued), omega arith)
  queue_alerts-Filled (alert ∷ rest) q =
      by_args (alert_upsert_args codec alert at) refl (λ q'. queue_alerts-Filled rest q')
    where
      by_args :
          (r : ArgsResult)
          → alert_upsert_args codec alert at ≡ r
          → ((q' : Queue)
              → Filled q' (writable codec at rest) (length rest) (queue_alerts codec at rest q'))
          → Filled q
              (writable codec at (alert ∷ rest))
              (length (alert ∷ rest))
              (queue_alerts codec at (alert ∷ rest) q)
      by_args (failed x) f ih = rw (f, queue_alerts) tt
      by_args skip f ih =
          rw (f, queue_alerts, writable)
            (Filled-skip q (writable codec at rest) (length rest) _
              (ih (record q { skipped = q.skipped + 1 })))
      by_args (args a) f ih =
          rw (f, queue_alerts, writable)
            (Filled-add q (alert, a) (writable codec at rest) (length rest) _
              (ih (record q { queued = q.queued ++ (alert, a) ∷ [] })))

  -- The table and the counts after a transaction that succeeded
  abbrev Committed : Table → List (Alert × AlertArgs) → ℕ → TxResult → Type 0
  Committed t plan n tx =
      tx.error ≡ none
      → ((id : Bytes) → Content (latest id plan) (find id t) (find id tx.table))
        × (tx.inserted ≡ length plan)
        × (tx.inserted + tx.skipped ≡ n)

  commit_tx-Committed :
      (w : Surroundings) (plan : List (Alert × AlertArgs)) (skipped : ℕ) (t : Table) (n : ℕ)
      → length plan + skipped ≡ n
      → Committed t plan n (
          commit_tx w t
            (length plan)
            skipped
            (retire_referenced w.retire_fails w.db_now (map (λ p. p.0) plan) (exec_queued plan t)))
  unfolding commit_tx
  commit_tx-Committed w plan skipped t n counted ok =
      let landed = map (λ (p : Alert × AlertArgs). p.0) plan in
      let r = retire_referenced w.retire_fails w.db_now landed (exec_queued plan t) in
      elim (Option-cases r.error) [
        | inr (e, fails) ↦ absurd (ground (arith, fails, ok))
        | inl fine ↦ elim (Option-cases w.commit_fails) [
          | inr (e, fails) ↦ absurd (ground (arith, fine, fails, ok))
          | inl done ↦
              rw (fine, done, commit_tx)
                (
                  λ id.
                      Content-retired landed w.db_now id (latest id plan) (find id t)
                        (find id (exec_queued plan t)) (find id r.table)
                        (retire_referenced-KeptOrRetired w.retire_fails w.db_now landed
                          (exec_queued plan t) id)
                        (exec_queued-Content id plan t),
                  refl,
                  counted,
                )
        ]
      ]

  run_queue-Committed :
      (w : Surroundings) (plan : List (Alert × AlertArgs)) (skipped : ℕ) (t : Table) (n : ℕ)
      → length plan + skipped ≡ n
      → Committed t plan n (run_queue w plan skipped t)
  unfolding run_queue latest
  run_queue-Committed w [] skipped t n counted ok =
      (λ id. Content-refl (find id t), refl, omega (arith, counted))
  run_queue-Committed w (x ∷ q) skipped t n counted ok =
      elim (Option-cases (or_else (first_error w.exec_fails 0 (x ∷ q)) w.close_fails)) [
        | inr (e, fails) ↦ absurd (ground (arith, fails, ok))
        | inl fine ↦
            let sent =
              ap
                (λ (o : Option Error). elim o [
                  | some e ↦ rolled_back t e
                  | none ↦ commit_tx w t (length (x ∷ q)) skipped (
                      retire_referenced w.retire_fails w.db_now (map (λ p. p.0) (x ∷ q))
                        (exec_queued (x ∷ q) t))
                ])
                fine in
            subst (Committed t (x ∷ q) n) (sym sent)
              (commit_tx-Committed w (x ∷ q) skipped t n counted) ok
      ]

  run_result-Committed :
      (w : Surroundings) (plan : List (Alert × AlertArgs)) (t : Table) (n : ℕ) (r : Error ⊎ Queue)
      → Filled (record { queued = []; skipped = 0 }) plan n r
      → Committed t plan n (run_result w t r)
  unfolding run_result
  run_result-Committed w plan t n (inl e) h = λ ok. absurd (cc ok)
  run_result-Committed w plan t n (inr q) h =
      subst (λ (p : List (Alert × AlertArgs)). Committed t plan n (run_queue w p q.skipped t))
        (sym h.0) (run_queue-Committed w plan q.skipped t n (omega (arith, h.1)))

  tx-Committed :
      (w : Surroundings) (alerts : List Alert) (t : Table)
      → w.received_at ≡ at
      → Committed t
          (writable codec at alerts)
          (length alerts)
          (upsert_alerts_batch_tx codec w alerts t)
  unfolding upsert_alerts_batch_tx
  tx-Committed w alerts t clock ok = elim (Option-cases w.begin_fails) [
    | inr (e, fails) ↦ absurd (ground (arith, fails, ok))
    | inl fine ↦
        let q : Queue = record { queued = []; skipped = 0 } in
        let begun =
          ap
            (λ (o : Option Error). elim o [
              | some e ↦ rolled_back t e
              | none ↦ run_result w t (queue_alerts codec w.received_at alerts q)
            ])
            fine
          ∙ ap (λ (n : ℕ). run_result w t (queue_alerts codec n alerts q)) clock in
        subst (Committed t (writable codec at alerts) (length alerts)) (sym begun)
          (run_result-Committed w (writable codec at alerts) t (length alerts)
            (queue_alerts codec at alerts q) (queue_alerts-Filled alerts q))
          ok
  ]

-- A call that fails in its transaction ends with an error, or degraded.
after_failure-ends :
    (codec : Codec) (w : Surroundings) (alerts : List Alert) (t : Table) (e : Error)
    → let b = after_failure codec w alerts t e in (b.error ≢ none) ⊎ (b.degraded ≡ true)
unfolding after_failure
after_failure-ends codec w alerts t e = elim (Bool-cases (is_fatal_batch_err e)) [
  | inl fatal ↦ rw (fatal, after_failure) (inl (λ h. cc h))
  | inr other ↦ elim (Option-cases w.ctx_err) [
    | inr (c, dead) ↦ rw (other, dead, after_failure) (inl (λ h. cc h))
    | inl alive ↦
        rw (other, alive, after_failure)
          (inr (finish_fallback-degraded w (fallback_rows codec w 0 alerts _)))
  ]
]
  where
    finish_fallback-degraded :
        (v : Surroundings) (s : Fallback) → (finish_fallback v s).degraded ≡ true
    finish_fallback-degraded v s = ground arith

-- When a call reports neither an error nor a fallback: for each identifier, the last alert of the batch
-- that has it and is written is what its row shows, but for the sender and the effective time of a row
-- that was there before; every other row keeps its values, and no other row is new. The alerts written
-- are those whose times parse, all of them, and every other one is counted as skipped.
pub upsert_alerts_batch-Written :
    (codec : Codec) (w : Surroundings) (alerts : List Alert) (t : Table)
    → let b = upsert_alerts_batch codec w alerts t in
      let plan = writable codec w.received_at alerts in
      b.error ≡ none
      → b.degraded ≡ false
      → ((id : Bytes) → Content (latest id plan) (find id t) (find id b.table))
        × (b.count ≡ length plan)
        × (b.count + b.skipped ≡ length alerts)
unfolding upsert_alerts_batch after_tx
upsert_alerts_batch-Written codec w [] t fine whole =
    unfold writable latest in ((λ id. Content-refl (find id t)), refl, refl)
upsert_alerts_batch-Written codec w (a ∷ rest) t fine whole =
    let tx = upsert_alerts_batch_tx codec w (a ∷ rest) t in
    elim (Option-cases tx.error) [
      | inl e ↦ rw (e, after_tx) (tx-Committed codec w.received_at w (a ∷ rest) t refl e)
      | inr (x, e) ↦ elim (after_failure-ends codec w (a ∷ rest) tx.table x) [
        | inl wrong ↦ absurd (wrong (rw (e, after_tx) at fine))
        | inr degraded ↦ absurd (cc (degraded, rw (e, after_tx) at whole))
      ]
    ]
