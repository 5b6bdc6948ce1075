-- ===== src/Store/Batch/Passage.antt =====
-- About upsertAlertsBatchTx of internal/store/postgres.go: how a batch ends, in terms of the alerts
-- whose rows were written.
use seestorm_ingest.Base.{
  ℕ, ◌≡◌, refl, ◌⊎◌, inl, inr, Option, none, List, [], ◌∷◌, map, Option-cases, All, All-append, ◌≢◌,
  Bool-cases, true,
}
use seestorm_ingest.Nws.Alert.{Alert}
use seestorm_ingest.Store.Errors.{Error}
use seestorm_ingest.Store.Args.{Codec, ArgsResult, args, skip, failed, alert_upsert_args}
use seestorm_ingest.Store.Table.{AlertArgs, Table}
use seestorm_ingest.Store.Supersede.{retire_referenced}
use seestorm_ingest.Store.Batch.{
  Surroundings, Queue, exec_queued, queue_alerts, or_else, first_error, commit_tx, run_queue,
  upsert_alerts_batch_tx, run_result,
}
use seestorm_ingest.Store.Batch.Steps.{Queued}

-- `final` comes from `t` by the statements of some alerts, each of which satisfies `P`, and then by
-- at most one pass of retirement over these alerts.
pub record Passage {ℓ} (codec : Codec) (P : Alert → Type ℓ) (t final : Table) : Type ℓ where
  pub writes : List (Alert × AlertArgs)
  pub fails : ℕ → Option Error
  pub now : ℕ
  pub chosen : Queued codec P writes
  pub ends :
      (final ≡ exec_queued writes t)
      ⊎ (final ≡ (retire_referenced fails now (map (λ p. p.0) writes) (exec_queued writes t)).table)

-- A batch is at most two passages: its transaction and its fallback. Both leave something only where
-- the transaction's commit failed and was carried out all the same.
pub record Passages {ℓ} (codec : Codec) (P : Alert → Type ℓ) (w : Surroundings) (t final : Table)
    : Type ℓ where
  pub middle : Table
  pub first : Passage codec P t middle
  pub second : Passage codec P middle final
  pub once : (middle ≡ t) ⊎ (final ≡ middle) ⊎ ((w.commit_fails ≢ none) × (w.commit_landed ≡ true))

abbrev nothing_fails : ℕ → Option Error
nothing_fails _ = none

module _ {ℓ} (codec : Codec) (P : Alert → Type ℓ) where
  pub Passage-refl : (t : Table) → Passage codec P t t
  unfolding exec_queued
  Passage-refl t = record {
    writes = [];
    fails = nothing_fails;
    now = 0;
    chosen = tt;
    ends = inl refl;
  }

  abbrev QueuedResult : Error ⊎ Queue → Type ℓ
  QueuedResult (inl e) = Unit
  QueuedResult (inr q) = Queued codec P q.queued

  -- What the queue holds is chosen among the alerts.
  queue_alerts-Queued :
      (received_at : ℕ) (alerts : List Alert) (q : Queue)
      → All P alerts
      → Queued codec P q.queued
      → QueuedResult (queue_alerts codec received_at alerts q)
  unfolding queue_alerts
  queue_alerts-Queued received_at [] q h k = k
  queue_alerts-Queued received_at (alert ∷ rest) q h k =
      by_args (alert_upsert_args codec alert received_at) refl
        (λ q' k'. queue_alerts-Queued received_at rest q' h.1 k')
    where
      by_args :
          (r : ArgsResult)
          → alert_upsert_args codec alert received_at ≡ r
          → ((q' : Queue)
              → Queued codec P q'.queued
              → QueuedResult (queue_alerts codec received_at rest q'))
          → QueuedResult (queue_alerts codec received_at (alert ∷ rest) q)
      by_args (failed x) f ih = rw (f, queue_alerts) tt
      by_args skip f ih = rw (f, queue_alerts) (ih _ k)
      by_args (args a) f ih =
          rw (f, queue_alerts)
            (ih _ (All-append _ q.queued ((alert, a) ∷ []) k ((h.0, (received_at, f)), tt)))

  commit_tx-Passage :
      (w : Surroundings) (t : Table) (q : List (Alert × AlertArgs)) (inserted skipped : ℕ)
      → Queued codec P q
      → Passage codec P t
          (commit_tx w t inserted skipped
            (retire_referenced w.retire_fails w.db_now (map (λ p. p.0) q) (exec_queued q t))).table
  unfolding commit_tx
  commit_tx-Passage w t q inserted skipped h =
      let r = retire_referenced w.retire_fails w.db_now (map (λ p. p.0) q) (exec_queued q t) in
      let whole : Passage codec P t r.table = record {
        writes = q;
        fails = w.retire_fails;
        now = w.db_now;
        chosen = h;
        ends = inr refl;
      } in
      elim (Option-cases r.error) [
        | inr (err, e) ↦ rw (e, commit_tx) (Passage-refl t)
        | inl e ↦ elim (Option-cases w.commit_fails) [
          | inl f ↦ rw (e, f, commit_tx) whole
          | inr (err, f) ↦ elim (Bool-cases w.commit_landed) [
            | inl landed ↦ rw (e, f, commit_tx) (rw landed whole)
            | inr lost ↦ rw (e, f, commit_tx) (rw lost (Passage-refl t))
          ]
        ]
      ]

  run_queue-Passage :
      (w : Surroundings) (q : List (Alert × AlertArgs)) (skipped : ℕ) (t : Table)
      → Queued codec P q
      → Passage codec P t (run_queue w q skipped t).table
  unfolding run_queue
  run_queue-Passage w [] skipped t h = Passage-refl t
  run_queue-Passage w (x ∷ q) skipped t h =
      elim (Option-cases (or_else (first_error w.exec_fails 0 (x ∷ q)) w.close_fails)) [
        | inr (err, e) ↦ rw (e, run_queue) (Passage-refl t)
        | inl e ↦ rw (e, run_queue) (commit_tx-Passage w t (x ∷ q) _ skipped h)
      ]

  pub tx-Passage :
      (w : Surroundings) (alerts : List Alert) (t : Table)
      → All P alerts
      → Passage codec P t (upsert_alerts_batch_tx codec w alerts t).table
  unfolding upsert_alerts_batch_tx
  tx-Passage w alerts t h = elim (Option-cases w.begin_fails) [
    | inr (err, e) ↦ rw (e, upsert_alerts_batch_tx) (Passage-refl t)
    | inl e ↦
        rw (e, upsert_alerts_batch_tx)
          (queue_result _ (queue_alerts-Queued w.received_at alerts _ h tt))
  ]
    where
      queue_result :
          (r : Error ⊎ Queue) → QueuedResult r → Passage codec P t (run_result w t r).table
      queue_result (inl e) c = Passage-refl t
      queue_result (inr q) c = run_queue-Passage w q.queued q.skipped t c
