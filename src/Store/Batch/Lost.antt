-- ===== src/Store/Batch/Lost.antt =====
-- About UpsertAlertsBatch of internal/store/postgres.go, when the transaction cannot begin and every row
-- fails.
use seestorm_ingest.Base.{subst, sym, ℕ, suc, ◌≡◌, refl, false, none, some, List, [], ◌∷◌, inl}
use seestorm_ingest.Nws.Alert.{Alert}
use seestorm_ingest.Store.Errors.{Error, is_fatal_batch_err}
use seestorm_ingest.Store.Args.{Codec}
use seestorm_ingest.Store.Table.{Table}
use seestorm_ingest.Store.Supersede.{retire_referenced}
use seestorm_ingest.Store.Batch.{
  Surroundings, Fallback, BatchResult, upsert_alert, upsert_alerts_batch_tx, fallback_rows,
  finish_fallback, after_failure, after_tx, upsert_alerts_batch, rolled_back,
}

-- Every row fails, by an error that is not the context's.
abbrev pub RowsFail : Codec → Surroundings → Type 0
RowsFail codec w =
    (i : ℕ) (alert : Alert) (t : Table)
    → (e : Error) × (upsert_alert codec (w.row_received_at i) (w.row_fails i) alert t ≡ inl e)
      × (is_fatal_batch_err e ≡ false)

-- Nothing is stored, and no error is returned.
abbrev pub Lost : Table → BatchResult → Type 0
Lost t b = (b.table ≡ t) × (b.count ≡ 0) × (b.error ≡ none)

module _ (codec : Codec) (w : Surroundings) (rows : RowsFail codec w) where
  -- The loop of the fallback has stored nothing so far.
  abbrev Idle : Table → Fallback → Type 0
  Idle t s = (s.table ≡ t) × (s.count ≡ 0) × (s.succeeded ≡ []) × (s.fatal ≡ none)

  fallback_rows-Idle :
      (i : ℕ) (alerts : List Alert) (t : Table) (s : Fallback)
      → Idle t s
      → Idle t (fallback_rows codec w i alerts s)
  unfolding fallback_rows
  fallback_rows-Idle i [] t s h = h
  fallback_rows-Idle i (alert ∷ rest) t s h =
      let (e, fails, mild) = rows i alert s.table in
      rw (fails, fallback_rows, mild) (fallback_rows-Idle (suc i) rest t _ h)

  finish_fallback-Lost : (t : Table) (s : Fallback) → Idle t s → Lost t (finish_fallback w s)
  unfolding finish_fallback retire_referenced
  finish_fallback-Lost t s (a, b, c, d) = rw (d, finish_fallback, c, a, b) (refl, refl, refl)

  after_failure-Lost :
      (alerts : List Alert) (t : Table) (e : Error)
      → is_fatal_batch_err e ≡ false
      → w.ctx_err ≡ none
      → Lost t (after_failure codec w alerts t e)
  unfolding after_failure
  after_failure-Lost alerts t e mild alive =
      let start : Fallback = record {
        table = t;
        count = 0;
        skipped = 0;
        succeeded = [];
        fatal = none;
      } in
      rw mild (
        rw (alive, after_failure)
          (finish_fallback-Lost t (fallback_rows codec w 0 alerts start)
            (fallback_rows-Idle 0 alerts t start (refl, refl, refl, refl))))

  pub upsert_alerts_batch-Lost :
      (alerts : List Alert) (t : Table) (e : Error)
      → w.begin_fails ≡ some e
      → is_fatal_batch_err e ≡ false
      → w.ctx_err ≡ none
      → Lost t (upsert_alerts_batch codec w alerts t)
  unfolding upsert_alerts_batch upsert_alerts_batch_tx after_tx
  upsert_alerts_batch-Lost [] t e begin mild alive = (refl, refl, refl)
  upsert_alerts_batch-Lost (a ∷ alerts) t e begin mild alive =
      let failed : upsert_alerts_batch_tx codec w (a ∷ alerts) t ≡ rolled_back t e =
        rw (begin, upsert_alerts_batch_tx) refl in
      subst (λ tx. Lost t (after_tx codec w (a ∷ alerts) tx)) (sym failed)
        (after_failure-Lost (a ∷ alerts) t e mild alive)
