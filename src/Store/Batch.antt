-- ===== src/Store/Batch.antt =====
-- internal/store/postgres.go: writing a batch of alerts, in one transaction or, if that fails, row by
-- row. Which statements fail, and how, is an argument: a function from their position.
pub mod Steps
pub mod Passage
pub mod Atomic
pub mod Degraded
pub mod Halves
pub mod Safety
pub mod Content
pub mod Written
pub mod Lost
use seestorm_ingest.Base.{
  ℕ, suc, ◌+◌, Bool, true, false, ◌||◌, Option, none, some, List, [], ◌∷◌, ◌++◌, map, length,
  if◌then◌else◌, ◌⊎◌, inl, inr,
}
use seestorm_ingest.Base.Bytes.{Bytes, lit, bytes_eq}
use seestorm_ingest.Nws.Alert.{Alert, AlertProperties}
use seestorm_ingest.Store.Errors.{Error, skip_unparseable_expires, is_fatal_batch_err}
use seestorm_ingest.Store.Args.{Codec, args, skip, failed, alert_upsert_args}
use seestorm_ingest.Store.Table.{AlertArgs, Table, upsert_row}
use seestorm_ingest.Store.Supersede.{Retired, retire_referenced}

-- What happens outside the program in one call: the clock of the process when the batch is built
-- and at each row of the fallback, the clock of the database, and which operations fail. A commit that
-- fails may have been carried out all the same: `commit_landed`.
pub record Surroundings : Type 0 where
  pub received_at : ℕ
  pub row_received_at : ℕ → ℕ
  pub db_now : ℕ
  pub begin_fails : Option Error
  pub exec_fails : ℕ → Option Error
  pub close_fails : Option Error
  pub retire_fails : ℕ → Option Error
  pub commit_fails : Option Error
  pub commit_landed : Bool
  pub ctx_err : Option Error
  pub row_fails : ℕ → Option Error
  pub pool_retire_fails : ℕ → Option Error

-- The statements queued, each with its alert, and the count of the skipped alerts.
pub record Queue : Type 0 where
  pub queued : List (Alert × AlertArgs)
  pub skipped : ℕ

module _ (codec : Codec) where
  -- One row on the pool: its new table, or its error; `fails` is the statement's error.
  unfoldable pub upsert_alert : ℕ → Option Error → Alert → Table → Error ⊎ Table
  unfolding alert_upsert_args
  upsert_alert received_at fails alert t = elim (alert_upsert_args codec alert received_at) [
    | skip ↦ inl skip_unparseable_expires
    | failed e ↦ inl e
    | args a ↦ elim fails [ some e ↦ inl e | none ↦ inr (upsert_row a t) ]
  ]

  unfoldable pub queue_alerts : ℕ → List Alert → Queue → Error ⊎ Queue
  unfolding alert_upsert_args
  queue_alerts received_at [] q = inr q
  queue_alerts received_at (alert ∷ rest) q = elim (alert_upsert_args codec alert received_at) [
    | failed e ↦ inl e
    | skip ↦ queue_alerts received_at rest (record q { skipped = q.skipped + 1 })
    | args a ↦ queue_alerts received_at rest (record q { queued = q.queued ++ (alert, a) ∷ [] })
  ]

pub exec_queued : List (Alert × AlertArgs) → Table → Table
exec_queued [] t = t
exec_queued ((alert, a) ∷ q) t = exec_queued q (upsert_row a t)

abbrev pub or_else : Option Error → Option Error → Option Error
or_else (some e) f = some e
or_else none f = f

-- The first error of the results, read in order; the position counts from `k`.
unfoldable pub first_error : (ℕ → Option Error) → ℕ → List (Alert × AlertArgs) → Option Error
first_error fails k [] = none
first_error fails k (x ∷ q) = or_else (fails k) (first_error fails (suc k) q)

pub record TxResult : Type 0 where
  pub table : Table
  pub inserted : ℕ
  pub skipped : ℕ
  pub error : Option Error

pub record BatchResult : Type 0 where
  pub table : Table
  pub count : ℕ
  pub skipped : ℕ
  pub degraded : Bool
  pub error : Option Error

-- A return with an error, and the table that it leaves.
abbrev pub rolled_back : Table → Error → TxResult
rolled_back t e = record { table = t; inserted = 0; skipped = 0; error = some e }

pub commit_tx : Surroundings → Table → ℕ → ℕ → Retired → TxResult
commit_tx w before inserted skipped retired = elim retired.error [
  | some e ↦ rolled_back before e
  | none ↦ elim w.commit_fails [
    | some e ↦ rolled_back (if w.commit_landed then retired.table else before) e
    | none ↦ record { table = retired.table; inserted = inserted; skipped = skipped; error = none }
  ]
]

-- From the queue on: send the batch, retire, commit. A transaction that is not
-- committed leaves the table as it was.
pub run_queue : Surroundings → List (Alert × AlertArgs) → ℕ → Table → TxResult
unfolding exec_queued first_error commit_tx
run_queue w [] skipped t = record {
  table = t;
  inserted = 0;
  skipped = skipped;
  error = w.commit_fails;
}
run_queue w (x ∷ q) skipped t = elim (or_else (first_error w.exec_fails 0 (x ∷ q)) w.close_fails) [
  | some e ↦ rolled_back t e
  | none ↦
      commit_tx w t (length (x ∷ q)) skipped
        (retire_referenced w.retire_fails w.db_now (map (λ p. p.0) (x ∷ q)) (exec_queued (x ∷ q) t))
]

-- A marshalling error ends the transaction before anything is sent.
unfoldable pub run_result : Surroundings → Table → Error ⊎ Queue → TxResult
unfolding run_queue
run_result w t (inl e) = rolled_back t e
run_result w t (inr q) = run_queue w q.queued q.skipped t

abbrev is_skip : Error → Bool
is_skip skip_unparseable_expires = true
is_skip _ = false

-- The state of the loop of the fallback; `fatal` is the error that it returned with.
pub record Fallback : Type 0 where
  pub table : Table
  pub count : ℕ
  pub skipped : ℕ
  pub succeeded : List Alert
  pub fatal : Option Error

abbrev note_failure : Error → Fallback → Fallback
note_failure e s = record s { skipped = if is_skip e then s.skipped + 1 else s.skipped }

abbrev note_success : Alert → Table → Fallback → Fallback
note_success alert t s = record s {
  table = t;
  count = s.count + 1;
  succeeded = s.succeeded ++ alert ∷ [];
}

unfoldable pub finish_fallback : Surroundings → Fallback → BatchResult
finish_fallback w s = elim s.fatal [
  | some e ↦ record {
    table = s.table;
    count = s.count;
    skipped = s.skipped;
    degraded = true;
    error = some e;
  }
  | none ↦ record {
    table = (retire_referenced w.pool_retire_fails w.db_now s.succeeded s.table).table;
    count = s.count;
    skipped = s.skipped;
    degraded = true;
    error = none;
  }
]

abbrev pub gave_up : Table → Error → BatchResult
gave_up t e = record { table = t; count = 0; skipped = 0; degraded = false; error = some e }

module _ (codec : Codec) where
  unfoldable pub upsert_alerts_batch_tx : Surroundings → List Alert → Table → TxResult
  unfolding queue_alerts run_result
  upsert_alerts_batch_tx w alerts t = elim w.begin_fails [
    | some e ↦ rolled_back t e
    | none ↦
        run_result w t
          (queue_alerts codec w.received_at alerts (record { queued = []; skipped = 0 }))
  ]

  unfoldable pub fallback_rows : Surroundings → ℕ → List Alert → Fallback → Fallback
  fallback_rows w i [] s = s
  fallback_rows w i (alert ∷ rest) s =
      elim (upsert_alert codec (w.row_received_at i) (w.row_fails i) alert s.table) [
        | inr t ↦ fallback_rows w (suc i) rest (note_success alert t s)
        | inl e ↦ elim (is_fatal_batch_err e) [
          | true ↦ record s { fatal = some e }
          | false ↦ fallback_rows w (suc i) rest (note_failure e s)
        ]
      ]

  -- After a failed transaction: give up, or write row by row.
  unfoldable pub after_failure : Surroundings → List Alert → Table → Error → BatchResult
  unfolding fallback_rows finish_fallback
  after_failure w alerts t e = if is_fatal_batch_err e then gave_up t e else elim w.ctx_err [
    | some c ↦ gave_up t c
    | none ↦ finish_fallback w (
        fallback_rows w 0 alerts
          (record { table = t; count = 0; skipped = 0; succeeded = []; fatal = none }))
  ]

  unfoldable pub after_tx : Surroundings → List Alert → TxResult → BatchResult
  unfolding after_failure
  after_tx w alerts tx = elim tx.error [
    | none ↦ record {
      table = tx.table;
      count = tx.inserted;
      skipped = tx.skipped;
      degraded = false;
      error = none;
    }
    | some e ↦ after_failure w alerts tx.table e
  ]

  unfoldable pub upsert_alerts_batch : Surroundings → List Alert → Table → BatchResult
  unfolding upsert_alerts_batch_tx after_tx
  upsert_alerts_batch w [] t = record {
    table = t;
    count = 0;
    skipped = 0;
    degraded = false;
    error = none;
  }
  upsert_alerts_batch w (a ∷ rest) t = after_tx w (a ∷ rest) (upsert_alerts_batch_tx w (a ∷ rest) t)
