-- ===== src/Store/Reports.antt =====
-- internal/store/postgres.go: writing storm reports, in one transaction or, if that fails, row by
-- row; and the table `storm_reports` of internal/store/queries.go. Which statements fail, and how,
-- is an argument. The columns `id` and `ingested_at`, which nothing reads, are left out.
pub mod Rule
pub mod Kept
pub mod Settled
pub mod Examples
use seestorm_ingest.Base.{
  ℕ, suc, ◌+◌, Bool, true, false, ◌&&◌, Option, none, some, List, [], ◌∷◌, ◌++◌, length,
  if◌then◌else◌, ◌⊎◌, inl, inr,
}
use seestorm_ingest.Base.Bytes.{bytes_eq}
use seestorm_ingest.Base.Int.{ℤ, int_eq}
use seestorm_ingest.Spc.Report.{StormReport}
use seestorm_ingest.Store.Errors.{Error, is_fatal_batch_err}
use seestorm_ingest.Store.Batch.{or_else}

-- A row holds what the report held: the point is made of its longitude and latitude.
abbrev pub ReportTable : Type 0
ReportTable = List StormReport

-- UNIQUE (report_type, location, reported_at)
unfoldable pub same_report : StormReport → StormReport → Bool
same_report a b = bytes_eq a.type b.type && bytes_eq a.location b.location && int_eq a.time b.time

-- upsertStormReportSQL
unfoldable pub insert_report : StormReport → ReportTable → ReportTable
insert_report r [] = r ∷ []
insert_report r (s ∷ t) = if same_report s r then s ∷ t else s ∷ insert_report r t

-- What happens outside the program in one call; a commit that fails may have been carried out.
pub record ReportFaults : Type 0 where
  pub begin_fails : Option Error
  pub exec_fails : ℕ → Option Error
  pub close_fails : Option Error
  pub commit_fails : Option Error
  pub commit_landed : Bool
  pub ctx_err : Option Error
  pub row_fails : ℕ → Option Error

unfoldable pub upsert_storm_report : Option Error → StormReport → ReportTable → Error ⊎ ReportTable
upsert_storm_report (some e) report t = inl e
upsert_storm_report none report t = inr (insert_report report t)

unfoldable pub exec_reports : List StormReport → ReportTable → ReportTable
exec_reports [] t = t
exec_reports (r ∷ rs) t = exec_reports rs (insert_report r t)

-- The first error of the results, read in order.
unfoldable pub first_exec_error : (ℕ → Option Error) → ℕ → List StormReport → Option Error
first_exec_error fails k [] = none
first_exec_error fails k (r ∷ rs) = or_else (fails k) (first_exec_error fails (suc k) rs)

pub record ReportsTxResult : Type 0 where
  pub table : ReportTable
  pub inserted : ℕ
  pub error : Option Error

abbrev pub rolled_back : ReportTable → Error → ReportsTxResult
rolled_back t e = record { table = t; inserted = 0; error = some e }

unfoldable pub upsert_storm_reports_batch_tx :
    ReportFaults → List StormReport → ReportTable → ReportsTxResult
unfolding exec_reports first_exec_error
upsert_storm_reports_batch_tx w reports t = elim w.begin_fails [
  | some e ↦ rolled_back t e
  | none ↦ elim (or_else (first_exec_error w.exec_fails 0 reports) w.close_fails) [
    | some e ↦ rolled_back t e
    | none ↦ elim w.commit_fails [
      | some e ↦ rolled_back (if w.commit_landed then exec_reports reports t else t) e
      | none ↦ record { table = exec_reports reports t; inserted = length reports; error = none }
    ]
  ]
]

pub record ReportsBatch : Type 0 where
  pub table : ReportTable
  pub count : ℕ
  pub degraded : Bool
  pub error : Option Error

abbrev pub gave_up : ReportTable → Error → ReportsBatch
gave_up t e = record { table = t; count = 0; degraded = false; error = some e }

-- The loop of the fallback, from row `i` on.
unfoldable pub fallback_reports :
    ReportFaults → ℕ → List StormReport → ℕ → ReportTable → ReportsBatch
unfolding upsert_storm_report
fallback_reports w i [] count t = record { table = t; count = count; degraded = true; error = none }
fallback_reports w i (r ∷ rs) count t = elim (upsert_storm_report (w.row_fails i) r t) [
  | inr u ↦ fallback_reports w (suc i) rs (count + 1) u
  | inl e ↦ elim (is_fatal_batch_err e) [
    | true ↦ record { table = t; count = count; degraded = true; error = some e }
    | false ↦ fallback_reports w (suc i) rs count t
  ]
]

unfoldable pub after_reports_tx : ReportFaults → List StormReport → ReportsTxResult → ReportsBatch
unfolding fallback_reports
after_reports_tx w reports tx = elim tx.error [
  | none ↦ record { table = tx.table; count = tx.inserted; degraded = false; error = none }
  | some e ↦ if is_fatal_batch_err e then gave_up tx.table e else elim w.ctx_err [
    | some c ↦ gave_up tx.table c
    | none ↦ fallback_reports w 0 reports 0 tx.table
  ]
]

unfoldable pub upsert_storm_reports_batch :
    ReportFaults → List StormReport → ReportTable → ReportsBatch
unfolding upsert_storm_reports_batch_tx after_reports_tx
upsert_storm_reports_batch w [] t = record { table = t; count = 0; degraded = false; error = none }
upsert_storm_reports_batch w (r ∷ rs) t =
    after_reports_tx w (r ∷ rs) (upsert_storm_reports_batch_tx w (r ∷ rs) t)
