-- ===== src/Store/Reports/Rule.antt =====
-- About UpsertStormReportsBatch of internal/store/postgres.go: what every insertion of a report with
-- `Q` keeps, a batch of such reports keeps, whatever fails.
use seestorm_ingest.Base.{ℕ, suc, ◌+◌, List, [], ◌∷◌, arith, All}
use seestorm_ingest.Spc.Report.{StormReport}
use seestorm_ingest.Store.Reports.{
  ReportTable, insert_report, ReportFaults, upsert_storm_report, exec_reports, ReportsTxResult,
  upsert_storm_reports_batch_tx, fallback_reports, after_reports_tx, upsert_storm_reports_batch,
}

module _ (Q : StormReport → Type 0) (P : ReportTable → Type 0) where
  abbrev pub Step : Type 0
  Step = (r : StormReport) (t : ReportTable) → Q r → P t → P (insert_report r t)

  module _ (step : Step) where
    exec_reports-P :
        (rs : List StormReport) (t : ReportTable) → All Q rs → P t → P (exec_reports rs t)
    unfolding exec_reports
    exec_reports-P [] t h p = p
    exec_reports-P (r ∷ rs) t (m, h) p = exec_reports-P rs (insert_report r t) h (step r t m p)

    tx-P :
        (w : ReportFaults) (rs : List StormReport) (t : ReportTable)
        → All Q rs
        → P t
        → P (upsert_storm_reports_batch_tx w rs t).table
    unfolding upsert_storm_reports_batch_tx
    tx-P w rs t h p = let written = exec_reports-P rs t h p in ground arith

    fallback_reports-P :
        (w : ReportFaults) (i : ℕ) (rs : List StormReport) (count : ℕ) (t : ReportTable)
        → All Q rs
        → P t
        → P (fallback_reports w i rs count t).table
    unfolding fallback_reports upsert_storm_report
    fallback_reports-P w i [] count t h p = p
    fallback_reports-P w i (r ∷ rs) count t (m, h) p =
        let skipped = fallback_reports-P w (suc i) rs count t h p in
        let added =
          fallback_reports-P w (suc i) rs (count + 1) (insert_report r t) h (step r t m p) in
        ground arith

    after_reports_tx-P :
        (w : ReportFaults) (rs : List StormReport) (tx : ReportsTxResult)
        → All Q rs
        → P tx.table
        → P (after_reports_tx w rs tx).table
    unfolding after_reports_tx
    after_reports_tx-P w rs tx h p =
        let written = fallback_reports-P w 0 rs 0 tx.table h p in ground arith

    pub upsert_storm_reports_batch-P :
        (w : ReportFaults) (rs : List StormReport) (t : ReportTable)
        → All Q rs
        → P t
        → P (upsert_storm_reports_batch w rs t).table
    unfolding upsert_storm_reports_batch
    upsert_storm_reports_batch-P w [] t h p = p
    upsert_storm_reports_batch-P w (r ∷ rs) t h p =
        after_reports_tx-P w (r ∷ rs) (upsert_storm_reports_batch_tx w (r ∷ rs) t) h
          (tx-P w (r ∷ rs) t h p)
