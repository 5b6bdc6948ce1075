-- ===== src/Store/Reports/Settled.antt =====
-- About UpsertStormReportsBatch of internal/store/postgres.go: what a batch leaves, and the same batch
-- again.
use seestorm_ingest.Base.{
  Option, some, if◌then◌else◌, ℕ, suc, ◌+◌, ◌≡◌, refl, sym, ap, ◌∙◌, true, false, none, List, [],
  ◌∷◌, inl, inr, arith, All, Bool-cases, subst,
}
use seestorm_ingest.Base.Bytes.{bytes_eq_refl, bytes_eq_iff}
use seestorm_ingest.Base.Int.{int_eq_refl, int_eq_trans}
use seestorm_ingest.Spc.Report.{StormReport}
use seestorm_ingest.Store.Reports.{
  ReportTable, same_report, insert_report, ReportFaults, upsert_storm_report, exec_reports,
  ReportsTxResult, upsert_storm_reports_batch_tx, fallback_reports, after_reports_tx,
  upsert_storm_reports_batch,
}
use seestorm_ingest.Store.Reports.Rule.{upsert_storm_reports_batch-P}

-- A row has the type, the place and the time of this report.
pub data Stored : ReportTable → StormReport → Type 0 where
  here :
      (s : StormReport) (t : ReportTable) (r : StormReport)
      → same_report s r ≡ true
      → Stored (s ∷ t) r
  there : (s : StormReport) (t : ReportTable) (r : StormReport) → Stored t r → Stored (s ∷ t) r

same_report_refl : (r : StormReport) → same_report r r ≡ true
unfolding same_report
same_report_refl r =
    ground (arith, bytes_eq_refl r.type, bytes_eq_refl r.location, int_eq_refl r.time)

insert_report-same : (t : ReportTable) (r : StormReport) → Stored t r → insert_report r t ≡ t
unfolding insert_report
insert_report-same [] r h = elim h [ ]
insert_report-same (s ∷ t) r (here _ _ _ e) = rw e refl
insert_report-same (s ∷ t) r (there _ _ _ h) = let ih = insert_report-same t r h in ground arith

insert_report-Stored : (t : ReportTable) (r : StormReport) → Stored (insert_report r t) r
unfolding insert_report
insert_report-Stored [] r = here r [] r (same_report_refl r)
insert_report-Stored (s ∷ t) r = elim (Bool-cases (same_report s r)) [
  | inl e ↦ rw e (here s t r e)
  | inr e ↦ rw e (there s (insert_report r t) r (insert_report-Stored t r))
]

insert_report-keeps :
    (t : ReportTable) (q r : StormReport) → Stored t r → Stored (insert_report q t) r
unfolding insert_report
insert_report-keeps [] q r h = elim h [ ]
insert_report-keeps (s ∷ t) q r (here _ _ _ e) = elim (Bool-cases (same_report s q)) [
  | inl f ↦ rw f (here s t r e)
  | inr f ↦ rw f (here s (insert_report q t) r e)
]
insert_report-keeps (s ∷ t) q r (there _ _ _ h) = elim (Bool-cases (same_report s q)) [
  | inl f ↦ rw f (there s t r h)
  | inr f ↦ rw f (there s (insert_report q t) r (insert_report-keeps t q r h))
]

exec_reports-keeps :
    (rs : List StormReport) (t : ReportTable) (r : StormReport)
    → Stored t r
    → Stored (exec_reports rs t) r
unfolding exec_reports
exec_reports-keeps [] t r h = h
exec_reports-keeps (q ∷ rs) t r h =
    exec_reports-keeps rs (insert_report q t) r (insert_report-keeps t q r h)

exec_reports-Stored :
    (rs : List StormReport) (t : ReportTable) → All (Stored (exec_reports rs t)) rs
unfolding exec_reports
exec_reports-Stored [] t = tt
exec_reports-Stored (r ∷ rs) t = (
  exec_reports-keeps rs (insert_report r t) r (insert_report-Stored t r),
  exec_reports-Stored rs (insert_report r t),
)

fallback_reports-degraded :
    (w : ReportFaults) (i : ℕ) (rs : List StormReport) (count : ℕ) (t : ReportTable)
    → (fallback_reports w i rs count t).degraded ≡ true
unfolding fallback_reports upsert_storm_report
fallback_reports-degraded w i [] count t = refl
fallback_reports-degraded w i (r ∷ rs) count t =
    let skipped = fallback_reports-degraded w (suc i) rs count t in
    let added = fallback_reports-degraded w (suc i) rs (count + 1) (insert_report r t) in
    ground arith

after_reports_tx-clean :
    (w : ReportFaults) (rs : List StormReport) (tx : ReportsTxResult)
    → (after_reports_tx w rs tx).error ≡ none
    → (after_reports_tx w rs tx).degraded ≡ false
    → (tx.error ≡ none) × ((after_reports_tx w rs tx).table ≡ tx.table)
unfolding after_reports_tx
after_reports_tx-clean w rs tx e d =
    let degraded = fallback_reports-degraded w 0 rs 0 tx.table in (ground arith, ground arith)

tx-clean :
    (w : ReportFaults) (rs : List StormReport) (t : ReportTable)
    → (upsert_storm_reports_batch_tx w rs t).error ≡ none
    → (upsert_storm_reports_batch_tx w rs t).table ≡ exec_reports rs t
unfolding upsert_storm_reports_batch_tx
tx-clean w rs t e = ground arith

-- A call that reports neither an error nor a fallback has run every statement.
upsert_storm_reports_batch-clean :
    (w : ReportFaults) (rs : List StormReport) (t : ReportTable)
    → (upsert_storm_reports_batch w rs t).error ≡ none
    → (upsert_storm_reports_batch w rs t).degraded ≡ false
    → (upsert_storm_reports_batch w rs t).table ≡ exec_reports rs t
unfolding upsert_storm_reports_batch exec_reports
upsert_storm_reports_batch-clean w [] t e d = refl
upsert_storm_reports_batch-clean w (r ∷ rs) t e d =
    let tx = upsert_storm_reports_batch_tx w (r ∷ rs) t in
    let done = after_reports_tx-clean w (r ∷ rs) tx e d in done.1 ∙ tx-clean w (r ∷ rs) t done.0

exec_reports_again :
    (v : ReportFaults) (rs : List StormReport) (u : ReportTable)
    → All (Stored u) rs
    → (upsert_storm_reports_batch v rs u).table ≡ u
exec_reports_again v rs u h =
    upsert_storm_reports_batch-P (Stored u) (λ x. x ≡ u)
      (λ r x m e. ap (insert_report r) e ∙ insert_report-same u r m) v rs u h refl

-- The first of the reports with the type, the place and the time of this one.
abbrev pub row_of : List StormReport → StormReport → Option StormReport
row_of [] r = none
row_of (s ∷ t) r = if same_report s r then some s else row_of t r

abbrev pub or_row : Option StormReport → Option StormReport → Option StormReport
or_row (some s) o = some s
or_row none o = o

or_row_assoc : (a b c : Option StormReport) → or_row (or_row a b) c ≡ or_row a (or_row b c)
or_row_assoc none b c = refl
or_row_assoc (some s) b c = refl

same_report_trans :
    (a b c : StormReport) → same_report a b ≡ true → same_report b c ≡ true → same_report a c ≡ true
unfolding same_report
same_report_trans a b c h k = ground (
  arith,
  h,
  k,
  bytes_eq_iff a.type b.type,
  bytes_eq_iff a.location b.location,
  int_eq_trans a.time b.time c.time,
)

insert_report-row_of :
    (q r : StormReport) (t : ReportTable)
    → row_of (insert_report q t) r ≡ or_row (row_of t r) (row_of (q ∷ []) r)
unfolding insert_report
insert_report-row_of q r [] = refl
insert_report-row_of q r (s ∷ t) =
    ground (arith, insert_report-row_of q r t, same_report_trans s q r)

exec_reports-row_of :
    (rs : List StormReport) (t : ReportTable) (r : StormReport)
    → row_of (exec_reports rs t) r ≡ or_row (row_of t r) (row_of rs r)
unfolding exec_reports
exec_reports-row_of [] t r = ground arith
exec_reports-row_of (q ∷ rs) t r =
    exec_reports-row_of rs (insert_report q t) r
    ∙ ap (λ o. or_row o (row_of rs r)) (insert_report-row_of q r t)
    ∙ or_row_assoc (row_of t r) (row_of (q ∷ []) r) (row_of rs r)
    ∙ ap (or_row (row_of t r)) (ground arith)

-- Once a call has reported neither an error nor a fallback, the table has for each type, place and
-- time the row that it had before, as it was, or else the first report of the batch with these, as it
-- is. So a report whose type, place and time are taken is dropped, whatever else it says. A later call
-- with the same reports changes nothing, whatever fails in it.
pub upsert_storm_reports_batch_again :
    (w v : ReportFaults) (rs : List StormReport) (t : ReportTable)
    → (upsert_storm_reports_batch w rs t).error ≡ none
    → (upsert_storm_reports_batch w rs t).degraded ≡ false
    → let u = (upsert_storm_reports_batch w rs t).table in
      ((r : StormReport) → row_of u r ≡ or_row (row_of t r) (row_of rs r))
      × ((upsert_storm_reports_batch v rs u).table ≡ u)
upsert_storm_reports_batch_again w v rs t e d =
    let c = upsert_storm_reports_batch-clean w rs t e d in
    let stored = subst (λ u. All (Stored u) rs) (sym c) (exec_reports-Stored rs t) in
    (
      (λ r. ap (λ u. row_of u r) c ∙ exec_reports-row_of rs t r),
      exec_reports_again v rs (upsert_storm_reports_batch w rs t).table stored,
    )
