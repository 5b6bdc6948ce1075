-- ===== src/Store/Reports/Kept.antt =====
-- About UpsertStormReportsBatch of internal/store/postgres.go: what a batch leaves in the table.

use seestorm_ingest.Base.{
  All-Mem, ◌≡◌, refl, sym, ap, ◌∙◌, List, [], ◌∷◌, ◌++◌, inl, inr, All, All-append, Mem, Bool-cases,
}
use seestorm_ingest.Spc.Report.{StormReport}
use seestorm_ingest.Store.Reports.{
  ReportTable, same_report, insert_report, ReportFaults, upsert_storm_reports_batch,
}
use seestorm_ingest.Store.Reports.Rule.{upsert_storm_reports_batch-P}

append_nil : (t : ReportTable) → t ++ [] ≡ t
append_nil [] = refl
append_nil (x ∷ t) = ap (λ u. x ∷ u) (append_nil t)

append_assoc : (t u v : ReportTable) → (t ++ u) ++ v ≡ t ++ (u ++ v)
append_assoc [] u v = refl
append_assoc (x ∷ t) u v = ap (λ w. x ∷ w) (append_assoc t u v)

-- The rows of `t`, unchanged and in their order, and after them only some of these reports.
pub data Grown (reports : List StormReport) (t u : ReportTable) : Type 0 where
  grown :
      (added : List StormReport)
      → u ≡ t ++ added
      → All (λ r. Mem r reports) added
      → Grown reports t u

Grown-refl : (reports : List StormReport) (t : ReportTable) → Grown reports t t
Grown-refl reports t = grown [] (sym (append_nil t)) tt

Grown-trans :
    (reports : List StormReport) (t u v : ReportTable)
    → Grown reports t u
    → Grown reports u v
    → Grown reports t v
Grown-trans reports t u v (grown a e h) (grown b f k) =
    grown (a ++ b) (f ∙ ap (λ w. w ++ b) e ∙ append_assoc t a b) (All-append _ a b h k)

Grown-cons :
    (reports : List StormReport) (s : StormReport) (t u : ReportTable)
    → Grown reports t u
    → Grown reports (s ∷ t) (s ∷ u)
Grown-cons reports s t u (grown added e h) = grown added (ap (λ w. s ∷ w) e) h

insert_report-Grown :
    (reports : List StormReport) (r : StormReport) (t : ReportTable)
    → Mem r reports
    → Grown reports t (insert_report r t)
unfolding insert_report
insert_report-Grown reports r [] m = grown (r ∷ []) refl (m, tt)
insert_report-Grown reports r (s ∷ t) m = elim (Bool-cases (same_report s r)) [
  | inl e ↦ rw e (Grown-refl reports (s ∷ t))
  | inr e ↦ rw e (Grown-cons reports s t (insert_report r t) (insert_report-Grown reports r t m))
]

-- Whatever fails, and however the call ends, the reports stored before are all still there,
-- unchanged and in their order, and what was added is of this batch.
pub upsert_storm_reports_batch-Grown :
    (w : ReportFaults) (reports : List StormReport) (t : ReportTable)
    → Grown reports t (upsert_storm_reports_batch w reports t).table
upsert_storm_reports_batch-Grown w reports t =
    upsert_storm_reports_batch-P (λ r. Mem r reports) (Grown reports t)
      (λ r u m g. Grown-trans reports t u (insert_report r u) g (insert_report-Grown reports r u m))
      w reports t (All-Mem reports) (Grown-refl reports t)
