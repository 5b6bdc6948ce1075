-- ===== src/Store/Reports/Examples.antt =====
-- The theorems about the storm reports at a batch of two, one of them stored before.
use seestorm_ingest.Base.{◌≡◌, refl, none, some, List, [], ◌∷◌, zero, suc, false, true}
use seestorm_ingest.Base.Bytes.{Bytes, lit, bytes_eq}
use seestorm_ingest.Base.Int.{pos}
use seestorm_ingest.Spc.Report.{StormReport}
use seestorm_ingest.Store.Errors.{other}
use seestorm_ingest.Store.Reports.{
  ReportTable, ReportFaults, upsert_storm_reports_batch, upsert_storm_reports_batch_tx, same_report,
  insert_report, exec_reports, first_exec_error, after_reports_tx, fallback_reports,
}
use seestorm_ingest.Store.Reports.Settled.{row_of, or_row, upsert_storm_reports_batch_again}

abbrev report : Bytes → StormReport
report location = record {
  time = pos 5;
  magnitude = lit "EF1";
  location = location;
  county = lit "Dane";
  state = lit "WI";
  lat = 0x4045800000000000;
  lon = 0xC056600000000000;
  comments = [];
  type = lit "tornado";
}

abbrev batch : List StormReport
batch = report (lit "A") ∷ report (lit "B") ∷ []

abbrev before : ReportTable
before = report (lit "A") ∷ []

abbrev calm : ReportFaults
calm = record {
  begin_fails = none;
  exec_fails = λ k. none;
  close_fails = none;
  commit_fails = none;
  commit_landed = false;
  ctx_err = none;
  row_fails = λ k. none;
}

-- The commit fails after it was carried out, and so does the fallback's second row.
abbrev stormy : ReportFaults
stormy = record {
  begin_fails = none;
  exec_fails = λ k. none;
  close_fails = none;
  commit_fails = some (other 1);
  commit_landed = true;
  ctx_err = none;
  row_fails = λ k. elim k [ zero ↦ none | suc _ ↦ some (other 2) ];
}

upsert_storm_reports_batch_again_example :
    let u = (upsert_storm_reports_batch calm batch before).table in
    ((r : StormReport) → row_of u r ≡ or_row (row_of before r) (row_of batch r))
    × ((upsert_storm_reports_batch stormy batch u).table ≡ u)
unfolding upsert_storm_reports_batch upsert_storm_reports_batch_tx same_report insert_report
    exec_reports first_exec_error after_reports_tx fallback_reports bytes_eq
upsert_storm_reports_batch_again_example =
    upsert_storm_reports_batch_again calm stormy batch before refl refl
