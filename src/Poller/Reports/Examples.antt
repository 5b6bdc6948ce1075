-- ===== src/Poller/Reports/Examples.antt =====
-- The theorem about pollStormReports, and its surroundings in other tests: the server of the tornado
-- reports is down, and the other two have one report each.
use seestorm_ingest.Base.{◌≡◌, true, false, none, some, List, [], ◌∷◌}
use seestorm_ingest.Base.Bytes.{Bytes, lit}
use seestorm_ingest.Base.Int.{pos}
use seestorm_ingest.Http.{Upstream, transport_error, response}
use seestorm_ingest.Store.Reports.{ReportFaults, upsert_storm_reports_batch}
use seestorm_ingest.Store.Reports.Kept.{Grown}
use seestorm_ingest.Poller.Budget.{Context}
use seestorm_ingest.Poller.Reports.{CsvCodec, FeedCycle, ReportsCycle, poll_storm_reports}
use seestorm_ingest.Poller.Reports.Independent.{together, poll_storm_reports-together}

abbrev down : Upstream
down = record {
  request_fails = λ k. true;
  reply = λ k req. transport_error;
  remaining = λ k. none;
  interrupted = λ k. false;
  random = λ k n. 0;
}

abbrev up : Upstream
up = record {
  request_fails = λ k. false;
  reply = λ k req. response (record { status = 200; etag = []; retry_after = []; body = lit "x" });
  remaining = λ k. none;
  interrupted = λ k. false;
  random = λ k n. 0;
}

abbrev row : List Bytes
row = lit "1805" ∷ [] ∷ lit "Verona" ∷ lit "Dane" ∷ lit "WI" ∷ lit "43" ∷ lit "-89" ∷ [] ∷ []

abbrev pub csv : CsvCodec
csv = record { parse_float = λ s. some 0; read_csv = λ s. some (row ∷ row ∷ []) }

abbrev feed : Upstream → FeedCycle
feed server = record {
  budget_at = pos 2;
  spc = λ ctx. server;
  days = λ i. pos 0;
  recorded_at = pos 3;
}

abbrev calm : ReportFaults
calm = record {
  begin_fails = none;
  exec_fails = λ k. none;
  close_fails = none;
  commit_fails = none;
  commit_landed = false;
  ctx_err = none;
  row_fails = λ k. none;
}

abbrev pub reports_cycle : ReportsCycle
reports_cycle = record { torn = feed down; hail = feed up; wind = feed up; store = λ ctx. calm }

abbrev context : Context
context = record { deadline = some (pos 10) }

poll_storm_reports-together_example :
    let p = poll_storm_reports csv reports_cycle context none [] in
    let all = together csv context reports_cycle in
    let b = upsert_storm_reports_batch calm all [] in
    (p.table ≡ b.table) × (p.count ≡ b.count) × Grown all [] p.table
poll_storm_reports-together_example = poll_storm_reports-together csv context reports_cycle none []
