-- ===== src/Spc/Client/Examples.antt =====
-- The theorem about fetchReports at a server that is down once and then has one report.
use seestorm_ingest.Base.{ℕ, zero, suc, false, ◌≤◌, Option, none, some, List, [], ◌∷◌, ◌++◌, length}
use seestorm_ingest.Base.Bytes.{Bytes, lit}
use seestorm_ingest.Base.Int.{pos}
use seestorm_ingest.Http.{Reply, transport_error, response, Request, Upstream}
use seestorm_ingest.Spc.Report.{StormReport}
use seestorm_ingest.Spc.Client.{fetch_reports, base_url}
use seestorm_ingest.Spc.Client.Exchanges.{Explained, fetch_reports-Explained}

abbrev replies : ℕ → Request → Reply
replies zero req = transport_error
replies (suc k) req =
    response (record { status = 200; etag = []; retry_after = []; body = lit "Dane" })

abbrev server : Upstream
server = record {
  request_fails = λ k. false;
  reply = replies;
  remaining = λ k. none;
  interrupted = λ k. false;
  random = λ k n. 0;
}

abbrev parse : Bytes → Bytes → Option (List StormReport)
parse kind body = some (
    record {
      time = pos 5;
      magnitude = [];
      location = [];
      county = body;
      state = [];
      lat = 0;
      lon = 0;
      comments = [];
      type = kind;
    }
    ∷ [])

fetch_reports-Explained_example :
    let r = fetch_reports parse server (lit "today_torn.csv") (lit "tornado") in
    Explained
      (parse (lit "tornado"))
      (base_url ++ (lit "/" ++ lit "today_torn.csv"))
      r.outcome
      r.exchanges
    × (length r.exchanges ≤ 3)
fetch_reports-Explained_example =
    fetch_reports-Explained parse server (lit "today_torn.csv") (lit "tornado")
