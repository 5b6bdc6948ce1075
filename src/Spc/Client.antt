-- ===== src/Spc/Client.antt =====
-- internal/spc/client.go: fetchReports, with its retries.
pub mod Exchanges
pub mod Examples
use seestorm_ingest.Base.{
  ℕ, zero, suc, Bool, true, false, Option, none, some, List, [], ◌∷◌, ◌++◌, ◌==◌, if◌then◌else◌,
  take,
}
use seestorm_ingest.Base.Bytes.{Bytes, lit}
use seestorm_ingest.Base.Int.{ℤ}
use seestorm_ingest.Duration.{spc_response_max_bytes}
use seestorm_ingest.Http.{
  Response, Reply, transport_error, response, Request, Upstream, FetchError, creating_request,
  fetching, decoding, bad_status,
}
use seestorm_ingest.Retry.{max_attempts, is_retryable_status, parse_retry_after, next_delay, sleeps}
use seestorm_ingest.Spc.Report.{StormReport}

unfoldable pub retry_after_resp : Upstream → ℕ → Option ℤ → Bool
retry_after_resp up attempt retry_after =
    if suc attempt == max_attempts
    then false
    else elim (next_delay (up.random attempt) (up.remaining attempt) attempt retry_after) [
      | none ↦ false
      | some delay ↦ sleeps (up.interrupted attempt) delay
    ]

unfoldable pub retry_after_err : Upstream → ℕ → Bool
unfolding retry_after_resp
retry_after_err up attempt = retry_after_resp up attempt none

pub data ReportsFetch : Type 0 where
  reports : List StormReport → ReportsFetch
  no_reports : Option FetchError → ReportsFetch

-- The outcome, and what went over the wire, in order.
pub record ReportsResult : Type 0 where
  pub outcome : ReportsFetch
  pub exchanges : List (Request × Reply)

pub data ReportsStep : Type 0 where
  done : ReportsFetch → ReportsStep
  again : FetchError → ReportsStep

abbrev pub note_exchange : Request → Reply → ReportsResult → ReportsResult
note_exchange req rep r = record r { exchanges = (req, rep) ∷ r.exchanges }

unfoldable pub proceed : ReportsStep → (FetchError → ReportsResult) → ReportsResult
proceed (done outcome) rest = record { outcome = outcome; exchanges = [] }
proceed (again err) rest = rest err

-- `parse` is parseCSVReports, on the body up to its limit.
module _ (parse : Bytes → Option (List StormReport)) where
  abbrev parsed : Option (List StormReport) → ReportsStep
  parsed none = done (no_reports (some decoding))
  parsed (some rs) = done (reports rs)

  -- The body of the loop from the reply on.
  unfoldable pub after_reply : Upstream → ℕ → Reply → ReportsStep
  unfolding retry_after_err
  after_reply up attempt transport_error =
      if retry_after_err up attempt then again fetching else done (no_reports (some fetching))
  after_reply up attempt (response resp) =
      let err = bad_status resp.status in
      if resp.status == 200
      then parsed (parse (take spc_response_max_bytes resp.body))
      else if is_retryable_status resp.status
      then (if retry_after_resp up attempt (parse_retry_after resp.retry_after)
          then again err
          else done (no_reports (some err)))
      else done (no_reports (some err))

  -- The loop: `rounds` attempts are left.
  unfoldable pub fetch_from : Upstream → Bytes → ℕ → ℕ → Option FetchError → ReportsResult
  unfolding after_reply proceed
  fetch_from up endpoint zero attempt last_err = record {
    outcome = no_reports last_err;
    exchanges = [];
  }
  fetch_from up endpoint (suc rounds) attempt last_err =
      let req : Request = record { endpoint = endpoint; if_none_match = [] } in
      let rep = up.reply attempt req in
      elim (up.request_fails attempt) [
        | true ↦ record { outcome = no_reports (some creating_request); exchanges = [] }
        | false ↦ note_exchange req rep (
            proceed (after_reply up attempt rep)
              (λ err. fetch_from up endpoint rounds (suc attempt) (some err)))
      ]

abbrev pub base_url : Bytes
base_url = lit "https://www.spc.noaa.gov/climo/reports"

-- `parse` takes the type of the reports.
module _ (parse : Bytes → Bytes → Option (List StormReport)) where
  unfoldable pub fetch_reports : Upstream → Bytes → Bytes → ReportsResult
  unfolding fetch_from
  fetch_reports up file report_type =
      fetch_from (parse report_type) up (base_url ++ (lit "/" ++ file)) max_attempts 0 none

  unfoldable pub fetch_today_tornado_reports : Upstream → ReportsResult
  unfolding fetch_reports
  fetch_today_tornado_reports up = fetch_reports up (lit "today_torn.csv") (lit "tornado")

  unfoldable pub fetch_today_hail_reports : Upstream → ReportsResult
  unfolding fetch_reports
  fetch_today_hail_reports up = fetch_reports up (lit "today_hail.csv") (lit "hail")

  unfoldable pub fetch_today_wind_reports : Upstream → ReportsResult
  unfolding fetch_reports
  fetch_today_wind_reports up = fetch_reports up (lit "today_wind.csv") (lit "wind")
