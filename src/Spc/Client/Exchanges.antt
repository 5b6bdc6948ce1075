-- ===== src/Spc/Client/Exchanges.antt =====
-- About fetchReports of internal/spc/client.go: its requests and its outcome.
use seestorm_ingest.Base.{
  ℕ, zero, suc, ◌≤◌, ◌≡◌, true, false, Option, none, some, List, [], ◌∷◌, ◌++◌, arith, length, take,
  refl,
}
use seestorm_ingest.Base.Bytes.{Bytes, lit}
use seestorm_ingest.Duration.{spc_response_max_bytes}
use seestorm_ingest.Http.{
  Reply, transport_error, response, Request, Upstream, FetchError, creating_request,
}
use seestorm_ingest.Retry.{is_retryable_status, max_attempts}
use seestorm_ingest.Spc.Report.{StormReport}
use seestorm_ingest.Spc.Client.{
  fetch_from, ReportsFetch, reports, no_reports, ReportsStep, after_reply, done, again,
  fetch_reports, proceed, ReportsResult, note_exchange, base_url,
}

abbrev Transient : Reply → Type 0
Transient transport_error = Unit
Transient (response resp) = is_retryable_status resp.status ≡ true

module _ (parse : Bytes → Option (List StormReport)) where
  -- A reply with status 200 whose body, up to the limit, parses to these reports.
  abbrev pub Carries : List StormReport → Reply → Type 0
  Carries rs transport_error = ⊥
  Carries rs (response resp) =
      (resp.status ≡ 200) × (parse (take spc_response_max_bytes resp.body) ≡ some rs)

  -- Transient failures, and at last the reply that carries the reports.
  abbrev pub Delivers : Bytes → List StormReport → List (Request × Reply) → Type 0
  Delivers endpoint rs [] = ⊥
  Delivers endpoint rs ((req, rep) ∷ []) =
      (req ≡ record { endpoint = endpoint; if_none_match = [] }) × Carries rs rep
  Delivers endpoint rs ((req, rep) ∷ x ∷ xs) =
      (req ≡ record { endpoint = endpoint; if_none_match = [] })
      × Transient rep
      × Delivers endpoint rs (x ∷ xs)

  abbrev StepOf : Reply → ReportsStep → Type 0
  StepOf rep (done (reports rs)) = Carries rs rep
  StepOf rep (done (no_reports e)) = Unit
  StepOf rep (again e) = Transient rep

  after_reply-StepOf :
      (up : Upstream) (attempt : ℕ) (rep : Reply) → StepOf rep (after_reply parse up attempt rep)
  unfolding after_reply
  after_reply-StepOf up attempt transport_error = ground arith
  after_reply-StepOf up attempt (response resp) = ground arith

  cons-Delivers :
      (endpoint : Bytes) (rs : List StormReport) (rep : Reply) (xs : List (Request × Reply))
      → Transient rep
      → Delivers endpoint rs xs
      → Delivers endpoint rs ((record { endpoint = endpoint; if_none_match = [] }, rep) ∷ xs)
  cons-Delivers endpoint rs rep [] t h = elim h [ ]
  cons-Delivers endpoint rs rep (x ∷ xs) t h = (refl, t, h)

  -- If the call returned reports, they are those of its last exchange.
  abbrev pub Explained : Bytes → ReportsFetch → List (Request × Reply) → Type 0
  Explained endpoint (reports rs) xs = Delivers endpoint rs xs
  Explained endpoint (no_reports e) xs = Unit

  again-Explained :
      (endpoint : Bytes) (rep : Reply) (f : ReportsFetch) (xs : List (Request × Reply))
      → Transient rep
      → Explained endpoint f xs
      → Explained endpoint f ((record { endpoint = endpoint; if_none_match = [] }, rep) ∷ xs)
  again-Explained endpoint rep (reports rs) xs t h = cons-Delivers endpoint rs rep xs t h
  again-Explained endpoint rep (no_reports e) xs t h = tt

  proceed-Explained :
      (endpoint : Bytes) (rep : Reply) (n : ℕ) (s : ReportsStep) (rest : FetchError → ReportsResult)
      → StepOf rep s
      → ((e : FetchError)
          → Explained endpoint (rest e).outcome (rest e).exchanges
            × (length (rest e).exchanges ≤ n))
      → let r =
          note_exchange (record { endpoint = endpoint; if_none_match = [] }) rep (proceed s rest) in
        Explained endpoint r.outcome r.exchanges × (length r.exchanges ≤ suc n)
  unfolding proceed
  proceed-Explained endpoint rep n (done (reports rs)) rest h k = ((refl, h), omega arith)
  proceed-Explained endpoint rep n (done (no_reports e)) rest h k = (tt, omega arith)
  proceed-Explained endpoint rep n (again e) rest h k = (
    again-Explained endpoint rep (rest e).outcome (rest e).exchanges h (k e).0,
    omega (arith, (k e).1),
  )

  fetch_from-Explained :
      (up : Upstream) (endpoint : Bytes) (rounds attempt : ℕ) (last : Option FetchError)
      → let r = fetch_from parse up endpoint rounds attempt last in
        Explained endpoint r.outcome r.exchanges × (length r.exchanges ≤ rounds)
  unfolding fetch_from
  fetch_from-Explained up endpoint zero attempt last = (tt, omega arith)
  fetch_from-Explained up endpoint (suc rounds) attempt last =
      let req : Request = record { endpoint = endpoint; if_none_match = [] } in
      let rep = up.reply attempt req in
      let r = note_exchange req rep (
        proceed (after_reply parse up attempt rep)
          (λ err. fetch_from parse up endpoint rounds (suc attempt) (some err))) in
      let h =
        proceed-Explained endpoint rep rounds (after_reply parse up attempt rep)
          (λ err. fetch_from parse up endpoint rounds (suc attempt) (some err))
          (after_reply-StepOf up attempt rep)
          (λ err. fetch_from-Explained up endpoint rounds (suc attempt) (some err)) in
      elim (up.request_fails attempt)
        as (λ b.
          let z : ReportsResult = elim b [
            | true ↦ record { outcome = no_reports (some creating_request); exchanges = [] }
            | false ↦ r
          ] in
          Explained endpoint z.outcome z.exchanges × (length z.exchanges ≤ suc rounds)) [
            | true ↦ (tt, omega arith)
            | false ↦ h
          ]

-- A call makes at most three requests, and if it returns reports, each request was for the feed's
-- file, every reply but the last was a transient failure, and the last had status 200 and a body that
-- parses, up to its limit, to exactly those reports.
pub fetch_reports-Explained :
    (parse : Bytes → Bytes → Option (List StormReport)) (up : Upstream) (file kind : Bytes)
    → let r = fetch_reports parse up file kind in
      Explained (parse kind) (base_url ++ (lit "/" ++ file)) r.outcome r.exchanges
      × (length r.exchanges ≤ 3)
unfolding fetch_reports
fetch_reports-Explained parse up file kind =
    fetch_from-Explained (parse kind) up (base_url ++ (lit "/" ++ file)) max_attempts 0 none
