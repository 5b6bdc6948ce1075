-- ===== src/Poller/Alerts/Conditional.antt =====
-- About FetchActiveAlerts as pollAlerts calls it, with a server that answers 304 only to a request
-- that carries an ETag.
use seestorm_ingest.Base.{
  ℕ, zero, suc, ◌≡◌, ◌≢◌, refl, Option, some, [], arith, inl, inr, Bool-cases,
}
use seestorm_ingest.Base.Bytes.{Bytes}
use seestorm_ingest.Base.Maps.{Map}
use seestorm_ingest.Http.{Response, Reply, transport_error, response, Request, Upstream, FetchError}
use seestorm_ingest.Nws.Alert.{AlertsResponse}
use seestorm_ingest.Nws.Client.{
  Fetch, not_modified, Step, done, again, accept, after_reply, proceed, fetch_from, FetchResult,
}
use seestorm_ingest.Nws.Client.Exchanges.{fetch_from-suc}
use seestorm_ingest.Nws.Client.Etags.{fetch_from-zero, fetch_from-fails}

abbrev pub Honest : Upstream → Type 0
Honest up =
    (k : ℕ) (req : Request) (resp : Response)
    → up.reply k req ≡ response resp
    → resp.status ≡ 304
    → req.if_none_match ≢ []

abbrev pub IfModified : Bytes → Fetch → Type 0
IfModified tag not_modified = tag ≢ []
IfModified tag _ = Unit

abbrev StepIfModified : Bytes → Step → Type 0
StepIfModified tag (done m o) = IfModified tag o
StepIfModified tag (again e) = Unit

module _ (decode : Bytes → Option AlertsResponse) where
  accept-StepIfModified :
      (tag endpoint : Bytes) (etags : Map Bytes) (resp : Response)
      → StepIfModified tag (accept decode endpoint etags resp)
  unfolding accept
  accept-StepIfModified tag endpoint etags resp = ground arith

  after_reply-StepIfModified :
      (up : Upstream) (tag endpoint : Bytes) (attempt : ℕ) (etags : Map Bytes) (rep : Reply)
      → ((resp : Response) → rep ≡ response resp → resp.status ≡ 304 → tag ≢ [])
      → StepIfModified tag (after_reply decode up endpoint attempt etags rep)
  unfolding after_reply
  after_reply-StepIfModified up tag endpoint attempt etags transport_error h = ground arith
  after_reply-StepIfModified up tag endpoint attempt etags (response resp) h =
      let a = accept-StepIfModified tag endpoint etags resp in let g = h resp refl in ground arith

  proceed-IfModified :
      (tag : Bytes) (s : Step) (rest : FetchError → FetchResult)
      → StepIfModified tag s
      → ((e : FetchError) → IfModified tag (rest e).outcome)
      → IfModified tag (proceed s rest).outcome
  unfolding proceed
  proceed-IfModified tag (done m o) rest h f = h
  proceed-IfModified tag (again e) rest h f = f e

  pub fetch_from-IfModified :
      (up : Upstream) (endpoint tag : Bytes) (rounds attempt : ℕ) (e : Option FetchError)
      (etags : Map Bytes)
      → Honest up
      → IfModified tag (fetch_from decode up endpoint tag rounds attempt e etags).outcome
  fetch_from-IfModified up endpoint tag zero attempt e etags honest =
      rw (fetch_from-zero decode up endpoint tag attempt e etags) tt
  fetch_from-IfModified up endpoint tag (suc rounds) attempt e etags honest =
      let req : Request = record { endpoint = endpoint; if_none_match = tag } in
      let rep = up.reply attempt req in
      elim (Bool-cases (up.request_fails attempt)) [
        | inl p ↦ rw (fetch_from-fails decode up endpoint tag rounds attempt e etags p) tt
        | inr p ↦ rw (fetch_from-suc decode up endpoint tag rounds attempt e etags p) (
            proceed-IfModified tag (after_reply decode up endpoint attempt etags rep)
              (λ err. fetch_from decode up endpoint tag rounds (suc attempt) (some err) etags)
              (after_reply-StepIfModified up tag endpoint attempt etags rep (honest attempt req))
              (λ err.
                fetch_from-IfModified up endpoint tag rounds (suc attempt) (some err) etags honest))
      ]
