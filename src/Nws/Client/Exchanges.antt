-- ===== src/Nws/Client/Exchanges.antt =====
-- About FetchActiveAlerts of internal/nws/client.go: its requests and its outcome.
use seestorm_ingest.Base.{
  ℕ, zero, suc, ◌≤◌, ◌≡◌, ◌⊎◌, true, Option, none, some, List, [], ◌∷◌, arith, length, take, false,
  ◌+◌, ◌≢◌, ◌<◌, refl,
}
use seestorm_ingest.Base.Bytes.{Bytes}
use seestorm_ingest.Base.Maps.{Map}
use seestorm_ingest.Duration.{nws_response_max_bytes}
use seestorm_ingest.Http.{
  Reply, transport_error, response, Request, Upstream, FetchError, fetching, decoding, bad_status,
  Response,
}
use seestorm_ingest.Retry.{is_retryable_status, max_attempts}
use seestorm_ingest.Nws.Alert.{AlertsResponse}
use seestorm_ingest.Nws.Client.{
  fetch_from, accept, Fetch, fetched, not_modified, failed, Step, after_reply, done, again,
  retry_after_err, fetch_active_alerts, retry_after_resp, proceed, alerts_endpoint, or_empty,
  FetchResult, note_exchange,
}

abbrev Transient : Request × Reply → Type 0
Transient (req, transport_error) = Unit
Transient (req, response resp) = is_retryable_status resp.status ≡ true

-- One reply ends the call with this outcome.
abbrev Ends : (Bytes → Option AlertsResponse) → Reply → Fetch → Type 0
Ends decode (response resp) (fetched alerts) =
    (resp.status ≡ 200) × (decode (take nws_response_max_bytes resp.body) ≡ some alerts)
Ends decode (response resp) not_modified = resp.status ≡ 304
Ends decode (response resp) (failed e) =
    ((resp.status ≡ 200)
      × (decode (take nws_response_max_bytes resp.body) ≡ none)
      × (e ≡ some decoding))
    ⊎ (e ≡ some (bad_status resp.status))
Ends decode transport_error (failed e) = e ≡ some fetching
Ends decode transport_error _ = ⊥

-- Every exchange but the last met a transient failure, and the last ends the call.
abbrev pub Explains :
    (Bytes → Option AlertsResponse) → Bytes → Bytes → Fetch → List (Request × Reply) → Type 0
Explains decode endpoint tag outcome [] = ⊥
Explains decode endpoint tag outcome ((req, rep) ∷ []) =
    (req ≡ record { endpoint = endpoint; if_none_match = tag }) × Ends decode rep outcome
Explains decode endpoint tag outcome ((req, rep) ∷ x ∷ xs) =
    (req ≡ record { endpoint = endpoint; if_none_match = tag })
    × Transient (req, rep)
    × Explains decode endpoint tag outcome (x ∷ xs)

abbrev FollowsFrom : (Bytes → Option AlertsResponse) → Request × Reply → Step → Type 0
FollowsFrom decode (req, rep) (done etags outcome) = Ends decode rep outcome
FollowsFrom decode (req, rep) (again err) = Transient (req, rep)

module _ (decode : Bytes → Option AlertsResponse) where
  accept-Ends :
      (up : Upstream) (endpoint : Bytes) (attempt : ℕ) (etags : Map Bytes) (req : Request)
      (resp : Response)
      → resp.status ≡ 200
      → FollowsFrom decode (req, response resp) (accept decode endpoint etags resp)
  unfolding accept
  accept-Ends up endpoint attempt etags req resp h = ground arith

  after_reply-FollowsFrom :
      (up : Upstream) (endpoint : Bytes) (attempt : ℕ) (etags : Map Bytes) (req : Request)
      (rep : Reply)
      → FollowsFrom decode (req, rep) (after_reply decode up endpoint attempt etags rep)
  unfolding after_reply
  after_reply-FollowsFrom up endpoint attempt etags req transport_error = ground arith
  after_reply-FollowsFrom up endpoint attempt etags req (response resp) =
      let h = accept-Ends up endpoint attempt etags req resp in ground arith

  again-attempt :
      (up : Upstream) (endpoint : Bytes) (attempt : ℕ) (etags : Map Bytes) (rep : Reply)
      (e : FetchError)
      → after_reply decode up endpoint attempt etags rep ≡ again e
      → suc attempt ≢ max_attempts
  unfolding after_reply accept retry_after_err retry_after_resp
  again-attempt up endpoint attempt etags transport_error e h = ground arith
  again-attempt up endpoint attempt etags (response resp) e h = ground arith

  cons-Explains :
      (endpoint tag : Bytes) (rep : Reply) (outcome : Fetch) (xs : List (Request × Reply))
      → Transient (record { endpoint = endpoint; if_none_match = tag }, rep)
      → Explains decode endpoint tag outcome xs
      → Explains decode endpoint tag outcome
          ((record { endpoint = endpoint; if_none_match = tag }, rep) ∷ xs)
  cons-Explains endpoint tag rep outcome [] h k = elim k [ ]
  cons-Explains endpoint tag rep outcome (x ∷ xs) h k = (refl, h, k)

  proceed-length :
      (s : Step) (rest : FetchError → FetchResult) (n : ℕ)
      → ((e : FetchError) → length (rest e).exchanges ≤ n)
      → length (proceed s rest).exchanges ≤ n
  unfolding proceed
  proceed-length (done etags outcome) rest n h = omega arith
  proceed-length (again e) rest n h = h e

  fetch_from-length :
      (up : Upstream) (endpoint tag : Bytes) (rounds attempt : ℕ) (e : Option FetchError)
      (etags : Map Bytes)
      → length (fetch_from decode up endpoint tag rounds attempt e etags).exchanges ≤ rounds
  unfolding fetch_from
  fetch_from-length up endpoint tag zero attempt e etags = omega arith
  fetch_from-length up endpoint tag (suc rounds) attempt e etags =
      let req : Request = record { endpoint = endpoint; if_none_match = tag } in
      let h =
        proceed-length (after_reply decode up endpoint attempt etags (up.reply attempt req))
          (λ err. fetch_from decode up endpoint tag rounds (suc attempt) (some err) etags) rounds
          (λ err. fetch_from-length up endpoint tag rounds (suc attempt) (some err) etags) in
      grind arith

  proceed-Explains :
      (endpoint tag : Bytes) (rep : Reply) (s : Step) (rest : FetchError → FetchResult)
      → let req : Request = record { endpoint = endpoint; if_none_match = tag } in
        FollowsFrom decode (req, rep) s
        → ((e : FetchError)
            → s ≡ again e
            → Explains decode endpoint tag (rest e).outcome (rest e).exchanges)
        → let r = proceed s rest in
          Explains decode endpoint tag r.outcome ((req, rep) ∷ r.exchanges)
  unfolding proceed
  proceed-Explains endpoint tag rep (done etags outcome) rest h k = (refl, h)
  proceed-Explains endpoint tag rep (again e) rest h k =
      cons-Explains endpoint tag rep (rest e).outcome (rest e).exchanges h (k e refl)

  pub fetch_from-suc :
      (up : Upstream) (endpoint tag : Bytes) (rounds attempt : ℕ) (e : Option FetchError)
      (etags : Map Bytes)
      → up.request_fails attempt ≡ false
      → let req : Request = record { endpoint = endpoint; if_none_match = tag } in
        let rep = up.reply attempt req in
        fetch_from decode up endpoint tag (suc rounds) attempt e etags
        ≡ note_exchange req rep (
            proceed
              (after_reply decode up endpoint attempt etags rep)
              (λ err. fetch_from decode up endpoint tag rounds (suc attempt) (some err) etags))
  unfolding fetch_from
  fetch_from-suc up endpoint tag rounds attempt e etags ok = rw (ok, fetch_from)

  fetch_from-Explains :
      (up : Upstream) (endpoint tag : Bytes) (rounds attempt : ℕ) (e : Option FetchError)
      (etags : Map Bytes)
      → ((k : ℕ) → up.request_fails k ≡ false)
      → rounds + attempt ≡ max_attempts
      → 0 < rounds
      → let r = fetch_from decode up endpoint tag rounds attempt e etags in
        Explains decode endpoint tag r.outcome r.exchanges
  fetch_from-Explains up endpoint tag zero attempt e etags ok sum p = absurd (omega arith)
  fetch_from-Explains up endpoint tag (suc rounds) attempt e etags ok sum p =
      let req : Request = record { endpoint = endpoint; if_none_match = tag } in
      let rep = up.reply attempt req in
      rw (fetch_from-suc up endpoint tag rounds attempt e etags (ok attempt)) (
        proceed-Explains endpoint tag rep (after_reply decode up endpoint attempt etags rep) _
          (after_reply-FollowsFrom up endpoint attempt etags req rep)
          (λ err h.
            let next = again-attempt up endpoint attempt etags rep err h in
            fetch_from-Explains up endpoint tag rounds (suc attempt) (some err) etags ok
              (omega arith) (omega arith)))

  -- One call sends at most 3 requests, each with the ETag that the call began with. All but the
  -- last met a transient failure (an error of the transport, 429 or 5xx), and the last one's reply
  -- gives the outcome: the decoded payload only for a 200 that decodes, "not modified" only for a
  -- 304, and otherwise that reply's error. The condition is that the request can be built.
  pub fetch_active_alerts-Explains :
      (encode : List (Bytes × Bytes) → Bytes) (up : Upstream) (area : Bytes) (etags : Map Bytes)
      → ((k : ℕ) → up.request_fails k ≡ false)
      → let r = fetch_active_alerts encode decode up area etags in
        let endpoint = alerts_endpoint encode area in
        (length r.exchanges ≤ 3)
        × Explains decode endpoint (or_empty (etags endpoint)) r.outcome r.exchanges
  unfolding fetch_active_alerts
  fetch_active_alerts-Explains encode up area etags ok = (
    fetch_from-length up _ _ 3 0 none etags,
    fetch_from-Explains up _ _ 3 0 none etags ok (omega arith) (omega arith),
  )
