-- ===== src/Nws/Client/Etags.antt =====
-- About FetchActiveAlerts of internal/nws/client.go: the client's map of ETags.
use seestorm_ingest.Base.{
  ℕ, zero, suc, ◌≡◌, refl, ◌⊎◌, inl, inr, true, Option, none, some, arith, Bool-cases, List, ap,
}
use seestorm_ingest.Base.Bytes.{Bytes, bytes_eq_iff}
use seestorm_ingest.Base.Maps.{Map, put, delete}
use seestorm_ingest.Http.{Reply, transport_error, response, Request, Upstream, FetchError, Response}
use seestorm_ingest.Nws.Alert.{AlertsResponse}
use seestorm_ingest.Http.{creating_request}
use seestorm_ingest.Nws.Client.Exchanges.{fetch_from-suc}
use seestorm_ingest.Nws.Client.{
  stop, failed, alerts_endpoint, fetch_active_alerts, fetch_from, accept, Fetch, fetched, Step,
  after_reply, done, again, FetchResult, proceed, restore,
}

-- At a key: the map keeps it, unless a payload was decoded and the key is the endpoint.
abbrev pub EtagsAfter : Bytes → Bytes → Map Bytes → Fetch → Map Bytes → Type 0
EtagsAfter k endpoint before (fetched alerts) after = (k ≡ endpoint) ⊎ (after k ≡ before k)
EtagsAfter k endpoint before _ after = after k ≡ before k

abbrev StepEtags : Bytes → Bytes → Map Bytes → Step → Type 0
StepEtags k endpoint before (done after outcome) = EtagsAfter k endpoint before outcome after
StepEtags k endpoint before (again e) = Unit

captured_other :
    (k endpoint tag : Bytes) (m : Map Bytes) → (k ≡ endpoint) ⊎ (put endpoint tag m k ≡ m k)
unfolding put
captured_other k endpoint tag m = ground (arith, bytes_eq_iff k endpoint)

-- Putting the previous value back undoes a write.
restore-put :
    (k endpoint tag : Bytes) (m : Map Bytes) (v : Option Bytes)
    → m endpoint ≡ v
    → restore endpoint v (put endpoint tag m) k ≡ m k
unfolding put restore delete
restore-put k endpoint tag m none h =
    let e = bytes_eq_iff k endpoint in
    let same : k ≡ endpoint → m k ≡ m endpoint = λ p. ap m p in ground arith
restore-put k endpoint tag m (some v) h =
    let e = bytes_eq_iff k endpoint in
    let same : k ≡ endpoint → m k ≡ m endpoint = λ p. ap m p in ground arith

module _ (decode : Bytes → Option AlertsResponse) where
  accept-StepEtags :
      (k endpoint : Bytes) (etags : Map Bytes) (resp : Response)
      → StepEtags k endpoint etags (accept decode endpoint etags resp)
  unfolding accept
  accept-StepEtags k endpoint etags resp =
      let other = captured_other k endpoint resp.etag etags in
      let back = restore-put k endpoint resp.etag etags (etags endpoint) refl in ground arith

  after_reply-StepEtags :
      (k : Bytes) (up : Upstream) (endpoint : Bytes) (attempt : ℕ) (etags : Map Bytes) (rep : Reply)
      → StepEtags k endpoint etags (after_reply decode up endpoint attempt etags rep)
  unfolding after_reply
  after_reply-StepEtags k up endpoint attempt etags transport_error = ground arith
  after_reply-StepEtags k up endpoint attempt etags (response resp) =
      let h = accept-StepEtags k endpoint etags resp in ground arith

  proceed-EtagsAfter :
      (k endpoint : Bytes) (etags : Map Bytes) (s : Step) (rest : FetchError → FetchResult)
      → StepEtags k endpoint etags s
      → ((e : FetchError) → EtagsAfter k endpoint etags (rest e).outcome (rest e).etags)
      → EtagsAfter k endpoint etags (proceed s rest).outcome (proceed s rest).etags
  unfolding proceed
  proceed-EtagsAfter k endpoint etags (done m o) rest h f = h
  proceed-EtagsAfter k endpoint etags (again e) rest h f = f e

  pub fetch_from-zero :
      (up : Upstream) (endpoint tag : Bytes) (attempt : ℕ) (e : Option FetchError)
      (etags : Map Bytes)
      → fetch_from decode up endpoint tag 0 attempt e etags ≡ stop etags (failed e)
  unfolding fetch_from
  fetch_from-zero up endpoint tag attempt e etags = refl

  pub fetch_from-fails :
      (up : Upstream) (endpoint tag : Bytes) (rounds attempt : ℕ) (e : Option FetchError)
      (etags : Map Bytes)
      → up.request_fails attempt ≡ true
      → fetch_from decode up endpoint tag (suc rounds) attempt e etags
        ≡ stop etags (failed (some creating_request))
  unfolding fetch_from
  fetch_from-fails up endpoint tag rounds attempt e etags p = rw (p, fetch_from)

  fetch_from-EtagsAfter :
      (k : Bytes) (up : Upstream) (endpoint tag : Bytes) (rounds attempt : ℕ)
      (e : Option FetchError) (etags : Map Bytes)
      → let r = fetch_from decode up endpoint tag rounds attempt e etags in
        EtagsAfter k endpoint etags r.outcome r.etags
  fetch_from-EtagsAfter k up endpoint tag zero attempt e etags =
      rw (fetch_from-zero up endpoint tag attempt e etags)
  fetch_from-EtagsAfter k up endpoint tag (suc rounds) attempt e etags =
      let req : Request = record { endpoint = endpoint; if_none_match = tag } in
      let rep = up.reply attempt req in
      let h =
        proceed-EtagsAfter k endpoint etags (after_reply decode up endpoint attempt etags rep)
          (λ err. fetch_from decode up endpoint tag rounds (suc attempt) (some err) etags)
          (after_reply-StepEtags k up endpoint attempt etags rep)
          (λ err. fetch_from-EtagsAfter k up endpoint tag rounds (suc attempt) (some err) etags) in
      elim (Bool-cases (up.request_fails attempt)) [
        | inl p ↦ rw (fetch_from-fails up endpoint tag rounds attempt e etags p)
        | inr p ↦ rw (fetch_from-suc decode up endpoint tag rounds attempt e etags p) h
      ]

  -- A call changes the client's map of ETags at most at its own endpoint, and there only if it
  -- returns a decoded payload: after a 304, an error of any kind or a payload that does not decode
  -- every key has its old value.
  pub fetch_active_alerts-EtagsAfter :
      (encode : List (Bytes × Bytes) → Bytes) (up : Upstream) (area : Bytes) (etags : Map Bytes)
      (k : Bytes)
      → let r = fetch_active_alerts encode decode up area etags in
        EtagsAfter k (alerts_endpoint encode area) etags r.outcome r.etags
  unfolding fetch_active_alerts
  fetch_active_alerts-EtagsAfter encode up area etags k =
      fetch_from-EtagsAfter k up _ _ 3 0 none etags
