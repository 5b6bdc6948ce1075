-- ===== src/Nws/Client.antt =====
-- internal/nws/client.go: FetchActiveAlerts, with its retries and its map of ETags.
pub mod Exchanges
pub mod Etags
pub mod Examples
use seestorm_ingest.Base.{
  take, ℕ, zero, suc, Bool, true, false, not, Option, none, some, List, [], ◌∷◌, ◌==◌,
  if◌then◌else◌, ◌++◌,
}
use seestorm_ingest.Base.Bytes.{Bytes, lit, bytes_eq}
use seestorm_ingest.Base.Int.{ℤ, pos, ltb_ℤ}
use seestorm_ingest.Base.Maps.{Map, put, delete}
use seestorm_ingest.Duration.{nws_response_max_bytes}
use seestorm_ingest.Http.{
  Response, Reply, transport_error, response, Request, Upstream, FetchError, creating_request,
  fetching, decoding, bad_status,
}
use seestorm_ingest.Retry.{max_attempts, is_retryable_status, parse_retry_after, next_delay, sleeps}
use seestorm_ingest.Nws.Alert.{AlertsResponse}

unfoldable pub retry_after_resp : Upstream → ℕ → Option ℤ → Bool
retry_after_resp up attempt retry_after =
    if suc attempt == max_attempts
    then false
    else elim (next_delay (up.random attempt) (up.remaining attempt) attempt retry_after) [
      | none ↦ false
      | some delay ↦ sleeps (up.interrupted attempt) delay
    ]

unfoldable pub retry_after_err : Upstream → ℕ → Bool
unfolding retry_after_resp
retry_after_err up attempt = retry_after_resp up attempt none

pub data Fetch : Type 0 where
  fetched : AlertsResponse → Fetch
  not_modified : Fetch
  failed : Option FetchError → Fetch

-- The outcome of a call, the client's map after it, and what went over the wire, in order.
pub record FetchResult : Type 0 where
  pub outcome : Fetch
  pub etags : Map Bytes
  pub exchanges : List (Request × Reply)

abbrev pub stop : Map Bytes → Fetch → FetchResult
stop etags outcome = record { outcome = outcome; etags = etags; exchanges = [] }

abbrev pub note_exchange : Request → Reply → FetchResult → FetchResult
note_exchange req rep r = record r { exchanges = (req, rep) ∷ r.exchanges }

pub data Step : Type 0 where
  done : Map Bytes → Fetch → Step
  again : FetchError → Step

unfoldable pub proceed : Step → (FetchError → FetchResult) → FetchResult
proceed (done etags outcome) rest = stop etags outcome
proceed (again err) rest = rest err

-- A map with the previous value of a key put back.
unfoldable pub restore : Bytes → Option Bytes → Map Bytes → Map Bytes
restore k (some v) m = put k v m
restore k none m = delete k m

-- `decode` is the JSON decoder, on the body up to its limit.
module _ (decode : Bytes → Option AlertsResponse) where
  -- The part for 200 OK
  unfoldable pub accept : Bytes → Map Bytes → Response → Step
  unfolding restore
  accept endpoint etags resp =
      let captured = if bytes_eq resp.etag [] then etags else put endpoint resp.etag etags in
      let rolled_back =
        if bytes_eq resp.etag [] then captured else restore endpoint (etags endpoint) captured in
      elim (decode (take nws_response_max_bytes resp.body)) [
        | none ↦ done rolled_back (failed (some decoding))
        | some alerts ↦ done captured (fetched alerts)
      ]

  -- The body of the loop from the reply on: it returns, or it continues with this last error.
  unfoldable pub after_reply : Upstream → Bytes → ℕ → Map Bytes → Reply → Step
  unfolding accept retry_after_err
  after_reply up endpoint attempt etags transport_error =
      if retry_after_err up attempt then again fetching else done etags (failed (some fetching))
  after_reply up endpoint attempt etags (response resp) =
      let err = bad_status resp.status in
      if resp.status == 304
      then done etags not_modified
      else if resp.status == 200
      then accept endpoint etags resp
      else if is_retryable_status resp.status
      then (if retry_after_resp up attempt (parse_retry_after resp.retry_after)
          then again err
          else done etags (failed (some err)))
      else done etags (failed (some err))

  -- The loop: `rounds` attempts are left.
  unfoldable pub fetch_from :
      Upstream → Bytes → Bytes → ℕ → ℕ → Option FetchError → Map Bytes → FetchResult
  unfolding after_reply proceed
  fetch_from up endpoint last_etag zero attempt last_err etags = stop etags (failed last_err)
  fetch_from up endpoint last_etag (suc rounds) attempt last_err etags =
      let req : Request = record { endpoint = endpoint; if_none_match = last_etag } in
      let rep = up.reply attempt req in
      elim (up.request_fails attempt) [
        | true ↦ stop etags (failed (some creating_request))
        | false ↦ note_exchange req rep (
            proceed (after_reply up endpoint attempt etags rep)
              (λ err. fetch_from up endpoint last_etag rounds (suc attempt) (some err) etags))
      ]

abbrev pub or_empty : Option Bytes → Bytes
or_empty none = []
or_empty (some s) = s

abbrev base_url : Bytes
base_url = lit "https://api.weather.gov"

-- `encode` is url.Values.Encode of the query.
unfoldable pub alerts_endpoint : (List (Bytes × Bytes) → Bytes) → Bytes → Bytes
alerts_endpoint encode area =
    base_url
    ++ (lit "/alerts/active?" ++ encode ((lit "area", area) ∷ (lit "status", lit "actual") ∷ []))

module _ (encode : List (Bytes × Bytes) → Bytes) (decode : Bytes → Option AlertsResponse) where
  unfoldable pub fetch_active_alerts : Upstream → Bytes → Map Bytes → FetchResult
  unfolding fetch_from
  fetch_active_alerts up area etags =
      let endpoint = alerts_endpoint encode area in
      fetch_from decode up endpoint (or_empty (etags endpoint)) max_attempts 0 none etags
