-- ===== src/Nws/Client/Examples.antt =====
-- The theorems about FetchActiveAlerts at a concrete server: it is down once, and then it answers
-- with a payload that does not decode.
use seestorm_ingest.Base.{ℕ, zero, suc, false, ◌≤◌, Option, none, some, List, [], length, refl}
use seestorm_ingest.Base.Bytes.{Bytes, lit}
use seestorm_ingest.Base.Maps.{Map}
use seestorm_ingest.Http.{Reply, transport_error, response, Request, Upstream}
use seestorm_ingest.Nws.Alert.{AlertsResponse}
use seestorm_ingest.Nws.Client.{fetch_active_alerts, alerts_endpoint, or_empty}
use seestorm_ingest.Nws.Client.Exchanges.{fetch_active_alerts-Explains, Explains}
use seestorm_ingest.Nws.Client.Etags.{fetch_active_alerts-EtagsAfter, EtagsAfter}

abbrev replies : ℕ → Request → Reply
replies zero req = transport_error
replies (suc k) req =
    response (record { status = 200; etag = lit "v2"; retry_after = []; body = lit "{" })

abbrev server : Upstream
server = record {
  request_fails = λ k. false;
  reply = replies;
  remaining = λ k. none;
  interrupted = λ k. false;
  random = λ k n. 0;
}

abbrev encode : List (Bytes × Bytes) → Bytes
encode q = lit "area=WI&status=actual"

abbrev decode : Bytes → Option AlertsResponse
decode s = none

abbrev known : Map Bytes
known k = some (lit "v1")

fetch_active_alerts-Explains_example :
    let r = fetch_active_alerts encode decode server (lit "WI") known in
    let endpoint = alerts_endpoint encode (lit "WI") in
    (length r.exchanges ≤ 3)
    × Explains decode endpoint (or_empty (known endpoint)) r.outcome r.exchanges
fetch_active_alerts-Explains_example =
    fetch_active_alerts-Explains decode encode server (lit "WI") known (λ k. refl)

fetch_active_alerts-EtagsAfter_example :
    let r = fetch_active_alerts encode decode server (lit "WI") known in
    let endpoint = alerts_endpoint encode (lit "WI") in
    EtagsAfter endpoint endpoint known r.outcome r.etags
fetch_active_alerts-EtagsAfter_example =
    fetch_active_alerts-EtagsAfter decode encode server (lit "WI") known
      (alerts_endpoint encode (lit "WI"))
