-- ===== src/Healthcheck.antt =====
-- internal/healthcheck/pinger.go: New, httpClient, ping. net/http is a parameter: whether the request can
-- be built, and the status of the reply, if there is one.
use seestorm_ingest.Base.{ℕ, Bool, ◌*◌, Option, none, some, leb, if◌then◌else◌, min}
use seestorm_ingest.Base.Bytes.{Bytes}
use seestorm_ingest.Duration.{second}

abbrev ping_timeout : ℕ
ping_timeout = 5 * second

-- The address, and the timeout of the client, where one is set.
pub record Pinger : Type 0 where
  pub url : Bytes
  pub client_timeout : Option ℕ

unfoldable pub new_pinger : Bytes → Pinger
new_pinger url = record { url = url; client_timeout = none }

-- The timeout of the client that is used
unfoldable pub http_client : Pinger → ℕ
http_client p = elim p.client_timeout [ some t ↦ t | none ↦ ping_timeout ]

pub data Warning : Type 0 where
  build_request_failed ping_failed : Warning
  non_2xx : ℕ → Warning

-- What is logged, if anything; nothing else comes of a ping. The client's own timeout bounds it, and so
-- does that of a context which does not depend on the cycle's.
unfoldable pub ping : (Bytes → Bool) → (ℕ → Option ℕ) → Pinger → Option Warning
unfolding http_client
ping request_builds status p =
    if request_builds p.url
    then elim (status (min (http_client p) ping_timeout)) [
      | none ↦ some ping_failed
      | some code ↦ if leb 300 code then some (non_2xx code) else none
    ]
    else some build_request_failed
