-- ===== src/Http.antt =====
-- What internal/nws/client.go uses of net/http and of its context: one call's surroundings.
use seestorm_ingest.Base.{ℕ, Bool, Option}
use seestorm_ingest.Base.Bytes.{Bytes}
use seestorm_ingest.Base.Int.{ℤ}

-- The texts are empty where a header is missing.
pub record Response : Type 0 where
  pub status : ℕ
  pub etag : Bytes
  pub retry_after : Bytes
  pub body : Bytes

pub data Reply : Type 0 where
  transport_error : Reply
  response : Response → Reply

-- The request's varying parts: the address, and the If-None-Match header (empty: not set).
pub record Request : Type 0 where
  pub endpoint : Bytes
  pub if_none_match : Bytes

-- At each attempt, counted from 0: the reply, the time left before the deadline when the wait is
-- computed, whether the context ends during the wait, and the random numbers.
pub record Upstream : Type 0 where
  pub request_fails : ℕ → Bool
  pub reply : ℕ → Request → Reply
  pub remaining : ℕ → Option ℤ
  pub interrupted : ℕ → Bool
  pub random : ℕ → ℕ → ℕ

pub data FetchError : Type 0 where
  creating_request fetching decoding : FetchError
  bad_status : ℕ → FetchError
