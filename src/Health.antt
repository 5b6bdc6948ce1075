-- ===== src/Health.antt =====
-- internal/health: registry.go and handler.go. A nil registry is `none`; times are integers.
pub mod Freshness
pub mod Examples
use seestorm_ingest.Base.{ℕ, suc, ◌+◌, Bool, Option, none, some, List, [], ◌∷◌, ◌++◌, if◌then◌else◌}
use seestorm_ingest.Base.Bytes.{Bytes, lit}
use seestorm_ingest.Base.Int.{ℤ, ◌-ℤ◌, ltb_ℤ}
use seestorm_ingest.Base.Maps.{Map, put}

abbrev pub Feed : Type 0
Feed = Bytes

abbrev pub feed_alerts : Feed
feed_alerts = lit "alerts"

abbrev pub feed_spc_torn : Feed
feed_spc_torn = lit "spc_tornado"

abbrev pub feed_spc_hail : Feed
feed_spc_hail = lit "spc_hail"

abbrev pub feed_spc_wind : Feed
feed_spc_wind = lit "spc_wind"

abbrev pub feed_publish : Feed
feed_publish = lit "publish"

pub record Registry : Type 0 where
  pub last : Map ℤ
  pub publish_failures : Map ℕ

abbrev pub new_registry : Registry
new_registry = record { last = λ k. none; publish_failures = λ k. none }

unfoldable pub record_success : Option Registry → Feed → ℤ → Option Registry
record_success none feed t = none
record_success (some r) feed t = some (record r { last = put feed t r.last })

unfoldable pub last_success : Option Registry → Feed → Option ℤ
last_success none feed = none
last_success (some r) feed = r.last feed

-- A missing counter is 0.
abbrev count : Option ℕ → ℕ
count none = 0
count (some n) = n

unfoldable pub record_publish_put_failure : Option Registry → Bytes → Option Registry
record_publish_put_failure none state = none
record_publish_put_failure (some r) state = some (record r {
  publish_failures = put state (count (r.publish_failures state) + 1) r.publish_failures;
})

unfoldable pub reset_publish_failures : Option Registry → Option Registry
reset_publish_failures none = none
reset_publish_failures (some r) = some (record r { publish_failures = λ k. none })

unfoldable pub publish_put_failures : Option Registry → Map ℕ
publish_put_failures none = λ k. none
publish_put_failures (some r) = r.publish_failures

unfoldable pub required_feeds : Bool → Bool → List Feed
required_feeds should_ingest should_publish =
    (if should_ingest then feed_alerts ∷ feed_spc_torn ∷ feed_spc_hail ∷ feed_spc_wind ∷ [] else [])
    ++ (if should_publish then feed_publish ∷ [] else [])

-- The time of its last success, if it ever had one.
pub record StaleFeed : Type 0 where
  pub feed : Feed
  pub last_success : Option ℤ

unfoldable pub stale_feeds : Option Registry → ℤ → List Feed → List StaleFeed
unfolding last_success
stale_feeds reg cutoff [] = []
stale_feeds reg cutoff (f ∷ feeds) =
    let rest = stale_feeds reg cutoff feeds in
    elim (last_success reg f) [
      | none ↦ record { feed = f; last_success = none } ∷ rest
      | some t ↦ if ltb_ℤ t cutoff then record { feed = f; last_success = some t } ∷ rest else rest
    ]

pub record HealthResponse : Type 0 where
  pub code : ℕ
  pub status : Bytes
  pub stale : List StaleFeed

-- The status code and the body
abbrev pub respond : List StaleFeed → HealthResponse
respond [] = record { code = 200; status = lit "ok"; stale = [] }
respond (x ∷ xs) = record { code = 503; status = lit "stale"; stale = x ∷ xs }

unfoldable pub health_handler : Option Registry → List Feed → ℤ → ℤ → HealthResponse
unfolding stale_feeds
health_handler reg feeds max_age now = respond (stale_feeds reg (now -ℤ max_age) feeds)
