-- ===== src/Health/Examples.antt =====
-- The health check of a process that only publishes, 90 s after its last success and 91 s after it.
use seestorm_ingest.Base.{◌≡◌, refl, false, true, some, Option}
use seestorm_ingest.Base.Bytes.{bytes_eq}
use seestorm_ingest.Base.Int.{pos, ◌-ℤ◌}
use seestorm_ingest.Base.Maps.{put}
use seestorm_ingest.Health.{
  Registry, new_registry, record_success, required_feeds, health_handler, feed_publish,
  last_success, stale_feeds,
}

abbrev published : Option Registry
published = record_success (some new_registry) feed_publish (pos 100)

still_ok : (health_handler published (required_feeds false true) (pos 90) (pos 190)).code ≡ 200
unfolding health_handler record_success required_feeds last_success stale_feeds put bytes_eq ◌-ℤ◌
still_ok = refl

too_old : (health_handler published (required_feeds false true) (pos 90) (pos 191)).code ≡ 503
unfolding health_handler record_success required_feeds last_success stale_feeds put bytes_eq ◌-ℤ◌
too_old = refl
