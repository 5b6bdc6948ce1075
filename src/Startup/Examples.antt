-- ===== src/Startup/Examples.antt =====
-- The environment of a publisher on Fly, and environments that are refused.
use seestorm_ingest.Base.{◌≡◌, refl, Option, none, some, [], ◌∷◌, inl, inr, if◌then◌else◌, ◌*◌}
use seestorm_ingest.Base.Bytes.{Bytes, lit, bytes_eq}
use seestorm_ingest.Base.Int.{ℤ, pos, ◌*ℤ◌}
use seestorm_ingest.Duration.{second, mul64, wrap64}
use seestorm_ingest.Strings.{trim_space, to_lower}
use seestorm_ingest.Areas.{parse_areas, require_explicit_mode_on_fly}
use seestorm_ingest.Health.{required_feeds, feed_publish}
use seestorm_ingest.Poller.Mode.{parse_mode, mode_publish, should_ingest, should_publish}
use seestorm_ingest.Startup.{
  Environment, Startup, configure, with_areas, assemble, r2_of, new_r2, poll_interval_of,
  mode_not_set, r2_incomplete,
}

-- Every variable is "x" but for these.
abbrev pub env : Bytes → Environment
env mode k =
    if bytes_eq k (lit "MODE")
    then mode
    else if bytes_eq k (lit "NWS_AREA")
    then []
    else if bytes_eq k (lit "POLL_INTERVAL")
    then []
    else lit "x"

abbrev pub parse_duration : Bytes → Option ℤ
parse_duration s = none

abbrev pub startup : Startup
startup = record {
  database_url = lit "x";
  snapshot_dir = lit "x";
  user_agent = lit "x";
  areas = lit "WI" ∷ [];
  poll_interval = pos (30 * second);
  health_ping_url = lit "x";
  mode = mode_publish;
  r2 = some (record {
    account_id = lit "x";
    access_key_id = lit "x";
    secret_access_key = lit "x";
    bucket = lit "x";
  });
  max_age = pos (90 * second);
  feeds = feed_publish ∷ [];
}

starts : configure parse_duration (env (lit "publish")) ≡ inr startup
unfolding configure with_areas assemble r2_of new_r2 poll_interval_of parse_areas
    require_explicit_mode_on_fly required_feeds parse_mode should_ingest should_publish trim_space
    to_lower bytes_eq mul64 wrap64 ◌*ℤ◌
starts = refl

no_role : configure parse_duration (env (lit " ")) ≡ inl mode_not_set
unfolding configure with_areas parse_areas require_explicit_mode_on_fly trim_space bytes_eq
no_role = refl

abbrev no_bucket : Environment
no_bucket k = if bytes_eq k (lit "R2_BUCKET_NAME") then [] else env (lit "both") k

no_bucket_start : configure parse_duration no_bucket ≡ inl r2_incomplete
unfolding configure with_areas r2_of new_r2 parse_areas require_explicit_mode_on_fly parse_mode
    should_publish trim_space to_lower bytes_eq
no_bucket_start = refl
