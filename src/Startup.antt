-- ===== src/Startup.antt =====
-- cmd/ingest/main.go: what run makes of the environment, with the check of NewR2 of
-- internal/publisher/r2.go. Startup.Process has the rest of run. time.ParseDuration is an argument.
pub mod Ready
pub mod Process
pub mod Examples
use seestorm_ingest.Base.{
  ℕ, Bool, true, false, ◌||◌, Option, none, some, List, [], ◌∷◌, ◌*◌, ◌⊎◌, inl, inr, if◌then◌else◌,
}
use seestorm_ingest.Base.Bytes.{Bytes, lit, bytes_eq}
use seestorm_ingest.Base.Int.{ℤ, pos}
use seestorm_ingest.Duration.{second, mul64}
use seestorm_ingest.Areas.{parse_areas, require_explicit_mode_on_fly}
use seestorm_ingest.Health.{Feed, required_feeds}
use seestorm_ingest.Poller.Mode.{Mode, parse_mode, should_ingest, should_publish}

pub data StartError : Type 0 where
  database_url_missing no_areas mode_not_set bad_mode r2_incomplete : StartError

pub record R2Config : Type 0 where
  pub account_id : Bytes
  pub access_key_id : Bytes
  pub secret_access_key : Bytes
  pub bucket : Bytes

-- What the poller, its publishers and the health handler are built with.
pub record Startup : Type 0 where
  pub database_url : Bytes
  pub snapshot_dir : Bytes
  pub user_agent : Bytes
  pub areas : List Bytes
  pub poll_interval : ℤ
  pub health_ping_url : Bytes
  pub mode : Mode
  pub r2 : Option R2Config
  pub max_age : ℤ
  pub feeds : List Feed

-- os.Getenv: empty where the variable is not set.
abbrev pub Environment : Type 0
Environment = Bytes → Bytes

abbrev pub or_default : Bytes → Bytes → Bytes
or_default fallback [] = fallback
or_default fallback (c ∷ s) = c ∷ s

abbrev pub health_staleness_multiplier : ℕ
health_staleness_multiplier = 3

-- POLL_INTERVAL, where it is set and parses
unfoldable pub poll_interval_of : (Bytes → Option ℤ) → Bytes → ℤ
poll_interval_of parse_duration [] = pos (30 * second)
poll_interval_of parse_duration (c ∷ s) = elim (parse_duration (c ∷ s)) [
  | none ↦ pos (30 * second)
  | some d ↦ d
]

-- NewR2 refuses a configuration with an empty field.
unfoldable pub new_r2 : R2Config → StartError ⊎ Option R2Config
new_r2 cfg =
    if bytes_eq cfg.account_id []
      || bytes_eq cfg.access_key_id []
      || bytes_eq cfg.secret_access_key []
      || bytes_eq cfg.bucket []
    then inl r2_incomplete
    else inr (some cfg)

-- Only a node that publishes builds the R2 publisher, and only if its account is named.
unfoldable pub r2_of : Bool → Environment → StartError ⊎ Option R2Config
unfolding new_r2
r2_of false env = inr none
r2_of true env = elim (env (lit "R2_ACCOUNT_ID")) [
  | [] ↦ inr none
  | c ∷ s ↦ new_r2 (record {
    account_id = c ∷ s;
    access_key_id = env (lit "R2_ACCESS_KEY_ID");
    secret_access_key = env (lit "R2_SECRET_ACCESS_KEY");
    bucket = env (lit "R2_BUCKET_NAME");
  })
]

module _ (parse_duration : Bytes → Option ℤ) where
  -- From the parsed mode and the publishers on.
  unfoldable pub assemble : Environment → Bytes → List Bytes → Mode → Option R2Config → Startup
  unfolding poll_interval_of
  assemble env database_url areas mode r2 =
      let interval = poll_interval_of parse_duration (env (lit "POLL_INTERVAL")) in
      record {
        database_url = database_url;
        snapshot_dir = or_default (lit "./snapshots") (env (lit "SNAPSHOT_DIR"));
        user_agent =
            or_default (lit "(seestorm.org, contact@seestorm.org)") (env (lit "NWS_USER_AGENT"));
        areas = areas;
        poll_interval = interval;
        health_ping_url = env (lit "HEALTHCHECK_PING_URL");
        mode = mode;
        r2 = r2;
        max_age = mul64 (pos health_staleness_multiplier) interval;
        feeds = required_feeds (should_ingest mode) (should_publish mode);
      }

  -- From the areas on.
  unfoldable pub with_areas : Environment → Bytes → List Bytes → StartError ⊎ Startup
  unfolding r2_of assemble
  with_areas env database_url areas =
      elim (require_explicit_mode_on_fly (env (lit "FLY_APP_NAME")) (env (lit "MODE"))) [
        | true ↦ inl mode_not_set
        | false ↦ elim (parse_mode (env (lit "MODE"))) [
          | none ↦ inl bad_mode
          | some mode ↦ elim (r2_of (should_publish mode) env) [
            | inl e ↦ inl e
            | inr r2 ↦ inr (assemble env database_url areas mode r2)
          ]
        ]
      ]

  unfoldable pub configure : Environment → StartError ⊎ Startup
  unfolding with_areas
  configure env = elim (env (lit "DATABASE_URL")) [
    | [] ↦ inl database_url_missing
    | c ∷ s ↦ elim (parse_areas (env (lit "NWS_AREA"))) [
      | [] ↦ inl no_areas
      | a ∷ areas ↦ with_areas env (c ∷ s) (a ∷ areas)
    ]
  ]
