-- ===== src/Nws/Products.antt =====
-- What the parsers of internal/nws make of an alert: vtec.go, tags.go, detection.go, motion.go.
use seestorm_ingest.Base.{ℕ, Bool, List}
use seestorm_ingest.Base.Bytes.{Bytes}
use seestorm_ingest.Base.Int.{ℤ}
use seestorm_ingest.Float.{Float64}

pub record Vtec : Type 0 where
  pub product_class : Bytes
  pub action : Bytes
  pub office : Bytes
  pub phenomenon : Bytes
  pub significance : Bytes
  pub etn : Bytes

pub record WarningTags : Type 0 where
  pub tornado : Bytes
  pub tornado_damage_threat : Bytes
  pub hail : Bytes
  pub max_hail_size : Bytes
  pub wind : Bytes
  pub max_wind_gust : Bytes
  pub thunderstorm_damage_threat : Bytes
  pub flash_flood : Bytes
  pub flash_flood_damage_threat : Bytes
  pub expected_rainfall_rate : Bytes
  pub spotter_activation : Bytes
  pub source : Bytes

pub data TornadoDetectionState : Type 0 where
  radar_indicated observed : TornadoDetectionState

pub data TornadoDamageThreatLevel : Type 0 where
  threat_base threat_considerable threat_catastrophic : TornadoDamageThreatLevel

pub record TornadoDetection : Type 0 where
  pub detection : TornadoDetectionState
  pub confirmed : Bool
  pub damage_threat : TornadoDamageThreatLevel
  pub source_text : Bytes

-- The instant is in nanoseconds from the Unix epoch.
pub record StormMotion : Type 0 where
  pub origin_lat : Float64
  pub origin_lon : Float64
  pub direction_deg : ℕ
  pub speed_kt : ℕ
  pub valid_at : ℤ
  pub points : List (Float64 × Float64)
