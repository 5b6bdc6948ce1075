-- ===== src/Store/Active.antt =====
-- internal/store/postgres.go: one alert of the snapshot.
use seestorm_ingest.Base.{ℕ, Option, List}
use seestorm_ingest.Base.Bytes.{Bytes}
use seestorm_ingest.Nws.Products.{StormMotion, WarningTags, TornadoDetection}

pub record ActiveAlert : Type 0 where
  pub nws_id : Bytes
  pub event_type : Bytes
  pub severity : Bytes
  pub headline : Bytes
  pub description : Bytes
  pub area_desc : Bytes
  pub states : List Bytes
  pub geometry : Option Bytes
  pub effective_at : ℕ
  pub expires_at : ℕ
  pub storm_motion : Option StormMotion
  pub warning_tags : Option WarningTags
  pub tornado : Option TornadoDetection
  pub vtec_event_id : Bytes
  pub vtec_action : Bytes
  pub event_id : Bytes
