-- ===== src/Spc/Report.antt =====
-- internal/spc/types.go.
use seestorm_ingest.Float.{Float64}
use seestorm_ingest.Base.Bytes.{Bytes}
use seestorm_ingest.Base.Int.{ℤ}

-- The time is in nanoseconds from the Unix epoch.
pub record StormReport : Type 0 where
  pub time : ℤ
  pub magnitude : Bytes
  pub location : Bytes
  pub county : Bytes
  pub state : Bytes
  pub lat : Float64
  pub lon : Float64
  pub comments : Bytes
  pub type : Bytes
