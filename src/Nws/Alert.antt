-- ===== src/Nws/Alert.antt =====
-- internal/nws/types.go. The raw GeoJSON geometry is kept as its bytes.
use seestorm_ingest.Base.{List}
use seestorm_ingest.Base.Bytes.{Bytes}

pub record AlertReference : Type 0 where
  pub id : Bytes
  pub identifier : Bytes
  pub sender : Bytes
  pub sent : Bytes

pub record AlertGeocode : Type 0 where
  pub same : List Bytes
  pub ugc : List Bytes

-- A Go map from texts to lists of texts, as its entries.
abbrev pub Parameters : Type 0
Parameters = List (Bytes × List Bytes)

pub record AlertProperties : Type 0 where
  pub id : Bytes
  pub event : Bytes
  pub severity : Bytes
  pub urgency : Bytes
  pub headline : Bytes
  pub description : Bytes
  pub instruction : Bytes
  pub area_desc : Bytes
  pub sender_name : Bytes
  pub effective : Bytes
  pub expires : Bytes
  pub status : Bytes
  pub message_type : Bytes
  pub category : Bytes
  pub response : Bytes
  pub parameters : Parameters
  pub geocode : AlertGeocode
  pub references : List AlertReference

pub record Alert : Type 0 where
  pub id : Bytes
  pub type : Bytes
  pub properties : AlertProperties
  pub geometry : Bytes

pub record AlertsResponse : Type 0 where
  pub type : Bytes
  pub features : List Alert
