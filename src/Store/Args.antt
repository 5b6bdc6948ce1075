-- ===== src/Store/Args.antt =====
-- internal/store/postgres.go: the parameters of one alert's statement (parseAlertTimes,
-- alertUpsertArgs).
use seestorm_ingest.Base.{ℕ, ◌||◌, Option, none, some, [], if◌then◌else◌, ◌⊎◌, inl, inr}
use seestorm_ingest.Base.Bytes.{Bytes, lit, bytes_eq}
use seestorm_ingest.Nws.Alert.{Alert, AlertProperties}
use seestorm_ingest.Store.Errors.{Error}
use seestorm_ingest.Store.Table.{AlertArgs}

-- time.Parse at RFC 3339, and json.Marshal of the properties.
pub record Codec : Type 0 where
  pub parse_time : Bytes → Option ℕ
  pub marshal : AlertProperties → Error ⊎ Bytes

pub data ArgsResult : Type 0 where
  args : AlertArgs → ArgsResult
  skip : ArgsResult
  failed : Error → ArgsResult

-- The geometry parameter: SQL's NULL where there is none.
unfoldable pub geom_str : Bytes → Option Bytes
geom_str g = if bytes_eq g [] || bytes_eq g (lit "null") then none else some g

to_args : AlertProperties → Bytes → Bytes → ℕ → ℕ → AlertArgs
unfolding geom_str
to_args props geometry json effective_at expires_at = record {
  nws_id = props.id;
  event_type = props.event;
  severity = props.severity;
  headline = props.headline;
  description = props.description;
  instruction = props.instruction;
  area_desc = props.area_desc;
  sender_name = props.sender_name;
  geometry = geom_str geometry;
  properties = json;
  effective_at = effective_at;
  expires_at = expires_at;
}

module _ (codec : Codec) where
  -- effective, expires; `none` is ok = false
  unfoldable pub parse_alert_times : AlertProperties → ℕ → Option (ℕ × ℕ)
  parse_alert_times props received_at = elim (codec.parse_time props.expires) [
    | none ↦ none
    | some expires_at ↦ elim (codec.parse_time props.effective) [
      | none ↦ some (received_at, expires_at)
      | some effective_at ↦ some (effective_at, expires_at)
    ]
  ]

  unfoldable pub alert_upsert_args : Alert → ℕ → ArgsResult
  unfolding parse_alert_times to_args
  alert_upsert_args alert received_at = elim (parse_alert_times alert.properties received_at) [
    | none ↦ skip
    | some (effective_at, expires_at) ↦ elim (codec.marshal alert.properties) [
      | inl e ↦ failed e
      | inr json ↦ args (to_args alert.properties alert.geometry json effective_at expires_at)
    ]
  ]
