-- ===== src/Store/Table.antt =====
-- The table `weather_events` and the statements of internal/store/queries.go on it. The columns
-- that nothing reads (id, ingested_at, updated_at) are left out. Instants are nanoseconds from a
-- fixed origin; the geometry is the GeoJSON text that PostGIS is handed.
pub mod Rows
pub mod Visible
use seestorm_ingest.Base.{
  ℕ, Bool, true, false, ◌&&◌, ◌||◌, not, Option, none, some, List, [], ◌∷◌, map, ltb, if◌then◌else◌,
  keep_if,
}
use seestorm_ingest.Base.Bytes.{Bytes, bytes_eq, contains}

-- The parameters $1 to $12 of `upsertAlertSQL`.
pub record AlertArgs : Type 0 where
  pub nws_id : Bytes
  pub event_type : Bytes
  pub severity : Bytes
  pub headline : Bytes
  pub description : Bytes
  pub instruction : Bytes
  pub area_desc : Bytes
  pub sender_name : Bytes
  pub geometry : Option Bytes
  pub properties : Bytes
  pub effective_at : ℕ
  pub expires_at : ℕ

pub record Row : Type 0 where
  pub args : AlertArgs
  pub open args use *
  pub retired_at : Option ℕ

-- `nws_id` is UNIQUE: see `Rows`.
abbrev pub Table : Type 0
Table = List Row

abbrev pub has_id : Bytes → Row → Bool
has_id id r = bytes_eq r.nws_id id

unfoldable pub find : Bytes → Table → Option Row
find id [] = none
find id (r ∷ t) = if has_id id r then some r else find id t

-- ON CONFLICT (nws_id) DO UPDATE SET: the sender, the effective time and `retired_at` stay.
unfoldable pub on_conflict : AlertArgs → Row → Row
on_conflict a r = record {
  args = record a { sender_name = r.sender_name; effective_at = r.effective_at };
  retired_at = r.retired_at;
}

-- upsertAlertSQL
unfoldable pub upsert_row : AlertArgs → Table → Table
unfolding on_conflict
upsert_row a [] = record { args = a; retired_at = none } ∷ []
upsert_row a (r ∷ t) = if has_id a.nws_id r then on_conflict a r ∷ t else r ∷ upsert_row a t

abbrev pub is_live : Row → Bool
is_live r = elim r.retired_at [ none ↦ true | some _ ↦ false ]

-- retireByReferenceSQL, on one row
unfoldable pub retire_row : ℕ → List Bytes → Bytes → Row → Row
retire_row now ids event_type r =
    if contains ids r.nws_id && is_live r && bytes_eq r.event_type event_type
    then record r { retired_at = some now }
    else r

-- retireByReferenceSQL
unfoldable pub retire_by_reference : ℕ → List Bytes → Bytes → Table → Table
unfolding retire_row
retire_by_reference now ids event_type = map (retire_row now ids event_type)

-- The WHERE clause of `activeAlertsSQL`
abbrev pub is_active : ℕ → Row → Bool
is_active now r = ltb now r.expires_at && is_live r

unfoldable pub insert_desc : Row → List Row → List Row
insert_desc r [] = r ∷ []
insert_desc r (s ∷ rows) =
    if ltb r.effective_at s.effective_at then s ∷ insert_desc r rows else r ∷ s ∷ rows

-- ORDER BY effective_at DESC; rows of one time stand in the order of the table.
unfoldable pub order_by_effective : List Row → List Row
unfolding insert_desc
order_by_effective [] = []
order_by_effective (r ∷ rows) = insert_desc r (order_by_effective rows)

-- activeAlertsSQL
unfoldable pub active_rows : ℕ → Table → List Row
unfolding order_by_effective
active_rows now t = order_by_effective (keep_if (is_active now) t)

-- purgeExpiredSQL
unfoldable pub purge_expired : ℕ → Table → Table
purge_expired now = keep_if (λ r. not (ltb r.expires_at now))
