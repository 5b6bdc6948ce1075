-- ===== src/Store/Supersede.antt =====
-- internal/store/supersede.go: retiring the rows that a batch of messages supersedes. The Go map of
-- the groups is an association list; the order in which the source walks it is open, see `Order`.
pub mod Marks
pub mod Order
use seestorm_ingest.Base.{
  ℕ, zero, suc, ◌+◌, Bool, true, false, ◌&&◌, not, Option, none, some, List, [], ◌∷◌, ◌++◌, length,
  if◌then◌else◌, keep_if,
}
use seestorm_ingest.Base.Bytes.{Bytes, bytes_eq, contains}
use seestorm_ingest.Nws.Alert.{Alert, AlertReference}
use seestorm_ingest.Store.Errors.{Error}
use seestorm_ingest.Store.Table.{Row, Table, is_live, retire_by_reference}

abbrev pub Groups : Type 0
Groups = List (Bytes × List Bytes)

-- out[event] = append(out[event], id)
unfoldable pub append_to_group : Bytes → Bytes → Groups → Groups
append_to_group event id [] = (event, id ∷ []) ∷ []
append_to_group event id ((e, ids) ∷ gs) =
    if bytes_eq e event then (e, ids ++ id ∷ []) ∷ gs else (e, ids) ∷ append_to_group event id gs

unfoldable pub group_references : Bytes → List AlertReference → Groups → Groups
group_references event [] out = out
group_references event (r ∷ rs) out =
    group_references event rs
      (if bytes_eq r.identifier [] then out else append_to_group event r.identifier out)

unfoldable pub group_alerts : List Alert → Groups → Groups
unfolding group_references append_to_group
group_alerts [] out = out
group_alerts (a ∷ rest) out =
    group_alerts rest (group_references a.properties.event a.properties.references out)

unfoldable pub references_by_event_type : List Alert → Groups
unfolding group_alerts
references_by_event_type alerts = group_alerts alerts []

-- The rows that the statement changes, which is what RowsAffected counts.
abbrev pub is_hit : List Bytes → Bytes → Row → Bool
is_hit ids event_type r = contains ids r.nws_id && is_live r && bytes_eq r.event_type event_type

-- What one pass over the groups leaves: the table, the total, and the error that ended it.
pub record Retired : Type 0 where
  pub table : Table
  pub total : ℕ
  pub error : Option Error

-- One statement per group; `fails k` is the error of the k-th, which ends the pass.
unfoldable pub retire_groups : (ℕ → Option Error) → ℕ → ℕ → ℕ → Groups → Table → Retired
retire_groups fails k now total [] t = record { table = t; total = total; error = none }
retire_groups fails k now total ((event, ids) ∷ gs) t = elim (fails k) [
  | some e ↦ record { table = t; total = total; error = some e }
  | none ↦
      retire_groups fails (suc k) now (total + length (keep_if (is_hit ids event) t)) gs
        (retire_by_reference now ids event t)
]

unfoldable pub retire_referenced : (ℕ → Option Error) → ℕ → List Alert → Table → Retired
unfolding retire_groups references_by_event_type
retire_referenced fails now alerts t =
    retire_groups fails 0 now 0 (references_by_event_type alerts) t
