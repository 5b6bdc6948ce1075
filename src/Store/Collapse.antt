-- ===== src/Store/Collapse.antt =====
-- internal/store/collapse.go: one row for each warning that was issued again. The Go map from keys to
-- places in the output is an association list. The key is the triple that the source joins by NUL
-- bytes, none of which its parts can contain.
pub mod Order
pub mod Reference
pub mod Survivors
use seestorm_ingest.Base.{
  ℕ, ◌+◌, Bool, true, false, ◌&&◌, Option, none, some, List, [], ◌∷◌, ◌++◌, length, get_elem?, set,
  ltb, ◌==◌, if◌then◌else◌,
}
use seestorm_ingest.Base.Bytes.{Bytes, bytes_eq, bytes_lt}
use seestorm_ingest.Store.Active.{ActiveAlert}

unfoldable pub later_issuance : ActiveAlert → ActiveAlert → Bool
later_issuance candidate incumbent =
    if candidate.effective_at == incumbent.effective_at
    then (if candidate.expires_at == incumbent.expires_at
        then bytes_lt incumbent.nws_id candidate.nws_id
        else ltb incumbent.expires_at candidate.expires_at)
    else ltb incumbent.effective_at candidate.effective_at

-- a.eventID + "\x00" + a.EventType + "\x00" + a.AreaDesc
pub record Key : Type 0 where
  pub event_id : Bytes
  pub event_type : Bytes
  pub area_desc : Bytes

abbrev pub key_of : ActiveAlert → Key
key_of a = record { event_id = a.event_id; event_type = a.event_type; area_desc = a.area_desc }

unfoldable pub key_eq : Key → Key → Bool
key_eq k l =
    bytes_eq k.event_id l.event_id
    && bytes_eq k.event_type l.event_type
    && bytes_eq k.area_desc l.area_desc

-- winners
abbrev pub Winners : Type 0
Winners = List (Key × ℕ)

unfoldable pub winner : Key → Winners → Option ℕ
winner k [] = none
winner k ((l, i) ∷ w) = if key_eq l k then some i else winner k w

-- One round of the loop: the rows so far, and the place of each key's survivor.
pub record Collapsed : Type 0 where
  pub winners : Winners
  pub out : List ActiveAlert

-- out[idx] = a, if it is the later issuance. The index is always in range.
unfoldable pub challenge : ActiveAlert → ℕ → List ActiveAlert → List ActiveAlert
challenge a idx out = elim (get_elem? out idx) [
  | none ↦ out
  | some incumbent ↦ if later_issuance a incumbent then set out idx a else out
]

unfoldable pub collapse_step : Collapsed → ActiveAlert → Collapsed
unfolding challenge
collapse_step s a =
    if bytes_eq a.event_id []
    then record s { out = s.out ++ a ∷ [] }
    else elim (winner (key_of a) s.winners) [
      | none ↦ record { winners = (key_of a, length s.out) ∷ s.winners; out = s.out ++ a ∷ [] }
      | some idx ↦ record s { out = challenge a idx s.out }
    ]

unfoldable pub collapse_from : Collapsed → List ActiveAlert → Collapsed
unfolding collapse_step
collapse_from s [] = s
collapse_from s (a ∷ rest) = collapse_from (collapse_step s a) rest

unfoldable pub collapse_by_event : List ActiveAlert → List ActiveAlert
unfolding collapse_from
collapse_by_event alerts = (collapse_from (record { winners = []; out = [] }) alerts).out
