-- ===== src/Store/States.antt =====
-- internal/store/postgres.go: deriveStates. The set `seen` is a list without duplicates.
pub mod Derived
pub mod Examples
use seestorm_ingest.Base.{
  ℕ, Bool, true, false, ◌&&◌, not, Option, none, some, List, [], ◌∷◌, ◌++◌, length, ◌==◌,
  if◌then◌else◌,
}
use seestorm_ingest.Base.Bytes.{Bytes, bytes_eq, bytes_lt, contains}
use seestorm_ingest.Strings.{trim_space, to_upper, split}
use seestorm_ingest.Nws.Fips.{is_valid_state_code, state_for_same_code}

-- seen[state] = struct{}{}
unfoldable pub add_state : Bytes → List Bytes → List Bytes
add_state s seen = if contains seen s then seen else s ∷ seen

unfoldable pub same_states : List Bytes → List Bytes → List Bytes
unfolding add_state
same_states [] seen = seen
same_states (code ∷ codes) seen = elim (state_for_same_code code) [
  | none ↦ same_states codes seen
  | some state ↦ same_states codes (add_state state seen)
]

-- segment[comma+1:], for the last comma
unfoldable pub after_last_comma : Bytes → Option Bytes
after_last_comma [] = none
after_last_comma (c ∷ s) = elim (after_last_comma s) [
  | some rest ↦ some rest
  | none ↦ if c == b',' then some s else none
]

-- The state that a segment of the area ends in.
unfoldable pub segment_state : Bytes → Option Bytes
unfolding after_last_comma
segment_state segment = elim (after_last_comma (trim_space segment)) [
  | none ↦ none
  | some rest ↦
      let candidate = trim_space rest in
      let upper = to_upper candidate in
      if length candidate == 2 && is_valid_state_code upper then some upper else none
]

unfoldable pub area_states : List Bytes → List Bytes → List Bytes
unfolding add_state segment_state
area_states [] seen = seen
area_states (segment ∷ segments) seen = elim (segment_state segment) [
  | none ↦ area_states segments seen
  | some state ↦ area_states segments (add_state state seen)
]

unfoldable pub insert_sorted : Bytes → List Bytes → List Bytes
insert_sorted s [] = s ∷ []
insert_sorted s (x ∷ xs) = if bytes_lt s x then s ∷ x ∷ xs else x ∷ insert_sorted s xs

-- sort.Strings
unfoldable pub sort_strings : List Bytes → List Bytes
unfolding insert_sorted
sort_strings [] = []
sort_strings (s ∷ ss) = insert_sorted s (sort_strings ss)

abbrev pub is_empty : List Bytes → Bool
is_empty [] = true
is_empty (x ∷ xs) = false

-- The states, and whether the area's text was used.
unfoldable pub derive_states : List Bytes → Bytes → List Bytes × Bool
unfolding same_states area_states sort_strings
derive_states same_codes area_desc =
    let seen = same_states same_codes [] in
    if is_empty seen && not (bytes_eq area_desc [])
    then (sort_strings (area_states (split b';' area_desc) seen), true)
    else (sort_strings seen, false)
