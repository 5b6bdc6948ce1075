-- ===== src/Store/States/Derived.antt =====
-- About deriveStates of internal/store/postgres.go: which states an alert gets.
use seestorm_ingest.Base.{
  ◌&&◌, not, if◌then◌else◌, ◌≡◌, true, false, refl, ap, Bool, ◌||◌, Option, none, some, List, [],
  ◌∷◌, arith, Option-cases, inl, inr,
}
use seestorm_ingest.Base.Bytes.{Bytes, bytes_eq, bytes_eq_iff, contains}
use seestorm_ingest.Nws.Fips.{state_for_same_code}
use seestorm_ingest.Store.States.{
  add_state, same_states, segment_state, area_states, insert_sorted, sort_strings, is_empty,
  derive_states, split,
}

abbrev is_state : Option Bytes → Bytes → Bool
is_state none s = false
is_state (some x) s = bytes_eq x s

-- Some SAME code is one of the state's.
abbrev pub same_names : List Bytes → Bytes → Bool
same_names [] s = false
same_names (code ∷ codes) s = is_state (state_for_same_code code) s || same_names codes s

-- Some segment of the area ends in the state.
abbrev pub area_names : List Bytes → Bytes → Bool
area_names [] s = false
area_names (segment ∷ segments) s = is_state (segment_state segment) s || area_names segments s

add_state-contains :
    (x s : Bytes) (seen : List Bytes)
    → contains (add_state x seen) s ≡ (contains seen s || bytes_eq x s)
unfolding add_state contains
add_state-contains x s seen =
    let e = bytes_eq_iff x s in
    let same : x ≡ s → contains seen x ≡ contains seen s = λ p. ap (contains seen) p in ground arith

same_states-contains :
    (codes seen : List Bytes) (s : Bytes)
    → contains (same_states codes seen) s ≡ (contains seen s || same_names codes s)
unfolding same_states
same_states-contains [] seen s = ground arith
same_states-contains (code ∷ codes) seen s = elim (Option-cases (state_for_same_code code)) [
  | inl e ↦ rw (e, same_states) (ground (arith, same_states-contains codes seen s))
  | inr (x, e) ↦
      rw (e, same_states)
        (ground
          (arith, same_states-contains codes (add_state x seen) s, add_state-contains x s seen))
]

area_states-contains :
    (segments seen : List Bytes) (s : Bytes)
    → contains (area_states segments seen) s ≡ (contains seen s || area_names segments s)
unfolding area_states
area_states-contains [] seen s = ground arith
area_states-contains (g ∷ segments) seen s = elim (Option-cases (segment_state g)) [
  | inl e ↦ rw (e, area_states) (ground (arith, area_states-contains segments seen s))
  | inr (x, e) ↦
      rw (e, area_states)
        (ground
          (arith, area_states-contains segments (add_state x seen) s, add_state-contains x s seen))
]

insert_sorted-contains :
    (x s : Bytes) (xs : List Bytes)
    → contains (insert_sorted x xs) s ≡ (contains xs s || bytes_eq x s)
unfolding insert_sorted contains
insert_sorted-contains x s [] = ground arith
insert_sorted-contains x s (y ∷ xs) = ground (arith, insert_sorted-contains x s xs)

sort_strings-contains : (xs : List Bytes) (s : Bytes) → contains (sort_strings xs) s ≡ contains xs s
unfolding sort_strings contains
sort_strings-contains [] s = refl
sort_strings-contains (x ∷ xs) s =
    ground (arith, sort_strings-contains xs s, insert_sorted-contains x s (sort_strings xs))

abbrev is_some : Option Bytes → Bool
is_some none = false
is_some (some x) = true

-- Some SAME code is one of a state's.
abbrev pub knows : List Bytes → Bool
knows [] = false
knows (code ∷ codes) = is_some (state_for_same_code code) || knows codes

add_state-is_empty : (s : Bytes) (seen : List Bytes) → is_empty (add_state s seen) ≡ false
unfolding add_state contains
add_state-is_empty s [] = refl
add_state-is_empty s (x ∷ seen) = ground arith

same_states-is_empty :
    (codes seen : List Bytes)
    → is_empty (same_states codes seen) ≡ (is_empty seen && not (knows codes))
unfolding same_states
same_states-is_empty [] seen = ground arith
same_states-is_empty (code ∷ codes) seen = elim (Option-cases (state_for_same_code code)) [
  | inl e ↦ rw (e, same_states) (ground (arith, e, same_states-is_empty codes seen))
  | inr (x, e) ↦
      rw (e, same_states)
        (ground
          (arith, e, same_states-is_empty codes (add_state x seen), add_state-is_empty x seen))
]

contains-empty : (xs : List Bytes) (s : Bytes) → is_empty xs ≡ true → contains xs s ≡ false
unfolding contains
contains-empty [] s h = refl
contains-empty (x ∷ xs) s h = ground (arith, h)

-- The area's text is used exactly if no SAME code is a state's and the text is not empty. If it is
-- used, a state is among the alert's states exactly if a segment of the text ends in it; otherwise
-- exactly if one of the SAME codes is a code of the state.
pub derive_states_lem :
    (same_codes : List Bytes) (area_desc s : Bytes)
    → let r = derive_states same_codes area_desc in
      (r.1 ≡ (not (knows same_codes) && not (bytes_eq area_desc [])))
      × (contains r.0 s ≡ (
          if not (knows same_codes) && not (bytes_eq area_desc [])
          then area_names (split b';' area_desc) s
          else same_names same_codes s))
unfolding derive_states contains
derive_states_lem same_codes area_desc s =
    let seen = same_states same_codes [] in
    let empty = same_states-is_empty same_codes [] in
    let found = same_states-contains same_codes [] s in
    let sorted = sort_strings-contains seen s in
    let fallback = area_states-contains (split b';' area_desc) seen s in
    let sorted' = sort_strings-contains (area_states (split b';' area_desc) seen) s in
    let nothing = contains-empty seen s in (ground arith, ground arith)
