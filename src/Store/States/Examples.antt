-- ===== src/Store/States/Examples.antt =====
-- The states of an alert without SAME codes.
use seestorm_ingest.Base.{not, ◌&&◌, if◌then◌else◌, ◌≡◌, true, [], ◌∷◌, refl}
use seestorm_ingest.Base.Bytes.{lit, bytes_eq, bytes_lt, contains}
use seestorm_ingest.Strings.{split, trim_space, to_upper}
use seestorm_ingest.Nws.Fips.{is_valid_state_code}
use seestorm_ingest.Store.States.{derive_states}
use seestorm_ingest.Store.States.Derived.{knows, derive_states_lem, same_names, area_names}

derives :
    derive_states [] (lit "Dane, WI; Rock, wi; Lake, IL; Near, XY")
    ≡ (lit "IL" ∷ lit "WI" ∷ [], true)
unfolding derive_states split trim_space to_upper is_valid_state_code bytes_eq bytes_lt contains
derives = refl

derive_states_lem_example :
    let area = lit "Dane, WI; Lake, IL" in
    let r = derive_states [] area in
    (r.1 ≡ (not (knows []) && not (bytes_eq area [])))
    × (contains r.0 (lit "IL") ≡ (
        if not (knows []) && not (bytes_eq area [])
        then area_names (split b';' area) (lit "IL")
        else same_names [] (lit "IL")))
derive_states_lem_example = derive_states_lem [] (lit "Dane, WI; Lake, IL") (lit "IL")
