-- ===== src/Nws/Fips.antt =====
-- internal/nws/fips.go: state codes. The Go map is an association list; its keys are distinct.
use seestorm_ingest.Base.{Bool, Option, none, some, List, [], ◌∷◌, map, if◌then◌else◌}
use seestorm_ingest.Base.Bytes.{Bytes, lit, bytes_eq, contains}

abbrev pub fips_state_codes : List (Bytes × Bytes)
fips_state_codes =
    (lit "01", lit "AL")
    ∷ (lit "02", lit "AK")
    ∷ (lit "04", lit "AZ")
    ∷ (lit "05", lit "AR")
    ∷ (lit "06", lit "CA")
    ∷ (lit "08", lit "CO")
    ∷ (lit "09", lit "CT")
    ∷ (lit "10", lit "DE")
    ∷ (lit "11", lit "DC")
    ∷ (lit "12", lit "FL")
    ∷ (lit "13", lit "GA")
    ∷ (lit "15", lit "HI")
    ∷ (lit "16", lit "ID")
    ∷ (lit "17", lit "IL")
    ∷ (lit "18", lit "IN")
    ∷ (lit "19", lit "IA")
    ∷ (lit "20", lit "KS")
    ∷ (lit "21", lit "KY")
    ∷ (lit "22", lit "LA")
    ∷ (lit "23", lit "ME")
    ∷ (lit "24", lit "MD")
    ∷ (lit "25", lit "MA")
    ∷ (lit "26", lit "MI")
    ∷ (lit "27", lit "MN")
    ∷ (lit "28", lit "MS")
    ∷ (lit "29", lit "MO")
    ∷ (lit "30", lit "MT")
    ∷ (lit "31", lit "NE")
    ∷ (lit "32", lit "NV")
    ∷ (lit "33", lit "NH")
    ∷ (lit "34", lit "NJ")
    ∷ (lit "35", lit "NM")
    ∷ (lit "36", lit "NY")
    ∷ (lit "37", lit "NC")
    ∷ (lit "38", lit "ND")
    ∷ (lit "39", lit "OH")
    ∷ (lit "40", lit "OK")
    ∷ (lit "41", lit "OR")
    ∷ (lit "42", lit "PA")
    ∷ (lit "44", lit "RI")
    ∷ (lit "45", lit "SC")
    ∷ (lit "46", lit "SD")
    ∷ (lit "47", lit "TN")
    ∷ (lit "48", lit "TX")
    ∷ (lit "49", lit "UT")
    ∷ (lit "50", lit "VT")
    ∷ (lit "51", lit "VA")
    ∷ (lit "53", lit "WA")
    ∷ (lit "54", lit "WV")
    ∷ (lit "55", lit "WI")
    ∷ (lit "56", lit "WY")
    ∷ (lit "60", lit "AS")
    ∷ (lit "66", lit "GU")
    ∷ (lit "69", lit "MP")
    ∷ (lit "72", lit "PR")
    ∷ (lit "78", lit "VI")
    ∷ []

unfoldable pub lookup : Bytes → List (Bytes × Bytes) → Option Bytes
lookup code [] = none
lookup code ((k, v) ∷ rest) =
    let later = lookup code rest in if bytes_eq k code then some v else later

abbrev pub valid_state_abbrevs : List Bytes
valid_state_abbrevs = map (λ (p : Bytes × Bytes). p.1) fips_state_codes

unfoldable pub is_valid_state_code : Bytes → Bool
is_valid_state_code code = contains valid_state_abbrevs code

-- `none` is ok = false
unfoldable pub state_for_same_code : Bytes → Option Bytes
unfolding lookup
state_for_same_code (p ∷ a ∷ b ∷ rest) = lookup (a ∷ b ∷ []) fips_state_codes
state_for_same_code _ = none
