-- ===== src/Areas.antt =====
-- cmd/ingest/main.go: parseAreas and requireExplicitModeOnFly. The set `seen` holds exactly the codes
-- of `out`, so `out` stands for both.
pub mod Parsed
pub mod Examples
use seestorm_ingest.Base.{ℕ, Bool, true, false, ◌&&◌, List, [], ◌∷◌, ◌++◌, leb, if◌then◌else◌}
use seestorm_ingest.Base.Bytes.{Bytes, lit, bytes_eq, contains}
use seestorm_ingest.Strings.{trim_space, to_upper, split}
use seestorm_ingest.Nws.Fips.{is_valid_state_code}

abbrev is_capital : ℕ → Bool
is_capital c = leb b'A' c && leb c b'Z'

-- stateCodeRE: ^[A-Z]{2}$
unfoldable pub is_state_code_shape : Bytes → Bool
is_state_code_shape (a ∷ b ∷ []) = is_capital a && is_capital b
is_state_code_shape _ = false

abbrev pub normalize : Bytes → Bytes
normalize token = to_upper (trim_space token)

abbrev pub is_accepted : Bytes → Bool
is_accepted code = is_state_code_shape code && is_valid_state_code code

-- The body of the loop, on a token's code
unfoldable pub add_area : List Bytes → Bytes → List Bytes
add_area out code =
    if is_accepted code then (if contains out code then out else out ++ code ∷ []) else out

unfoldable pub add_areas : List Bytes → List Bytes → List Bytes
unfolding add_area
add_areas [] out = out
add_areas (token ∷ rest) out = add_areas rest (add_area out (normalize token))

unfoldable pub parse_areas : Bytes → List Bytes
unfolding add_areas
parse_areas raw =
    if bytes_eq (trim_space raw) [] then lit "WI" ∷ [] else add_areas (split b',' raw) []

-- True where the start is refused.
unfoldable pub require_explicit_mode_on_fly : Bytes → Bytes → Bool
require_explicit_mode_on_fly fly_app_name raw_mode =
    if bytes_eq fly_app_name [] then false else bytes_eq (trim_space raw_mode) []
