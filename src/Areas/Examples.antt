-- ===== src/Areas/Examples.antt =====
-- parseAreas at concrete texts.
use seestorm_ingest.Base.{◌≡◌, ◌≢◌, refl, [], ◌∷◌, true, some}
use seestorm_ingest.Base.Bytes.{Bytes, lit, bytes_eq, contains}
use seestorm_ingest.Strings.{trim_space, split, to_upper}
use seestorm_ingest.Nws.Fips.{is_valid_state_code, state_for_same_code}
use seestorm_ingest.Areas.{parse_areas, is_state_code_shape, require_explicit_mode_on_fly}
use seestorm_ingest.Areas.Parsed.{parse_areas-Distinct, parse_areas-default, Distinct, names}

parses : parse_areas (lit "wi, ZZ,IL,WI") ≡ lit "WI" ∷ lit "IL" ∷ []
unfolding parse_areas trim_space split to_upper is_state_code_shape is_valid_state_code bytes_eq
    contains
parses = refl

same_code : state_for_same_code (lit "055025") ≡ some (lit "WI")
unfolding state_for_same_code bytes_eq
same_code = refl

refuses : require_explicit_mode_on_fly (lit "seestorm") (lit " ") ≡ true
unfolding require_explicit_mode_on_fly trim_space bytes_eq
refuses = refl

not_blank : trim_space (lit "wi, ZZ,IL,WI") ≢ []
unfolding trim_space
not_blank = λ e. cc e

parse_areas-Distinct_example :
    ((c : Bytes)
      → contains (parse_areas (lit "wi, ZZ,IL,WI")) c ≡ names (split b',' (lit "wi, ZZ,IL,WI")) c)
    × Distinct (parse_areas (lit "wi, ZZ,IL,WI"))
parse_areas-Distinct_example = parse_areas-Distinct (lit "wi, ZZ,IL,WI") not_blank

blank : trim_space (lit "  ") ≡ []
unfolding trim_space
blank = refl

parse_areas-default_example : parse_areas (lit "  ") ≡ lit "WI" ∷ []
parse_areas-default_example = parse_areas-default (lit "  ") blank
