-- ===== src/Nws/Motion.antt =====
-- internal/nws/motion.go: ParseEventMotion. strconv.ParseFloat and time.Parse at RFC 3339, with its
-- instant, are arguments, and so is the clock. Atoi of digits gives no negative number.
pub mod Bounds
pub mod Examples
use seestorm_ingest.Base.{
  ℕ, Bool, true, false, ◌&&◌, ◌||◌, Option, none, some, List, [], ◌∷◌, ◌++◌, ◌==◌, ltb, leb, length,
  if◌then◌else◌,
}
use seestorm_ingest.Base.Bytes.{Bytes, lit}
use seestorm_ingest.Base.Int.{ℤ, pos, negsuc}
use seestorm_ingest.Base.Maps.{Map}
use mathlib.Core.List.{reverse}
use seestorm_ingest.Float.{Float64, float_lt, float_neg}
use seestorm_ingest.Strings.{trim_space, fields, cut, cut_prefix}
use seestorm_ingest.Retry.{atoi}
use seestorm_ingest.Regexp.{Item, text, rep, digit, space, not_newline, at_end, match_anchored}
use seestorm_ingest.Nws.Products.{StormMotion}

-- motionRe
abbrev pub motion_re : List Item
motion_re =
    rep true 0 none space
    ∷ rep false 1 none not_newline
    ∷ text (lit "...storm...")
    ∷ rep true 1 (some 3) digit
    ∷ text (lit "DEG...")
    ∷ rep true 1 none digit
    ∷ text (lit "KT...")
    ∷ rep false 1 none not_newline
    ∷ rep true 0 none space
    ∷ at_end
    ∷ []

-- A number of pairRe, with or without its fraction
abbrev number : Bool → List Item
number fraction =
    rep true 0 (some 1) (λ c. c == b'-')
    ∷ rep true 1 none digit
    ∷ (if fraction then text (lit ".") ∷ rep true 1 none digit ∷ [] else [])

-- pairRe, one of its four shapes
abbrev pair_re : Bool → Bool → List Item
pair_re f g = number f ++ (text (lit ",") ∷ (number g ++ (at_end ∷ [])))

abbrev matches : List Item → Bytes → Bool
matches items s = elim (match_anchored items s) [ none ↦ false | some m ↦ true ]

unfoldable pub is_pair : Bytes → Bool
is_pair s =
    matches (pair_re true true) s
    || matches (pair_re true false) s
    || matches (pair_re false true) s
    || matches (pair_re false false) s

-- 10
abbrev pub lat_min : Float64
lat_min = 0x4024000000000000

-- 75
abbrev pub lat_max : Float64
lat_max = 0x4052C00000000000

-- 0
abbrev pub zero_float : Float64
zero_float = 0

-- -180
abbrev pub lon_min : Float64
lon_min = 0xC066800000000000

-- -60
abbrev pub lon_max : Float64
lon_max = 0xC04E000000000000

-- The checks on a pair; a positive longitude is negated.
unfoldable pub checked_pair : Float64 → Float64 → Option (Float64 × Float64)
checked_pair lat lon =
    let signed = if float_lt zero_float lon then float_neg lon else lon in
    if float_lt lat lat_min || float_lt lat_max lat
    then none
    else if float_lt signed lon_min || float_lt lon_max signed
    then none
    else some (lat, signed)

-- "-00:00" at the end becomes "+00:00".
abbrev negative_zero : Bytes
negative_zero = lit "-00:00"

unfoldable pub parse_motion_timestamp : (Bytes → Option ℤ) → Bytes → Option ℤ
parse_motion_timestamp parse_time s = elim (parse_time s) [
  | some t ↦ some t
  | none ↦ elim (cut_prefix (reverse negative_zero) (reverse s)) [
    | none ↦ none
    | some back ↦ parse_time (reverse back ++ lit "+00:00")
  ]
]

-- (nil, nil), (nil, err), (motion, nil)
pub data MotionResult : Type 0 where
  still bad_motion : MotionResult
  moves : StormMotion → MotionResult

-- The groups of motionRe
pub record MotionMatch : Type 0 where
  pub ts : Bytes
  pub dir : Bytes
  pub kt : Bytes
  pub coords : Bytes

abbrev pub motion_match : Option (List Bytes) → Option MotionMatch
motion_match (some (a ∷ ts ∷ b ∷ dir ∷ c ∷ kt ∷ d ∷ coords ∷ e ∷ f ∷ [])) =
    some (record { ts = ts; dir = dir; kt = kt; coords = coords })
motion_match _ = none

module _ (parse_float : Bytes → Option Float64) where
  -- The groups of pairRe are the texts before and after the comma, which no number contains.
  unfoldable pub coord_pair : Bytes → Option (Float64 × Float64)
  unfolding is_pair checked_pair
  coord_pair f = elim (is_pair f) [
    | false ↦ none
    | true ↦ elim (cut (lit ",") f) [
      | none ↦ none
      | some (before, after) ↦ elim (parse_float before) [
        | none ↦ none
        | some lat ↦ elim (parse_float after) [ none ↦ none | some lon ↦ checked_pair lat lon ]
      ]
    ]
  ]

  unfoldable pub pairs_from : List Bytes → Option (List (Float64 × Float64))
  unfolding coord_pair
  pairs_from [] = some []
  pairs_from (f ∷ fs) = elim (coord_pair f) [
    | none ↦ none
    | some p ↦ elim (pairs_from fs) [ none ↦ none | some ps ↦ some (p ∷ ps) ]
  ]

  -- `none` is the error, which no field at all gives too.
  unfoldable pub parse_coord_pairs : Bytes → Option (List (Float64 × Float64))
  unfolding pairs_from
  parse_coord_pairs s = elim (fields s) [ [] ↦ none | f ∷ fs ↦ pairs_from (f ∷ fs) ]

  module _ (parse_time : Bytes → Option ℤ) (now : ℤ) where
    abbrev or_now : Option ℤ → ℤ
    or_now none = now
    or_now (some t) = t

    -- The motion of a list of points; of none, the error.
    unfoldable pub motion_of : Bytes → ℕ → ℕ → List (Float64 × Float64) → MotionResult
    unfolding parse_motion_timestamp
    motion_of ts direction speed [] = bad_motion
    motion_of ts direction speed ((lat, lon) ∷ ps) = moves (record {
      origin_lat = lat;
      origin_lon = lon;
      direction_deg = direction;
      speed_kt = speed;
      valid_at = or_now (parse_motion_timestamp parse_time ts);
      points = elim ps [ [] ↦ [] | p ∷ qs ↦ (lat, lon) ∷ p ∷ qs ];
    })

    -- From the speed on
    unfoldable pub with_speed : MotionMatch → ℕ → ℕ → MotionResult
    unfolding parse_coord_pairs motion_of
    with_speed m direction speed = elim (parse_coord_pairs m.coords) [
      | none ↦ bad_motion
      | some points ↦ motion_of m.ts direction speed points
    ]

    -- From the groups on
    unfoldable pub of_match : MotionMatch → MotionResult
    unfolding with_speed
    of_match m = elim (atoi m.dir) [
      | some (pos direction) ↦
          if leb 360 direction
          then bad_motion
          else elim (atoi m.kt) [ some (pos speed) ↦ with_speed m direction speed | _ ↦ bad_motion ]
      | _ ↦ bad_motion
    ]

    unfoldable pub parse_entry : Bytes → MotionResult
    unfolding of_match
    parse_entry raw = elim (trim_space raw) [
      | [] ↦ still
      | c ∷ s ↦ elim (motion_match (match_anchored motion_re raw)) [
        | none ↦ bad_motion
        | some m ↦ of_match m
      ]
    ]

    unfoldable pub parse_event_motion : Map (List Bytes) → MotionResult
    unfolding parse_entry
    parse_event_motion params = elim (params (lit "eventMotionDescription")) [
      | none ↦ still
      | some [] ↦ still
      | some (raw ∷ more) ↦ parse_entry raw
    ]
