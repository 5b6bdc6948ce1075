-- ===== src/Nws/Motion/Examples.antt =====
-- The theorem about ParseEventMotion at the example of internal/nws/motion.go's header, with a
-- longitude whose sign is missing.
use seestorm_ingest.Base.{◌≡◌, refl, Option, none, some, List, [], ◌∷◌, if◌then◌else◌}
use seestorm_ingest.Base.Bytes.{Bytes, lit, bytes_eq}
use seestorm_ingest.Base.Int.{ℤ, pos}
use seestorm_ingest.Base.Maps.{Map}
use seestorm_ingest.Float.{Float64, float_lt, float_neg, is_nan, rank}
use seestorm_ingest.Strings.{trim_space, fields, cut, cut_prefix}
use seestorm_ingest.Retry.{atoi}
use seestorm_ingest.Regexp.{match_anchored, match_here, run, stop}
use seestorm_ingest.Nws.Products.{StormMotion}
use seestorm_ingest.Nws.Motion.{
  parse_event_motion, parse_entry, of_match, with_speed, motion_of, parse_motion_timestamp,
  parse_coord_pairs, pairs_from, coord_pair, checked_pair, is_pair, moves,
}
use seestorm_ingest.Nws.Motion.Bounds.{IsMotion, parse_event_motion-IsMotion}

-- 44.25, 91.75 and -91.75
abbrev parse_float : Bytes → Option Float64
parse_float s =
    if bytes_eq s (lit "44.25")
    then some 0x4046200000000000
    else if bytes_eq s (lit "91.75")
    then some 0x4056F00000000000
    else some 0xC056F00000000000

abbrev parse_time : Bytes → Option ℤ
parse_time s = if bytes_eq s (lit "2026-04-17T20:29:00+00:00") then some (pos 5) else none

abbrev params : Map (List Bytes)
params k =
    some (lit " 2026-04-17T20:29:00-00:00...storm...244DEG...38KT...44.25,-91.75 44.25,91.75 " ∷ [])

abbrev motion : StormMotion
motion = record {
  origin_lat = 0x4046200000000000;
  origin_lon = 0xC056F00000000000;
  direction_deg = 244;
  speed_kt = 38;
  valid_at = pos 5;
  points = (0x4046200000000000, 0xC056F00000000000) ∷ (0x4046200000000000, 0xC056F00000000000) ∷ [];
}

parse_event_motion_header : parse_event_motion parse_float parse_time (pos 9) params ≡ moves motion
unfolding parse_event_motion parse_entry of_match with_speed motion_of parse_motion_timestamp
    parse_coord_pairs pairs_from coord_pair checked_pair is_pair float_lt float_neg is_nan rank
    trim_space fields cut cut_prefix atoi match_anchored match_here run stop bytes_eq
parse_event_motion_header = refl

parse_event_motion-IsMotion_example : IsMotion motion
parse_event_motion-IsMotion_example =
    parse_event_motion-IsMotion parse_float parse_time (pos 9) params motion
      parse_event_motion_header
