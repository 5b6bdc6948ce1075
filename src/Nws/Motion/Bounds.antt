-- ===== src/Nws/Motion/Bounds.antt =====
-- About ParseEventMotion of internal/nws/motion.go: the motions that it returns are in range.
use seestorm_ingest.Base.{
  List-cases, ℕ, ◌<◌, ◌≡◌, refl, inl, inr, false, Option, none, some, List, [], ◌∷◌, arith, All,
  Option-cases, leb, subst, Bool-cases,
}
use seestorm_ingest.Base.Bytes.{Bytes, lit}
use seestorm_ingest.Base.Int.{ℤ, pos, negsuc}
use seestorm_ingest.Base.Maps.{Map}
use seestorm_ingest.Float.{Float64, float_lt}
use seestorm_ingest.Strings.{trim_space, fields}
use seestorm_ingest.Retry.{atoi}
use seestorm_ingest.Regexp.{match_anchored}
use seestorm_ingest.Nws.Products.{StormMotion}
use seestorm_ingest.Nws.Motion.{
  lat_min, lat_max, lon_min, lon_max, checked_pair, coord_pair, pairs_from, parse_coord_pairs,
  MotionResult, moves, MotionMatch, motion_match, motion_re, motion_of, with_speed, of_match,
  parse_entry, parse_event_motion,
}

-- A point at no latitude below 10 or above 75, and no longitude below -180 or above -60.
abbrev pub InRange : Float64 × Float64 → Type 0
InRange (lat, lon) =
    (float_lt lat lat_min ≡ false)
    × (float_lt lat_max lat ≡ false)
    × (float_lt lon lon_min ≡ false)
    × (float_lt lon_max lon ≡ false)

-- No points, or at least two of which the first is the origin.
abbrev pub PointsOf : Float64 × Float64 → List (Float64 × Float64) → Type 0
PointsOf origin [] = Unit
PointsOf origin (p ∷ []) = ⊥
PointsOf origin (p ∷ q ∷ ps) = p ≡ origin

pub record IsMotion (m : StormMotion) : Type 0 where
  pub direction : m.direction_deg < 360
  pub origin : InRange (m.origin_lat, m.origin_lon)
  pub range : All InRange m.points
  pub listed : PointsOf (m.origin_lat, m.origin_lon) m.points

abbrev or_nil : Option (List (Float64 × Float64)) → List (Float64 × Float64)
or_nil none = []
or_nil (some ps) = ps

checked_pair-InRange :
    (lat lon : Float64) (p : Float64 × Float64) → checked_pair lat lon ≡ some p → InRange p
unfolding checked_pair
checked_pair-InRange lat lon p h = ground arith

module _ (parse_float : Bytes → Option Float64) where
  coord_pair-InRange :
      (f : Bytes) (p : Float64 × Float64) → coord_pair parse_float f ≡ some p → InRange p
  unfolding coord_pair
  coord_pair-InRange f p h =
      let checked = λ (lat lon : Float64). checked_pair-InRange lat lon p in grind (arith, checked)

  pairs_from-InRange :
      (fs : List Bytes) (ps : List (Float64 × Float64))
      → pairs_from parse_float fs ≡ some ps
      → All InRange ps
  unfolding pairs_from
  pairs_from-InRange [] ps h =
      subst (λ (o : Option (List (Float64 × Float64))). All InRange (or_nil o)) h tt
  pairs_from-InRange (f ∷ fs) ps h = elim (Option-cases (coord_pair parse_float f)) [
    | inl n ↦ absurd (ground (arith, n))
    | inr (p, n) ↦ elim (Option-cases (pairs_from parse_float fs)) [
      | inl m ↦ absurd (ground (arith, n, m))
      | inr (qs, m) ↦
          let e : ◌≡◌ {A = Option (List (Float64 × Float64))} (some (p ∷ qs)) (some ps) =
            ground (arith, n, m, h) in
          subst (λ (o : Option (List (Float64 × Float64))). All InRange (or_nil o)) e
            (coord_pair-InRange f p n, pairs_from-InRange fs qs m)
    ]
  ]

  parse_coord_pairs-InRange :
      (s : Bytes) (ps : List (Float64 × Float64))
      → parse_coord_pairs parse_float s ≡ some ps
      → All InRange ps
  unfolding parse_coord_pairs
  parse_coord_pairs-InRange s ps h = elim (List-cases (fields s)) [
    | inl n ↦ absurd (ground (arith, n))
    | inr (f, fs, n) ↦ pairs_from-InRange (f ∷ fs) ps (ground (arith, n, h))
  ]

  module _ (parse_time : Bytes → Option ℤ) (now : ℤ) where
    -- Whatever motion a result holds.
    abbrev Sound : MotionResult → Type 0
    Sound (moves m) = IsMotion m
    Sound _ = Unit

    motion_of-Sound :
        (ts : Bytes) (direction speed : ℕ) (ps : List (Float64 × Float64))
        → direction < 360
        → All InRange ps
        → Sound (motion_of parse_float parse_time now ts direction speed ps)
    unfolding motion_of
    motion_of-Sound ts direction speed [] d h = tt
    motion_of-Sound ts direction speed ((lat, lon) ∷ []) d h = record {
      direction = d;
      origin = h.0;
      range = tt;
      listed = tt;
    }
    motion_of-Sound ts direction speed ((lat, lon) ∷ p ∷ ps) d h = record {
      direction = d;
      origin = h.0;
      range = h;
      listed = refl;
    }

    with_speed-Sound :
        (m : MotionMatch) (direction speed : ℕ)
        → direction < 360
        → Sound (with_speed parse_float parse_time now m direction speed)
    unfolding with_speed
    with_speed-Sound m direction speed d =
        elim (Option-cases (parse_coord_pairs parse_float m.coords)) [
          | inl n ↦ rw (n, with_speed) tt
          | inr (ps, n) ↦
              rw (n, with_speed)
                (motion_of-Sound m.ts direction speed ps d
                  (parse_coord_pairs-InRange m.coords ps n))
        ]

    of_match-Sound : (m : MotionMatch) → Sound (of_match parse_float parse_time now m)
    unfolding of_match
    of_match-Sound m = elim (Option-cases (atoi m.dir)) [
      | inl n ↦ rw (n, of_match) tt
      | inr (negsuc d, n) ↦ rw (n, of_match) tt
      | inr (pos d, n) ↦ elim (Bool-cases (leb 360 d)) [
        | inl l ↦ rw (n, of_match, l) tt
        | inr l ↦ elim (Option-cases (atoi m.kt)) [
          | inl k ↦ rw (n, of_match, l, k) tt
          | inr (negsuc v, k) ↦ rw (n, of_match, l, k) tt
          | inr (pos v, k) ↦ rw (n, of_match, l, k) (with_speed-Sound m d v (ground (arith, l)))
        ]
      ]
    ]

    parse_entry-Sound : (raw : Bytes) → Sound (parse_entry parse_float parse_time now raw)
    unfolding parse_entry
    parse_entry-Sound raw = elim (List-cases (trim_space raw)) [
      | inl n ↦ rw (n, parse_entry) tt
      | inr (c, s, n) ↦ elim (Option-cases (motion_match (match_anchored motion_re raw))) [
        | inl k ↦ rw (n, parse_entry, k) tt
        | inr (m, k) ↦ rw (n, parse_entry, k) (of_match-Sound m)
      ]
    ]

    parse_event_motion-Sound :
        (params : Map (List Bytes)) → Sound (parse_event_motion parse_float parse_time now params)
    unfolding parse_event_motion
    parse_event_motion-Sound params = elim (Option-cases (params (lit "eventMotionDescription"))) [
      | inl n ↦ rw (n, parse_event_motion) tt
      | inr ([], n) ↦ rw (n, parse_event_motion) tt
      | inr (raw ∷ more, n) ↦ rw (n, parse_event_motion) (parse_entry-Sound raw)
    ]

    -- A motion that ParseEventMotion returns has a direction below 360, an origin and points in range
    -- (latitudes not below 10 or above 75, longitudes not below -180 or above -60, whatever their sign
    -- in the text), and lists no points or at least two, the first of which is the origin.
    pub parse_event_motion-IsMotion :
        (params : Map (List Bytes)) (m : StormMotion)
        → parse_event_motion parse_float parse_time now params ≡ moves m
        → IsMotion m
    unfolding parse_event_motion
    parse_event_motion-IsMotion params m h = subst Sound h (parse_event_motion-Sound params)
