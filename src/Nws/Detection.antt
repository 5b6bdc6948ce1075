-- ===== src/Nws/Detection.antt =====
-- internal/nws/detection.go: DetectTornado. The Go value `Detection` is set exactly when `resolved` is,
-- so both are one option here.
pub mod Sources
pub mod Examples
use seestorm_ingest.Base.{
  ℕ, Bool, true, false, not, ◌&&◌, Option, none, some, List, [], ◌∷◌, ◌++◌, if◌then◌else◌,
}
use seestorm_ingest.Base.Bytes.{Bytes, lit, bytes_eq}
use seestorm_ingest.Base.Maps.{Map}
use mathlib.Core.List.{reverse}
use seestorm_ingest.Strings.{trim_space, to_upper, to_lower, join, fields, has_substring}
use seestorm_ingest.Regexp.{Item, rep, letters, boundary, not_newline, dot, space, find_submatch}
use seestorm_ingest.Nws.Products.{
  WarningTags, TornadoDetectionState, radar_indicated, observed, TornadoDamageThreatLevel,
  threat_base, threat_considerable, threat_catastrophic, TornadoDetection,
}
use seestorm_ingest.Nws.Tags.{parse_warning_tags}

-- The two expressions that read a line of the narrative: the word, dots, space, and the line's rest.
abbrev line_re : Bytes → List Item
line_re keyword =
    boundary
    ∷ letters keyword
        (rep true 2 none dot ∷ rep true 0 none space ∷ rep true 1 none not_newline ∷ [])

abbrev hazard_line_re : List Item
hazard_line_re = line_re (lit "hazard")

abbrev source_line_re : List Item
source_line_re = line_re (lit "source")

-- Their only group: the last piece.
abbrev last_piece : Option (List Bytes) → Option Bytes
last_piece none = none
last_piece (some []) = none
last_piece (some (p ∷ ps)) = elim (last_piece (some ps)) [ none ↦ some p | some q ↦ some q ]

-- The alternatives of svrHazardExclusionRe
abbrev exclusions : List Bytes
exclusions = lit "possible" ∷ lit "wind" ∷ lit "hail" ∷ lit "mph" ∷ lit "gust" ∷ []

unfoldable pub has_word : List Bytes → Bytes → Bool
has_word [] s = false
has_word (w ∷ ws) s = elim (find_submatch (boundary ∷ letters w (boundary ∷ [])) s) [
  | some m ↦ true
  | none ↦ has_word ws s
]

unfoldable pub is_tornado_hazard : Bytes → Bool
unfolding has_word
is_tornado_hazard description = elim (last_piece (find_submatch hazard_line_re description)) [
  | none ↦ false
  | some haz ↦ has_substring (lit "tornado") (to_lower haz) && not (has_word exclusions haz)
]

unfoldable pub first_non_blank : List Bytes → Option Bytes
first_non_blank [] = none
first_non_blank (e ∷ entries) = elim (trim_space e) [
  | [] ↦ first_non_blank entries
  | c ∷ s ↦ some e
]

unfoldable pub first_param : Map (List Bytes) → Bytes → Option Bytes
unfolding first_non_blank
first_param params key = elim (params key) [ none ↦ none | some entries ↦ first_non_blank entries ]

unfoldable pub normalize_token : Bytes → Bytes
normalize_token s = to_upper (join (lit " ") (fields s))

-- What a normalized token says; the drift is the error.
pub data Token : Type 0 where
  drift : Token
  says : Option TornadoDetectionState → Token

unfoldable pub detection_token : Bytes → Token
detection_token token =
    if bytes_eq token (lit "RADAR INDICATED")
    then says (some radar_indicated)
    else if bytes_eq token (lit "OBSERVED")
    then says (some observed)
    else if bytes_eq token (lit "POSSIBLE")
    then says none
    else drift

-- The tag may be missing.
unfoldable pub tag_token : Bytes → Token
unfolding detection_token
tag_token token = if bytes_eq token [] then says none else detection_token token

unfoldable pub damage_token : Bytes → TornadoDamageThreatLevel
damage_token token =
    if bytes_eq token (lit "CONSIDERABLE")
    then threat_considerable
    else if bytes_eq token (lit "CATASTROPHIC")
    then threat_catastrophic
    else threat_base

-- What is known after a tier.
pub record Resolving : Type 0 where
  pub state : Option TornadoDetectionState
  pub damage_threat : TornadoDamageThreatLevel
  pub source_text : Bytes

-- Tier 1; `none` is the error.
unfoldable pub from_parameters : Map (List Bytes) → Option Resolving
unfolding first_param normalize_token detection_token damage_token
from_parameters params =
    let damage_threat : TornadoDamageThreatLevel =
      elim (first_param params (lit "tornadoDamageThreat")) [
        | none ↦ threat_base
        | some raw ↦ damage_token (normalize_token raw)
      ] in
    let token : Token = elim (first_param params (lit "tornadoDetection")) [
      | none ↦ says none
      | some raw ↦ detection_token (normalize_token raw)
    ] in
    elim token [
      | drift ↦ none
      | says state ↦
          some (record { state = state; damage_threat = damage_threat; source_text = [] })
    ]

abbrev worse : TornadoDamageThreatLevel → TornadoDamageThreatLevel → TornadoDamageThreatLevel
worse threat_base tagged = tagged
worse known tagged = known

-- The switch of tier 2 on the TORNADO tag, which is read only while nothing is resolved.
unfoldable pub tagged_state : Option TornadoDetectionState → Bytes → Token
unfolding tag_token normalize_token
tagged_state (some state) tag = says (some state)
tagged_state none tag = tag_token (normalize_token tag)

-- Tier 2
unfoldable pub from_tags : Option WarningTags → Resolving → Option Resolving
unfolding tagged_state damage_token
from_tags none r = some r
from_tags (some tags) r = elim (tagged_state r.state tags.tornado) [
  | drift ↦ none
  | says state ↦ some (record {
    state = state;
    damage_threat =
        worse r.damage_threat (damage_token (normalize_token tags.tornado_damage_threat));
    source_text = elim r.source_text [ [] ↦ trim_space tags.source | c ∷ s ↦ c ∷ s ];
  })
]

trim_dots_back : Bytes → Bytes
trim_dots_back [] = []
trim_dots_back (c ∷ s) = let rest = trim_dots_back s in if dot c then rest else c ∷ s

-- strings.TrimRight of dots
unfoldable pub trim_dots : Bytes → Bytes
unfolding trim_dots_back
trim_dots s = reverse (trim_dots_back (reverse s))

unfoldable pub narrative_source : Bytes → Bytes
unfolding trim_dots
narrative_source description = elim (last_piece (find_submatch source_line_re description)) [
  | none ↦ []
  | some s ↦ trim_dots (trim_space s)
]

-- Tier 3, which never says more than the radar.
unfoldable pub from_narrative : Bytes → Option TornadoDetectionState → Option TornadoDetectionState
unfolding is_tornado_hazard narrative_source
from_narrative description (some state) = some state
from_narrative description none =
    if is_tornado_hazard description
      && has_substring (lit "RADAR INDICATED") (to_upper (narrative_source description))
    then some radar_indicated
    else none

abbrev pub is_observed : TornadoDetectionState → Bool
is_observed observed = true
is_observed radar_indicated = false

-- (nil, nil), (nil, err), (det, nil)
pub data DetectionResult : Type 0 where
  no_detection bad_detection : DetectionResult
  detected : TornadoDetection → DetectionResult

-- After the tiers of the structured sources
unfoldable pub conclude : Bytes → Resolving → DetectionResult
unfolding from_narrative
conclude description r = elim (from_narrative description r.state) [
  | none ↦ no_detection
  | some state ↦ detected (record {
    detection = state;
    confirmed = is_observed state;
    damage_threat = r.damage_threat;
    source_text = elim r.source_text [ [] ↦ narrative_source description | c ∷ s ↦ c ∷ s ];
  })
]

unfoldable pub detect_tornado : Map (List Bytes) → Bytes → DetectionResult
unfolding from_parameters from_tags conclude
detect_tornado params description = elim (from_parameters params) [
  | none ↦ bad_detection
  | some r ↦ elim (from_tags (parse_warning_tags description) r) [
    | none ↦ bad_detection
    | some q ↦ conclude description q
  ]
]
