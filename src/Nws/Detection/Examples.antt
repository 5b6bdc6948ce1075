-- ===== src/Nws/Detection/Examples.antt =====
-- The theorem about DetectTornado at an SVS update without a tag block, and tests of its narrative.
use seestorm_ingest.Base.{◌≡◌, refl, true, ◌⊎◌, none, some, List, [], ◌∷◌, if◌then◌else◌}
use seestorm_ingest.Base.Bytes.{Bytes, lit, bytes_eq}
use seestorm_ingest.Base.Maps.{Map}
use seestorm_ingest.Strings.{
  trim_space, to_upper, to_lower, join, fields, has_substring, cut, cut_prefix, split,
}
use seestorm_ingest.Regexp.{find_submatch, find_from, match_here, run, run_letter, stop}
use seestorm_ingest.Nws.Products.{
  TornadoDetection, radar_indicated, observed, threat_base, threat_considerable,
}
use seestorm_ingest.Nws.Tags.{parse_warning_tags}
use seestorm_ingest.Nws.Detection.{
  detect_tornado, from_parameters, from_tags, tagged_state, from_narrative, conclude, first_param,
  first_non_blank, normalize_token, detection_token, damage_token, is_tornado_hazard, has_word,
  narrative_source, trim_dots, detected, no_detection, is_observed,
}
use seestorm_ingest.Nws.Detection.Sources.{detect_tornado-observed, ByParameter, ByTag}

abbrev params : Map (List Bytes)
params k =
    if bytes_eq k (lit "tornadoDetection")
    then some (lit " " ∷ lit "Observed" ∷ [])
    else if bytes_eq k (lit "tornadoDamageThreat")
    then some (lit "CONSIDERABLE" ∷ [])
    else none

abbrev narrative : Bytes
narrative = lit "HAZARD...Damaging tornado.\nSOURCE...Radar indicated rotation.\n"

abbrev confirmed : TornadoDetection
confirmed = record {
  detection = observed;
  confirmed = true;
  damage_threat = threat_considerable;
  source_text = lit "Radar indicated rotation";
}

svs_update : detect_tornado params narrative ≡ detected confirmed
unfolding detect_tornado from_parameters from_tags tagged_state from_narrative conclude first_param
    first_non_blank normalize_token detection_token damage_token narrative_source trim_dots
    trim_space to_upper join fields cut cut_prefix split bytes_eq find_submatch find_from match_here
    run run_letter stop parse_warning_tags
svs_update = refl

detect_tornado-observed_example :
    (true ≡ is_observed observed) × (observed ≡ observed → ByParameter params ⊎ ByTag narrative)
detect_tornado-observed_example = detect_tornado-observed params narrative confirmed svs_update

abbrev no_params : Map (List Bytes)
no_params k = none

-- Without a structured source the narrative gives the radar at most.
narrative_alone :
    detect_tornado no_params narrative
    ≡ detected (record {
      detection = radar_indicated;
      confirmed = is_observed radar_indicated;
      damage_threat = threat_base;
      source_text = lit "Radar indicated rotation";
    })
unfolding detect_tornado from_parameters from_tags tagged_state from_narrative conclude first_param
    is_tornado_hazard has_word has_substring to_lower narrative_source trim_dots trim_space to_upper
    cut cut_prefix find_submatch find_from match_here run run_letter stop parse_warning_tags
narrative_alone = refl

possible_alone :
    detect_tornado no_params
      (lit "HAZARD...60 mph wind gusts and a tornado possible.\nSOURCE...Radar indicated.")
    ≡ no_detection
unfolding detect_tornado from_parameters from_tags tagged_state from_narrative conclude first_param
    is_tornado_hazard has_word has_substring to_lower narrative_source trim_dots trim_space to_upper
    cut cut_prefix find_submatch find_from match_here run run_letter stop parse_warning_tags
possible_alone = refl
