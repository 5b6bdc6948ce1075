-- ===== src/Nws/Detection/Sources.antt =====
-- About DetectTornado of internal/nws/detection.go: where a confirmed tornado comes from.
use seestorm_ingest.Base.{◌≡◌, refl, ◌⊎◌, inl, inr, Option, none, some, List, arith, Option-cases}
use seestorm_ingest.Base.Bytes.{Bytes, lit, bytes_eq_iff}
use seestorm_ingest.Base.Maps.{Map}
use seestorm_ingest.Nws.Products.{WarningTags, observed, TornadoDetection}
use seestorm_ingest.Nws.Tags.{parse_warning_tags}
use seestorm_ingest.Nws.Detection.{
  says, detection_token, tag_token, first_param, normalize_token, Resolving, from_parameters,
  tagged_state, from_tags, from_narrative, conclude, detect_tornado, detected, is_observed,
}

detection_token-observed :
    (t : Bytes) → detection_token t ≡ says (some observed) → t ≡ lit "OBSERVED"
unfolding detection_token
detection_token-observed t h = ground (arith, bytes_eq_iff t (lit "OBSERVED"))

tag_token-observed : (t : Bytes) → tag_token t ≡ says (some observed) → t ≡ lit "OBSERVED"
unfolding tag_token
tag_token-observed t h = ground (arith, detection_token-observed t)

-- The parameter says that the tornado was observed.
abbrev pub ByParameter : Map (List Bytes) → Type 0
ByParameter params =
    (raw : Bytes) × (first_param params (lit "tornadoDetection") ≡ some raw)
    × (normalize_token raw ≡ lit "OBSERVED")

-- The tag of the block says so.
abbrev pub ByTag : Bytes → Type 0
ByTag description =
    (tags : WarningTags) × (parse_warning_tags description ≡ some tags)
    × (normalize_token tags.tornado ≡ lit "OBSERVED")

from_parameters-observed :
    (params : Map (List Bytes)) (r : Resolving)
    → from_parameters params ≡ some r
    → r.state ≡ some observed
    → ByParameter params
unfolding from_parameters
from_parameters-observed params r h e =
    elim (Option-cases (first_param params (lit "tornadoDetection"))) [
      | inl n ↦ absurd (ground (arith, n))
      | inr (raw, n) ↦ (raw, n, ground (arith, n, detection_token-observed (normalize_token raw)))
    ]

from_tags-observed :
    (description : Bytes) (tags : Option WarningTags) (r q : Resolving)
    → parse_warning_tags description ≡ tags
    → from_tags tags r ≡ some q
    → q.state ≡ some observed
    → (r.state ≡ some observed) ⊎ ((r.state ≡ none) × ByTag description)
unfolding from_tags tagged_state
from_tags-observed description none r q p h e = inl (ground arith)
from_tags-observed description (some tags) r q p h e =
    let named = tag_token-observed (normalize_token tags.tornado) in
    let tagged : r.state ≡ none → normalize_token tags.tornado ≡ lit "OBSERVED" =
      λ n. ground (arith, n, named) in
    elim (Option-cases r.state) [
      | inl n ↦ inr (n, (tags, p, tagged n))
      | inr (s, n) ↦ inl (ground (arith, n))
    ]

conclude-observed :
    (description : Bytes) (q : Resolving) (d : TornadoDetection)
    → conclude description q ≡ detected d
    → (d.confirmed ≡ is_observed d.detection) × (d.detection ≡ observed → q.state ≡ some observed)
unfolding conclude from_narrative
conclude-observed description q d h = (ground arith, ground arith)

-- A tornado is reported as observed only if a structured source says OBSERVED: the tornadoDetection
-- parameter, its first value that is not blank, or the TORNADO tag of the description's block. The
-- narrative never confirms one. And `confirmed` is true exactly when the state is observed.
pub detect_tornado-observed :
    (params : Map (List Bytes)) (description : Bytes) (d : TornadoDetection)
    → detect_tornado params description ≡ detected d
    → (d.confirmed ≡ is_observed d.detection)
      × (d.detection ≡ observed → ByParameter params ⊎ ByTag description)
unfolding detect_tornado
detect_tornado-observed params description d h = elim (Option-cases (from_parameters params)) [
  | inl n ↦ absurd (ground (arith, n))
  | inr (r, n) ↦ elim (Option-cases (from_tags (parse_warning_tags description) r)) [
    | inl m ↦ absurd (ground (arith, n, m))
    | inr (q, m) ↦
        let c = conclude-observed description q d (ground (arith, n, m)) in
        (
          c.0,
          λ o.
              elim (from_tags-observed description (parse_warning_tags description) r q refl m
                (c.1 o)) [
                  | inl e ↦ inl (from_parameters-observed params r n e)
                  | inr (e, t) ↦ inr t
                ],
        )
  ]
]
