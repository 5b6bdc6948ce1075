-- ===== src/Nws/Tags/Lines.antt =====
-- About ParseWarningTags of internal/nws/tags.go: what the tags of some lines are, key by key.
use seestorm_ingest.Base.{
  ℕ, ◌≡◌, refl, ap, ◌∙◌, Option, none, some, List, [], ◌∷◌, arith, if◌then◌else◌, inl, inr,
  Bool-cases, Option-cases, List-cases,
}
use seestorm_ingest.Base.Bytes.{Bytes, lit, bytes_eq}
use seestorm_ingest.Strings.{trim_space}
use seestorm_ingest.Regexp.{match_anchored}
use seestorm_ingest.Nws.Products.{WarningTags}
use seestorm_ingest.Nws.Tags.{tag_line_re, key_value, normalize_key, tag_line, tag_lines}
use seestorm_ingest.Nws.Tags.Keys.{pick, spread, assign_tag-spread}

-- The key of a line and its value, if it is the line of a tag.
unfoldable pub entry : Bytes → Option (Bytes × ℕ × Bytes)
entry line = elim (key_value (match_anchored tag_line_re line)) [
  | none ↦ none
  | some (k, v) ↦ elim (trim_space v) [ [] ↦ none | c ∷ value ↦ some (normalize_key k, c, value) ]
]

abbrev pub or_val : Bytes → Bytes → Bytes
or_val [] d = d
or_val (c ∷ v) d = c ∷ v

abbrev value_if : Bytes → Option (Bytes × ℕ × Bytes) → Bytes
value_if key none = []
value_if key (some (k, c, v)) = if bytes_eq key k then c ∷ v else []

-- The value of the last line that has the key; empty, if none has.
unfoldable pub last_value : Bytes → List Bytes → Bytes
unfolding entry
last_value key [] = []
last_value key (line ∷ lines) =
    or_val (last_value key lines) (value_if key (entry (trim_space line)))

-- The tags of these lines, over those that are there.
abbrev pub tags_over : List Bytes → WarningTags → WarningTags
tags_over lines t = record {
  tornado = or_val (last_value (lit "TORNADO") lines) t.tornado;
  tornado_damage_threat =
      or_val (last_value (lit "TORNADO DAMAGE THREAT") lines) t.tornado_damage_threat;
  hail = or_val (last_value (lit "HAIL") lines) t.hail;
  max_hail_size = or_val (last_value (lit "MAX HAIL SIZE") lines) t.max_hail_size;
  wind = or_val (last_value (lit "WIND") lines) t.wind;
  max_wind_gust = or_val (last_value (lit "MAX WIND GUST") lines) t.max_wind_gust;
  thunderstorm_damage_threat =
      or_val (last_value (lit "THUNDERSTORM DAMAGE THREAT") lines) t.thunderstorm_damage_threat;
  flash_flood = or_val (last_value (lit "FLASH FLOOD") lines) t.flash_flood;
  flash_flood_damage_threat =
      or_val (last_value (lit "FLASH FLOOD DAMAGE THREAT") lines) t.flash_flood_damage_threat;
  expected_rainfall_rate =
      or_val (last_value (lit "EXPECTED RAINFALL RATE") lines) t.expected_rainfall_rate;
  spotter_activation = or_val (last_value (lit "SPOTTER ACTIVATION") lines) t.spotter_activation;
  source = or_val (last_value (lit "SOURCE") lines) t.source;
}

-- What one line does to the tags.
abbrev placed : Option (Bytes × ℕ × Bytes) → WarningTags → WarningTags
placed none t = t
placed (some (k, c, v)) t = spread k (c ∷ v) t

tag_line-placed : (line : Bytes) (t : WarningTags) → tag_line line t ≡ placed (entry line) t
unfolding tag_line entry
tag_line-placed line t = elim (Option-cases (key_value (match_anchored tag_line_re line))) [
  | inl e ↦ rw (e, tag_line) (rw (e, entry) refl)
  | inr ((k, v), e) ↦ elim (List-cases (trim_space v)) [
    | inl f ↦ ground (arith, e, f)
    | inr (c, value, f) ↦ ground (arith, e, f, assign_tag-spread (normalize_key k) (c ∷ value) t)
  ]
]

-- One place: the lines after this one, then this one, then what was there.
or_val-pick :
    (later key k : Bytes) (c : ℕ) (v d : Bytes)
    → or_val later (pick key k (c ∷ v) d)
      ≡ or_val (or_val later (if bytes_eq key k then c ∷ v else [])) d
or_val-pick (x ∷ later) key k c v d = refl
or_val-pick [] key k c v d = elim (Bool-cases (bytes_eq key k)) [
  | inl e ↦ rw e refl
  | inr e ↦ rw e refl
]

or_val-nil : (later d : Bytes) → or_val later d ≡ or_val (or_val later []) d
or_val-nil [] d = refl
or_val-nil (x ∷ later) d = refl

-- The lines after this one, over what this one has made of the tags
tags_over-placed :
    (lines : List Bytes) (o : Option (Bytes × ℕ × Bytes)) (t : WarningTags)
    → tags_over lines (placed o t) ≡ record {
      tornado =
          or_val (or_val (last_value (lit "TORNADO") lines) (value_if (lit "TORNADO") o)) t.tornado;
      tornado_damage_threat =
          or_val
            (or_val
              (last_value (lit "TORNADO DAMAGE THREAT") lines)
              (value_if (lit "TORNADO DAMAGE THREAT") o))
            t.tornado_damage_threat;
      hail = or_val (or_val (last_value (lit "HAIL") lines) (value_if (lit "HAIL") o)) t.hail;
      max_hail_size =
          or_val
            (or_val (last_value (lit "MAX HAIL SIZE") lines) (value_if (lit "MAX HAIL SIZE") o))
            t.max_hail_size;
      wind = or_val (or_val (last_value (lit "WIND") lines) (value_if (lit "WIND") o)) t.wind;
      max_wind_gust =
          or_val
            (or_val (last_value (lit "MAX WIND GUST") lines) (value_if (lit "MAX WIND GUST") o))
            t.max_wind_gust;
      thunderstorm_damage_threat =
          or_val
            (or_val
              (last_value (lit "THUNDERSTORM DAMAGE THREAT") lines)
              (value_if (lit "THUNDERSTORM DAMAGE THREAT") o))
            t.thunderstorm_damage_threat;
      flash_flood =
          or_val
            (or_val (last_value (lit "FLASH FLOOD") lines) (value_if (lit "FLASH FLOOD") o))
            t.flash_flood;
      flash_flood_damage_threat =
          or_val
            (or_val
              (last_value (lit "FLASH FLOOD DAMAGE THREAT") lines)
              (value_if (lit "FLASH FLOOD DAMAGE THREAT") o))
            t.flash_flood_damage_threat;
      expected_rainfall_rate =
          or_val
            (or_val
              (last_value (lit "EXPECTED RAINFALL RATE") lines)
              (value_if (lit "EXPECTED RAINFALL RATE") o))
            t.expected_rainfall_rate;
      spotter_activation =
          or_val
            (or_val
              (last_value (lit "SPOTTER ACTIVATION") lines)
              (value_if (lit "SPOTTER ACTIVATION") o))
            t.spotter_activation;
      source =
          or_val (or_val (last_value (lit "SOURCE") lines) (value_if (lit "SOURCE") o)) t.source;
    }
tags_over-placed lines none t = λ i. record {
  tornado = or_val-nil (last_value (lit "TORNADO") lines) t.tornado i;
  tornado_damage_threat =
      or_val-nil (last_value (lit "TORNADO DAMAGE THREAT") lines) t.tornado_damage_threat i;
  hail = or_val-nil (last_value (lit "HAIL") lines) t.hail i;
  max_hail_size = or_val-nil (last_value (lit "MAX HAIL SIZE") lines) t.max_hail_size i;
  wind = or_val-nil (last_value (lit "WIND") lines) t.wind i;
  max_wind_gust = or_val-nil (last_value (lit "MAX WIND GUST") lines) t.max_wind_gust i;
  thunderstorm_damage_threat =
      or_val-nil (last_value (lit "THUNDERSTORM DAMAGE THREAT") lines) t.thunderstorm_damage_threat
        i;
  flash_flood = or_val-nil (last_value (lit "FLASH FLOOD") lines) t.flash_flood i;
  flash_flood_damage_threat =
      or_val-nil (last_value (lit "FLASH FLOOD DAMAGE THREAT") lines) t.flash_flood_damage_threat i;
  expected_rainfall_rate =
      or_val-nil (last_value (lit "EXPECTED RAINFALL RATE") lines) t.expected_rainfall_rate i;
  spotter_activation =
      or_val-nil (last_value (lit "SPOTTER ACTIVATION") lines) t.spotter_activation i;
  source = or_val-nil (last_value (lit "SOURCE") lines) t.source i;
}
tags_over-placed lines (some (k, c, v)) t = λ i. record {
  tornado = or_val-pick (last_value (lit "TORNADO") lines) (lit "TORNADO") k c v t.tornado i;
  tornado_damage_threat =
      or_val-pick (last_value (lit "TORNADO DAMAGE THREAT") lines) (lit "TORNADO DAMAGE THREAT") k c
        v t.tornado_damage_threat i;
  hail = or_val-pick (last_value (lit "HAIL") lines) (lit "HAIL") k c v t.hail i;
  max_hail_size =
      or_val-pick (last_value (lit "MAX HAIL SIZE") lines) (lit "MAX HAIL SIZE") k c v
        t.max_hail_size i;
  wind = or_val-pick (last_value (lit "WIND") lines) (lit "WIND") k c v t.wind i;
  max_wind_gust =
      or_val-pick (last_value (lit "MAX WIND GUST") lines) (lit "MAX WIND GUST") k c v
        t.max_wind_gust i;
  thunderstorm_damage_threat =
      or_val-pick (last_value (lit "THUNDERSTORM DAMAGE THREAT") lines)
        (lit "THUNDERSTORM DAMAGE THREAT") k c v t.thunderstorm_damage_threat i;
  flash_flood =
      or_val-pick (last_value (lit "FLASH FLOOD") lines) (lit "FLASH FLOOD") k c v t.flash_flood i;
  flash_flood_damage_threat =
      or_val-pick (last_value (lit "FLASH FLOOD DAMAGE THREAT") lines)
        (lit "FLASH FLOOD DAMAGE THREAT") k c v t.flash_flood_damage_threat i;
  expected_rainfall_rate =
      or_val-pick (last_value (lit "EXPECTED RAINFALL RATE") lines) (lit "EXPECTED RAINFALL RATE") k
        c v t.expected_rainfall_rate i;
  spotter_activation =
      or_val-pick (last_value (lit "SPOTTER ACTIVATION") lines) (lit "SPOTTER ACTIVATION") k c v
        t.spotter_activation i;
  source = or_val-pick (last_value (lit "SOURCE") lines) (lit "SOURCE") k c v t.source i;
}

pub tag_lines-tags_over :
    (lines : List Bytes) (t : WarningTags) → tag_lines lines t ≡ tags_over lines t
unfolding tag_lines last_value
tag_lines-tags_over [] t = refl
tag_lines-tags_over (line ∷ lines) t =
    tag_lines-tags_over lines (tag_line (trim_space line) t)
    ∙ ap (tags_over lines) (tag_line-placed (trim_space line) t)
    ∙ tags_over-placed lines (entry (trim_space line)) t
