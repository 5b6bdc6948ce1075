-- ===== src/Nws/Tags.antt =====
-- internal/nws/tags.go: the tag block of a warning's description.
pub mod Keys
pub mod Lines
pub mod Block
pub mod Examples
use seestorm_ingest.Base.{
  ℕ, Bool, true, false, ◌&&◌, ◌||◌, Option, none, some, List, [], ◌∷◌, ◌++◌, ◌==◌, if◌then◌else◌,
}
use seestorm_ingest.Base.Bytes.{Bytes, lit, bytes_eq}
use seestorm_ingest.Strings.{trim_space, to_upper, split, join, fields, cut}
use seestorm_ingest.Regexp.{Item, rep, one, upper, not_newline, dot, at_end, match_anchored}
use seestorm_ingest.Nws.Products.{WarningTags}

abbrev pub no_tags : WarningTags
no_tags = record {
  tornado = [];
  tornado_damage_threat = [];
  hail = [];
  max_hail_size = [];
  wind = [];
  max_wind_gust = [];
  thunderstorm_damage_threat = [];
  flash_flood = [];
  flash_flood_damage_threat = [];
  expected_rainfall_rate = [];
  spotter_activation = [];
  source = [];
}

-- IsEmpty, of a pointer that is not nil.
unfoldable pub is_empty : WarningTags → Bool
is_empty t =
    bytes_eq t.tornado []
    && bytes_eq t.tornado_damage_threat []
    && bytes_eq t.hail []
    && bytes_eq t.max_hail_size []
    && bytes_eq t.wind []
    && bytes_eq t.max_wind_gust []
    && bytes_eq t.thunderstorm_damage_threat []
    && bytes_eq t.flash_flood []
    && bytes_eq t.flash_flood_damage_threat []
    && bytes_eq t.expected_rainfall_rate []
    && bytes_eq t.spotter_activation []
    && bytes_eq t.source []

-- An entry of tagKeys
pub record TagKey : Type 0 where
  pub key : Bytes
  pub assign : WarningTags → Bytes → WarningTags

unfoldable pub tag_keys : List TagKey
tag_keys =
    record { key = lit "TORNADO"; assign = λ t v. record t { tornado = v } }
    ∷ record {
      key = lit "TORNADO DAMAGE THREAT";
      assign = λ t v. record t { tornado_damage_threat = v };
    }
    ∷ record { key = lit "HAIL"; assign = λ t v. record t { hail = v } }
    ∷ record { key = lit "MAX HAIL SIZE"; assign = λ t v. record t { max_hail_size = v } }
    ∷ record { key = lit "WIND"; assign = λ t v. record t { wind = v } }
    ∷ record { key = lit "MAX WIND GUST"; assign = λ t v. record t { max_wind_gust = v } }
    ∷ record {
      key = lit "THUNDERSTORM DAMAGE THREAT";
      assign = λ t v. record t { thunderstorm_damage_threat = v };
    }
    ∷ record { key = lit "FLASH FLOOD"; assign = λ t v. record t { flash_flood = v } }
    ∷ record {
      key = lit "FLASH FLOOD DAMAGE THREAT";
      assign = λ t v. record t { flash_flood_damage_threat = v };
    }
    ∷ record {
      key = lit "EXPECTED RAINFALL RATE";
      assign = λ t v. record t { expected_rainfall_rate = v };
    }
    ∷ record { key = lit "SPOTTER ACTIVATION"; assign = λ t v. record t { spotter_activation = v } }
    ∷ record { key = lit "SOURCE"; assign = λ t v. record t { source = v } }
    ∷ []

-- The loop over tagKeys, to the first that has the key.
unfoldable pub assign_tag : List TagKey → Bytes → Bytes → WarningTags → WarningTags
assign_tag [] key value tags = tags
assign_tag (tk ∷ keys) key value tags =
    if bytes_eq tk.key key then tk.assign tags value else assign_tag keys key value tags

abbrev key_byte : ℕ → Bool
key_byte c = upper c || c == 32 || c == b'/'

-- tagLineRe
abbrev pub tag_line_re : List Item
tag_line_re =
    one upper
    ∷ rep true 0 none key_byte
    ∷ one upper
    ∷ rep true 3 none dot
    ∷ rep true 1 none not_newline
    ∷ at_end
    ∷ []

-- The groups of tagLineRe: the key and the value.
abbrev pub key_value : Option (List Bytes) → Option (Bytes × Bytes)
key_value (some (a ∷ b ∷ c ∷ dots ∷ value ∷ e ∷ [])) = some (a ++ (b ++ c), value)
key_value _ = none

unfoldable pub normalize_key : Bytes → Bytes
normalize_key s = to_upper (join (lit " ") (fields s))

abbrev delimiter : Bytes
delimiter = lit "&&"

-- One line of the block, trimmed. No line that is empty matches.
unfoldable pub tag_line : Bytes → WarningTags → WarningTags
unfolding tag_keys assign_tag normalize_key
tag_line line tags = elim (key_value (match_anchored tag_line_re line)) [
  | none ↦ tags
  | some (k, v) ↦ elim (trim_space v) [
    | [] ↦ tags
    | c ∷ value ↦ assign_tag tag_keys (normalize_key k) (c ∷ value) tags
  ]
]

unfoldable pub tag_lines : List Bytes → WarningTags → WarningTags
unfolding tag_line
tag_lines [] tags = tags
tag_lines (line ∷ lines) tags = tag_lines lines (tag_line (trim_space line) tags)

-- The text up to the next delimiter, if there is one.
unfoldable pub tag_block : Bytes → Bytes
tag_block block = elim (cut delimiter block) [ none ↦ block | some (before, after) ↦ before ]

-- The error is always nil.
unfoldable pub parse_warning_tags : Bytes → Option WarningTags
unfolding tag_lines tag_block is_empty
parse_warning_tags description = elim (cut delimiter description) [
  | none ↦ none
  | some (prose, block) ↦
      let tags = tag_lines (split 10 (tag_block block)) no_tags in
      if is_empty tags then none else some tags
]
