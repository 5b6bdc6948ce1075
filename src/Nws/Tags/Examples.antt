-- ===== src/Nws/Tags/Examples.antt =====
-- The block of the header of internal/nws/tags.go, a description that has none, and the theorem about
-- the block.
use seestorm_ingest.Base.{◌≡◌, refl, none, some, [], ◌++◌, arith}
use seestorm_ingest.Base.Bytes.{Bytes, lit, bytes_eq}
use seestorm_ingest.Strings.{trim_space, to_upper, split, join, fields, cut, cut_prefix}
use seestorm_ingest.Regexp.{match_anchored, match_here, run, stop}
use seestorm_ingest.Nws.Tags.Block.{tags_of, parse_warning_tags-Block}
use seestorm_ingest.Nws.Tags.{
  no_tags, parse_warning_tags, tag_lines, tag_line, tag_keys, assign_tag, normalize_key, tag_block,
  is_empty,
}

abbrev line : Bytes → Bytes
line s = s ++ lit "\n"

abbrev description : Bytes
description =
    line (lit "HAIL...9 IN")
    ++ (line (lit "&&")
        ++ (line (lit "TORNADO...OBSERVED")
            ++ (line (lit " MAX  HAIL SIZE....1.75 IN ")
                ++ (line (lit "&&") ++ lit "WIND...60MPH"))))

parse_warning_tags_block :
    parse_warning_tags description
    ≡ some (record no_tags { tornado = lit "OBSERVED"; max_hail_size = lit "1.75 IN" })
unfolding parse_warning_tags tag_lines tag_line tag_keys assign_tag normalize_key tag_block is_empty
    trim_space to_upper split join fields cut cut_prefix match_anchored match_here run stop bytes_eq
parse_warning_tags_block = refl

parse_warning_tags_prose : parse_warning_tags (lit "HAIL...9 IN") ≡ none
unfolding parse_warning_tags cut cut_prefix
parse_warning_tags_prose = refl

abbrev prose : Bytes
prose = line (lit "HAIL...9 IN")

abbrev block : Bytes
block = line [] ++ (line (lit "TORNADO...OBSERVED") ++ line (lit " MAX  HAIL SIZE....1.75 IN "))

parse_warning_tags-Block_example :
    (parse_warning_tags prose ≡ none)
    × (parse_warning_tags (prose ++ (lit "&&" ++ block)) ≡ tags_of block)
    × (parse_warning_tags (prose ++ (lit "&&" ++ (block ++ (lit "&&" ++ lit "WIND...60MPH"))))
        ≡ tags_of block)
parse_warning_tags-Block_example =
    parse_warning_tags-Block prose block (lit "WIND...60MPH") (omega arith) (omega arith)
