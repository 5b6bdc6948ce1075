-- ===== src/Nws/Tags/Block.antt =====
-- About ParseWarningTags of internal/nws/tags.go: the block of a description, and its tags.
use seestorm_ingest.Base.{
  ◌≡◌, refl, ap, ◌∙◌, Option, none, some, [], ◌∷◌, ◌++◌, arith, if◌then◌else◌, All, ◌≢◌,
}
use seestorm_ingest.Base.Bytes.{Bytes, lit}
use seestorm_ingest.Strings.{split, cut, cut_prefix}
use seestorm_ingest.Nws.Products.{WarningTags}
use seestorm_ingest.Nws.Tags.{no_tags, is_empty, tag_block, parse_warning_tags}
use seestorm_ingest.Nws.Tags.Lines.{tags_over, tag_lines-tags_over}

-- No text with this has a delimiter.
abbrev pub NoDelimiter : Bytes → Type 0
NoDelimiter s = All (λ c. c ≢ b'&') s

cut-first :
    (prose after : Bytes)
    → NoDelimiter prose
    → cut (lit "&&") (prose ++ (lit "&&" ++ after)) ≡ some (prose, after)
unfolding cut cut_prefix
cut-first [] after h = refl
cut-first (c ∷ prose) after h = ground (arith, cut-first prose after h.1, h.0)

cut-none : (s : Bytes) → NoDelimiter s → cut (lit "&&") s ≡ none
unfolding cut cut_prefix
cut-none [] h = refl
cut-none (c ∷ s) h = ground (arith, cut-none s h.1, h.0)

-- The tags of a block: for each key the value of the last line that has it; none if all are empty.
abbrev pub tags_of : Bytes → Option WarningTags
tags_of block = let t = tags_over (split 10 block) no_tags in if is_empty t then none else some t

tag_block-last : (block : Bytes) → NoDelimiter block → tag_block block ≡ block
unfolding tag_block
tag_block-last block h = rw (cut-none block h, tag_block) refl

tag_block-more :
    (block rest : Bytes) → NoDelimiter block → tag_block (block ++ (lit "&&" ++ rest)) ≡ block
unfolding tag_block
tag_block-more block rest h = rw (cut-first block rest h, tag_block) refl

parse_warning_tags-after :
    (prose text : Bytes)
    → NoDelimiter prose
    → parse_warning_tags (prose ++ (lit "&&" ++ text)) ≡ tags_of (tag_block text)
unfolding parse_warning_tags
parse_warning_tags-after prose text h =
    rw (cut-first prose text h, parse_warning_tags)
      (ap (λ (t : WarningTags). if is_empty t then none else some t)
        (tag_lines-tags_over (split 10 (tag_block text)) no_tags))

-- Only the first block of a description counts, whatever stands before it and after it, where no `&` is:
-- a description without a delimiter has no tags; with one, its tags are those of the text from there to
-- the next delimiter, or to the end. Of a block, each of the twelve tags has the value of the last line
-- with its key, without the space around it; lines that are no tags, that have another key or no value,
-- are passed over; and there are no tags if all twelve are empty.
pub parse_warning_tags-Block :
    (prose block rest : Bytes)
    → NoDelimiter prose
    → NoDelimiter block
    → (parse_warning_tags prose ≡ none)
      × (parse_warning_tags (prose ++ (lit "&&" ++ block)) ≡ tags_of block)
      × (parse_warning_tags (prose ++ (lit "&&" ++ (block ++ (lit "&&" ++ rest)))) ≡ tags_of block)
unfolding parse_warning_tags
parse_warning_tags-Block prose block rest h k = (
  rw (cut-none prose h, parse_warning_tags) refl,
  parse_warning_tags-after prose block h ∙ ap tags_of (tag_block-last block k),
  parse_warning_tags-after prose (block ++ (lit "&&" ++ rest)) h
      ∙ ap tags_of (tag_block-more block rest k),
)
