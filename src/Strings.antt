-- ===== src/Strings.antt =====
-- What the program uses of Go's `strings` package, on bytes. White space is that of
-- `unicode.IsSpace`, in its UTF-8 encodings. `to_upper` and `to_lower` map the ASCII letters and
-- the four characters beyond ASCII whose other case is an ASCII letter; other characters are left
-- alone, which no comparison with an ASCII text can tell.
pub mod Examples
use seestorm_ingest.Base.{
  ℕ, zero, suc, ◌+◌, ◌-◌, Bool, true, false, ◌&&◌, ◌||◌, Option, none, some, List, [], ◌∷◌, ◌++◌,
  leb, ltb, ◌==◌, if◌then◌else◌,
}
use seestorm_ingest.Base.Bytes.{Bytes}
use mathlib.Core.List.{reverse}

abbrev is_ascii_space : ℕ → Bool
is_ascii_space c = c == 32 || leb 9 c && leb c 13

-- U+0085, U+00A0
abbrev is_space2 : ℕ → ℕ → Bool
is_space2 a b = a == 0xC2 && (b == 0x85 || b == 0xA0)

-- U+1680, U+2000 to U+200A, U+2028, U+2029, U+202F, U+205F, U+3000
abbrev is_space3 : ℕ → ℕ → ℕ → Bool
is_space3 a b c =
    a == 0xE1 && b == 0x9A && c == 0x80
    || a == 0xE2 && b == 0x80 && (leb 0x80 c && leb c 0x8A || c == 0xA8 || c == 0xA9 || c == 0xAF)
    || a == 0xE2 && b == 0x81 && c == 0x9F
    || a == 0xE3 && b == 0x80 && c == 0x80

-- How many bytes the white space character at the head takes; 0 if there is none.
space_width : Bytes → ℕ
space_width [] = 0
space_width (a ∷ []) = if is_ascii_space a then 1 else 0
space_width (a ∷ b ∷ []) = if is_ascii_space a then 1 else if is_space2 a b then 2 else 0
space_width (a ∷ b ∷ c ∷ s) =
    if is_ascii_space a then 1 else if is_space2 a b then 2 else if is_space3 a b c then 3 else 0

-- The same for the last character, of a text that is given backwards.
space_width_back : Bytes → ℕ
space_width_back [] = 0
space_width_back (a ∷ []) = if is_ascii_space a then 1 else 0
space_width_back (b ∷ a ∷ []) = if is_ascii_space b then 1 else if is_space2 a b then 2 else 0
space_width_back (c ∷ b ∷ a ∷ s) =
    if is_ascii_space c then 1 else if is_space2 b c then 2 else if is_space3 a b c then 3 else 0

-- Drops white space at the head; the number counts the bytes of a character still to be dropped.
trim_head : (Bytes → ℕ) → ℕ → Bytes → Bytes
trim_head width k [] = []
trim_head width (suc k) (c ∷ s) = trim_head width k s
trim_head width zero (c ∷ s) = elim (width (c ∷ s)) [ zero ↦ c ∷ s | suc k ↦ trim_head width k s ]

-- strings.TrimSpace
unfoldable pub trim_space : Bytes → Bytes
unfolding trim_head space_width space_width_back
trim_space s = reverse (trim_head space_width_back 0 (reverse (trim_head space_width 0 s)))

is_lower : ℕ → Bool
is_lower c = leb b'a' c && leb c b'z'

is_upper : ℕ → Bool
is_upper c = leb b'A' c && leb c b'Z'

upper_byte : ℕ → ℕ
unfolding is_lower
upper_byte c = if is_lower c then c - 32 else c

lower_byte : ℕ → ℕ
unfolding is_upper
lower_byte c = if is_upper c then c + 32 else c

-- strings.ToUpper: ı (U+0131) becomes I, ſ (U+017F) becomes S.
unfoldable pub to_upper : Bytes → Bytes
unfolding upper_byte
to_upper [] = []
to_upper (a ∷ []) = upper_byte a ∷ []
to_upper (a ∷ b ∷ s) =
    let here = to_upper s in
    let next = to_upper (b ∷ s) in
    if a == 0xC4 && b == 0xB1
    then b'I' ∷ here
    else if a == 0xC5 && b == 0xBF
    then b'S' ∷ here
    else upper_byte a ∷ next

-- strings.ToLower: İ (U+0130) becomes i, K (U+212A) becomes k.
unfoldable pub to_lower : Bytes → Bytes
unfolding lower_byte
to_lower [] = []
to_lower (a ∷ []) = lower_byte a ∷ []
to_lower (a ∷ b ∷ []) =
    if a == 0xC4 && b == 0xB0 then b'i' ∷ [] else lower_byte a ∷ lower_byte b ∷ []
to_lower (a ∷ b ∷ c ∷ s) =
    let two = to_lower (c ∷ s) in
    let three = to_lower s in
    let next = to_lower (b ∷ c ∷ s) in
    if a == 0xC4 && b == 0xB0
    then b'i' ∷ two
    else if a == 0xE2 && b == 0x84 && c == 0xAA
    then b'k' ∷ three
    else lower_byte a ∷ next

-- Puts a byte in front of the first of a list of texts.
abbrev onto_first : ℕ → List Bytes → List Bytes
onto_first c [] = (c ∷ []) ∷ []
onto_first c (w ∷ ws) = (c ∷ w) ∷ ws

-- strings.Split at a one-byte separator
unfoldable pub split : ℕ → Bytes → List Bytes
split sep [] = [] ∷ []
split sep (c ∷ s) = let rest = split sep s in if c == sep then [] ∷ rest else onto_first c rest

-- strings.Join
unfoldable pub join : Bytes → List Bytes → Bytes
join sep [] = []
join sep (w ∷ []) = w
join sep (w ∷ v ∷ ws) = w ++ (sep ++ join sep (v ∷ ws))

abbrev cons_word : Bytes → List Bytes → List Bytes
cons_word [] ws = ws
cons_word (c ∷ w) ws = reverse (c ∷ w) ∷ ws

-- strings.Fields: the word read so far is kept backwards.
fields_from : Bytes → ℕ → Bytes → List Bytes
unfolding space_width
fields_from word k [] = cons_word word []
fields_from word (suc k) (c ∷ s) = fields_from word k s
fields_from word zero (c ∷ s) = elim (space_width (c ∷ s)) [
  | zero ↦ fields_from (c ∷ word) 0 s
  | suc k ↦ cons_word word (fields_from [] k s)
]

unfoldable pub fields : Bytes → List Bytes
unfolding fields_from
fields s = fields_from [] 0 s

-- strings.HasPrefix, with the rest of the text.
unfoldable pub cut_prefix : Bytes → Bytes → Option Bytes
cut_prefix [] s = some s
cut_prefix (p ∷ ps) [] = none
cut_prefix (p ∷ ps) (c ∷ s) = let rest = cut_prefix ps s in if p == c then rest else none

-- strings.Contains
unfoldable pub has_substring : Bytes → Bytes → Bool
unfolding cut_prefix
has_substring p [] = elim (cut_prefix p []) [ some _ ↦ true | none ↦ false ]
has_substring p (c ∷ s) = elim (cut_prefix p (c ∷ s)) [ some _ ↦ true | none ↦ has_substring p s ]

-- strings.Cut: the text before and after the first occurrence of the separator.
unfoldable pub cut : Bytes → Bytes → Option (Bytes × Bytes)
unfolding cut_prefix
cut p [] = elim (cut_prefix p []) [ some r ↦ some ([], r) | none ↦ none ]
cut p (c ∷ s) = elim (cut_prefix p (c ∷ s)) [
  | some r ↦ some ([], r)
  | none ↦ elim (cut p s) [ some (before, after) ↦ some (c ∷ before, after) | none ↦ none ]
]
