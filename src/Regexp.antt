-- ===== src/Regexp.antt =====
-- What internal/nws uses of Go's `regexp`: a sequence of items, matched with the preferences of a
-- backtracking matcher, which are those of Go. A match is the list of what each item took, so that a
-- group is one piece or several next to each other. The classes are of single bytes; `.` and `[^\n]`
-- take the bytes of a character one by one, which changes no capture, since what follows them in a
-- pattern is ASCII or the end.
pub mod Exact
use seestorm_ingest.Base.{
  ℕ, zero, suc, ◌-◌, Bool, true, false, not, ◌&&◌, ◌||◌, Option, none, some, List, [], ◌∷◌, leb,
  ◌==◌, if◌then◌else◌,
}
use seestorm_ingest.Base.Bytes.{Bytes}
use seestorm_ingest.Strings.{cut_prefix}
use mathlib.Core.List.{reverse}

pub data Item : Type 0 where
  -- A literal text
  text : Bytes → Item
  -- A class between so many and so many times; greedy or not.
  rep : Bool → ℕ → Option ℕ → (ℕ → Bool) → Item
  -- A lower-case letter under (?i)
  letter : ℕ → Item
  -- \b
  boundary : Item
  -- $
  at_end : Item

abbrev pub one : (ℕ → Bool) → Item
one p = rep true 1 (some 1) p

abbrev pub upper : ℕ → Bool
upper c = leb b'A' c && leb c b'Z'

abbrev pub digit : ℕ → Bool
digit c = leb b'0' c && leb c b'9'

-- \s
abbrev pub space : ℕ → Bool
space c = c == 32 || c == 9 || c == 10 || c == 12 || c == 13

abbrev pub not_newline : ℕ → Bool
not_newline c = not (c == 10)

abbrev pub dot : ℕ → Bool
dot c = c == b'.'

abbrev word : ℕ → Bool
word c = leb b'a' c && leb c b'z' || upper c || digit c || c == b'_'

abbrev opt_word : Option ℕ → Bool
opt_word none = false
opt_word (some c) = word c

abbrev head : Bytes → Option ℕ
head [] = none
head (c ∷ s) = some c

abbrev pub put_piece : Bytes → Option (List Bytes) → Option (List Bytes)
put_piece p none = none
put_piece p (some ps) = some (p ∷ ps)

abbrev pub first_some : Option (List Bytes) → Option (List Bytes) → Option (List Bytes)
first_some none b = b
first_some (some a) b = some a

abbrev pub spent : Option ℕ → Bool
spent (some zero) = true
spent _ = false

abbrev pub spend : Option ℕ → Option ℕ
spend none = none
spend (some n) = some (n - 1)

-- The byte before what follows this text.
abbrev pub last_or : Option ℕ → Bytes → Option ℕ
last_or prev [] = prev
last_or prev (c ∷ s) = last_or (some c) s

-- The rest of a pattern: the byte before, and the text.
abbrev pub Rest : Type 0
Rest = Option ℕ → Bytes → Option (List Bytes)

-- Ends a repetition that has taken this text, backwards.
unfoldable pub stop : Rest → ℕ → Option ℕ → Bytes → Bytes → Option (List Bytes)
stop next lo prev taken s = if lo == 0 then put_piece (reverse taken) (next prev s) else none

unfoldable pub run :
    Bool → (ℕ → Bool) → Rest → ℕ → Option ℕ → Option ℕ → Bytes → Bytes → Option (List Bytes)
unfolding stop
run greedy p next lo hi prev taken [] = stop next lo prev taken []
run greedy p next lo hi prev taken (c ∷ s) = elim (p c && not (spent hi)) [
  | false ↦ stop next lo prev taken (c ∷ s)
  | true ↦ elim greedy [
    | true ↦ elim (run greedy p next (lo - 1) (spend hi) (some c) (c ∷ taken) s) [
      | some r ↦ some r
      | none ↦ stop next lo prev taken (c ∷ s)
    ]
    | false ↦ elim (stop next lo prev taken (c ∷ s)) [
      | some r ↦ some r
      | none ↦ run greedy p next (lo - 1) (spend hi) (some c) (c ∷ taken) s
    ]
  ]
]

-- A letter or its capital; ſ (U+017F) folds to s, and K (U+212A) to k.
unfoldable pub run_letter : ℕ → Rest → Bytes → Option (List Bytes)
run_letter l next [] = none
run_letter l next (a ∷ []) =
    if a == l || a == l - 32 then put_piece (a ∷ []) (next (some a) []) else none
run_letter l next (a ∷ b ∷ []) =
    if a == l || a == l - 32
    then put_piece (a ∷ []) (next (some a) (b ∷ []))
    else if l == b's' && a == 0xC5 && b == 0xBF
    then put_piece (a ∷ b ∷ []) (next (some b) [])
    else none
run_letter l next (a ∷ b ∷ c ∷ s) =
    if a == l || a == l - 32
    then put_piece (a ∷ []) (next (some a) (b ∷ c ∷ s))
    else if l == b's' && a == 0xC5 && b == 0xBF
    then put_piece (a ∷ b ∷ []) (next (some b) (c ∷ s))
    else if l == b'k' && a == 0xE2 && b == 0x84 && c == 0xAA
    then put_piece (a ∷ b ∷ c ∷ []) (next (some c) s)
    else none

unfoldable pub match_here : List Item → Rest
unfolding run run_letter cut_prefix
match_here [] prev s = some []
match_here (text t ∷ items) prev s = elim (cut_prefix t s) [
  | none ↦ none
  | some rest ↦ put_piece t (match_here items (last_or prev t) rest)
]
match_here (rep greedy lo hi p ∷ items) prev s = run greedy p (match_here items) lo hi prev [] s
match_here (letter l ∷ items) prev s = run_letter l (match_here items) s
match_here (boundary ∷ items) prev s = elim (opt_word prev) [
  | true ↦ if opt_word (head s) then none else put_piece [] (match_here items prev s)
  | false ↦ if opt_word (head s) then put_piece [] (match_here items prev s) else none
]
match_here (at_end ∷ items) prev [] = put_piece [] (match_here items prev [])
match_here (at_end ∷ items) prev (c ∷ s) = none

-- The leftmost match of a pattern with no ^, from this place on.
unfoldable pub find_from : List Item → Option ℕ → Bytes → Option (List Bytes)
unfolding match_here
find_from items prev [] = match_here items prev []
find_from items prev (c ∷ s) =
    first_some (match_here items prev (c ∷ s)) (find_from items (some c) s)

-- FindStringSubmatch
unfoldable pub find_submatch : List Item → Bytes → Option (List Bytes)
unfolding find_from
find_submatch items s = find_from items none s

-- FindStringSubmatch with a pattern that begins with ^
unfoldable pub match_anchored : List Item → Bytes → Option (List Bytes)
unfolding match_here
match_anchored items s = match_here items none s

-- The letters of a lower-case word under (?i)
abbrev pub letters : Bytes → List Item → List Item
letters [] items = items
letters (c ∷ w) items = letter c ∷ letters w items
