-- ===== src/Nws/Vtec.antt =====
-- internal/nws/vtec.go: ParseVTEC and EventID. A Go map of parameters is a function to an option; a
-- nil map has no key.
pub mod Roundtrip
pub mod Examples
use seestorm_ingest.Base.{ℕ, Bool, true, false, ◌||◌, Option, none, some, List, [], ◌∷◌, ◌++◌, ◌==◌}
use seestorm_ingest.Base.Bytes.{Bytes, lit}
use seestorm_ingest.Base.Maps.{Map}
use seestorm_ingest.Strings.{trim_space}
use seestorm_ingest.Regexp.{Item, text, rep, one, upper, digit, find_submatch}
use seestorm_ingest.Nws.Products.{Vtec}

abbrev pub product_class : ℕ → Bool
product_class c = c == b'O' || c == b'T' || c == b'E' || c == b'X'

abbrev exactly : ℕ → (ℕ → Bool) → Item
exactly n p = rep true n (some n) p

abbrev pub dot_text : Item
dot_text = text (lit ".")

-- pvtecRe
abbrev pub pvtec_re : List Item
pvtec_re =
    text (lit "/")
    ∷ exactly 1 product_class
    ∷ dot_text
    ∷ exactly 3 upper
    ∷ dot_text
    ∷ exactly 4 upper
    ∷ dot_text
    ∷ exactly 2 upper
    ∷ dot_text
    ∷ exactly 1 upper
    ∷ dot_text
    ∷ exactly 4 digit
    ∷ dot_text
    ∷ []

unfoldable pub event_id : Vtec → Bytes
event_id v =
    v.office ++ (lit "." ++ (v.phenomenon ++ (lit "." ++ (v.significance ++ (lit "." ++ v.etn)))))

-- The groups of pvtecRe
abbrev pub vtec_of : Option (List Bytes) → Option Vtec
vtec_of (some (slash ∷ c ∷ d1 ∷ a ∷ d2 ∷ o ∷ d3 ∷ p ∷ d4 ∷ s ∷ d5 ∷ e ∷ d6 ∷ [])) = some (record {
  product_class = c;
  action = a;
  office = o;
  phenomenon = p;
  significance = s;
  etn = e;
})
vtec_of _ = none

-- (nil, nil), (nil, err), (v, nil)
pub data VtecResult : Type 0 where
  absent bad_vtec : VtecResult
  parsed : Vtec → VtecResult

abbrev pub ended : Bool → VtecResult
ended false = absent
ended true = bad_vtec

-- The loop; the flag is sawNonBlank.
unfoldable pub vtec_from : List Bytes → Bool → VtecResult
vtec_from [] saw_non_blank = ended saw_non_blank
vtec_from (raw ∷ rest) saw_non_blank = elim (trim_space raw) [
  | [] ↦ vtec_from rest saw_non_blank
  | c ∷ s ↦ elim (vtec_of (find_submatch pvtec_re (c ∷ s))) [
    | none ↦ vtec_from rest true
    | some v ↦ parsed v
  ]
]

unfoldable pub parse_vtec : Map (List Bytes) → VtecResult
unfolding vtec_from
parse_vtec params = elim (params (lit "VTEC")) [ none ↦ absent | some raw ↦ vtec_from raw false ]
