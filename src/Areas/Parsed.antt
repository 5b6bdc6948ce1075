-- ===== src/Areas/Parsed.antt =====
-- About parseAreas of cmd/ingest/main.go: which areas it lets through.
use seestorm_ingest.Base.{
  ◌≡◌, ◌≢◌, refl, ◌∙◌, Bool, false, ◌&&◌, ◌||◌, List, [], ◌∷◌, ◌++◌, arith, ap, Bool-cases, inl,
  inr,
}
use seestorm_ingest.Base.Bytes.{Bytes, lit, bytes_eq, bytes_eq_iff, contains}
use seestorm_ingest.Strings.{trim_space, split}
use seestorm_ingest.Areas.{add_area, parse_areas, add_areas, normalize, is_accepted}

-- No text stands in the list twice.
abbrev pub Distinct : List Bytes → Type 0
Distinct [] = Unit
Distinct (x ∷ xs) = (contains xs x ≡ false) × Distinct xs

-- Some token of the list stands for the code.
abbrev pub names : List Bytes → Bytes → Bool
names [] code = false
names (token ∷ rest) code =
    is_accepted (normalize token) && bytes_eq (normalize token) code || names rest code

contains-snoc :
    (xs : List Bytes) (x c : Bytes) → contains (xs ++ x ∷ []) c ≡ (contains xs c || bytes_eq x c)
unfolding contains
contains-snoc [] x c = ground arith
contains-snoc (y ∷ xs) x c = ground (arith, contains-snoc xs x c)

Distinct-snoc :
    (xs : List Bytes) (x : Bytes) → Distinct xs → contains xs x ≡ false → Distinct (xs ++ x ∷ [])
unfolding contains
Distinct-snoc [] x d h = (refl, tt)
Distinct-snoc (y ∷ xs) x d h =
    ground (arith, contains-snoc xs x y, bytes_eq_iff x y, bytes_eq_iff y x, Distinct-snoc xs x d.1)

add_area-Distinct : (out : List Bytes) (code : Bytes) → Distinct out → Distinct (add_area out code)
unfolding add_area
add_area-Distinct out code d = ground (arith, Distinct-snoc out code d)

add_areas-Distinct : (tokens out : List Bytes) → Distinct out → Distinct (add_areas tokens out)
unfolding add_areas
add_areas-Distinct [] out d = d
add_areas-Distinct (token ∷ rest) out d =
    add_areas-Distinct rest (add_area out (normalize token))
      (add_area-Distinct out (normalize token) d)

add_area-contains :
    (out : List Bytes) (code c : Bytes)
    → contains (add_area out code) c ≡ (contains out c || (is_accepted code && bytes_eq code c))
unfolding add_area
add_area-contains out code c =
    let e = bytes_eq_iff code c in
    let same : code ≡ c → contains out code ≡ contains out c = λ p. ap (contains out) p in
    let s = contains-snoc out code c in ground arith

or_assoc : (x y z : Bool) → ((x || y) || z) ≡ (x || (y || z))
or_assoc x y z = ground arith

add_areas-contains :
    (tokens out : List Bytes) (c : Bytes)
    → contains (add_areas tokens out) c ≡ (contains out c || names tokens c)
unfolding add_areas
add_areas-contains [] out c = ground arith
add_areas-contains (token ∷ rest) out c =
    add_areas-contains rest (add_area out (normalize token)) c
    ∙ ap (λ b. b || names rest c) (add_area-contains out (normalize token) c)
    ∙ or_assoc (contains out c) (is_accepted (normalize token) && bytes_eq (normalize token) c)
        (names rest c)

-- For a text that is not blank, a code is among the areas exactly if some token between commas,
-- trimmed and in capitals, is that code, has two letters and is a state or territory that NWS knows;
-- and no area stands there twice.
pub parse_areas-Distinct :
    (raw : Bytes)
    → trim_space raw ≢ []
    → ((c : Bytes) → contains (parse_areas raw) c ≡ names (split b',' raw) c)
      × Distinct (parse_areas raw)
unfolding parse_areas contains
parse_areas-Distinct raw h = elim (Bool-cases (bytes_eq (trim_space raw) [])) [
  | inl blank ↦ absurd (h ((bytes_eq_iff (trim_space raw) []).0 blank))
  | inr text ↦
      rw text
        (λ c. add_areas-contains (split b',' raw) [] c, add_areas-Distinct (split b',' raw) [] tt)
]

-- A blank text stands for Wisconsin alone.
pub parse_areas-default : (raw : Bytes) → trim_space raw ≡ [] → parse_areas raw ≡ lit "WI" ∷ []
unfolding parse_areas bytes_eq
parse_areas-default raw h = rw h
