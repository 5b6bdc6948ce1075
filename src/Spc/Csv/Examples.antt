-- ===== src/Spc/Csv/Examples.antt =====
-- The theorem about the CSV rows at a file with a short record in its middle.
use seestorm_ingest.Base.{◌≡◌, refl, inl, Option, some, List, [], ◌∷◌, arith}
use seestorm_ingest.Base.Bytes.{Bytes, lit, bytes_eq}
use seestorm_ingest.Base.Int.{pos}
use seestorm_ingest.Base.{if◌then◌else◌}
use seestorm_ingest.Float.{Float64}
use seestorm_ingest.Spc.Csv.{parse_csv_reports}
use seestorm_ingest.Spc.Csv.Rows.{parse_csv_reports-Malformed}

abbrev row : List Bytes
row =
    lit "1805"
    ∷ lit "EF1"
    ∷ lit "Verona"
    ∷ lit "Dane"
    ∷ lit "WI"
    ∷ lit "43.0"
    ∷ lit "-89.5"
    ∷ lit "barn"
    ∷ []

abbrev short : List Bytes
short = lit "1805" ∷ []

abbrev some_float : Bytes → Option Float64
some_float s = some 0x4045800000000000

abbrev read : Bytes → Option (List (List Bytes))
read text =
    if bytes_eq text (lit "a")
    then some (row ∷ row ∷ short ∷ row ∷ [])
    else some (row ∷ row ∷ row ∷ [])

parse_csv_reports-Malformed_example :
    parse_csv_reports some_float (lit "tornado") read (λ _. pos 0) (lit "a")
    ≡ parse_csv_reports some_float (lit "tornado") read (λ _. pos 0) (lit "b")
unfolding bytes_eq
parse_csv_reports-Malformed_example =
    parse_csv_reports-Malformed some_float (lit "tornado") read (pos 0) (lit "a") (lit "b") row
      (row ∷ []) short (row ∷ []) refl refl (inl (omega arith))
