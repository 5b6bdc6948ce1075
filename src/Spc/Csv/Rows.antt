-- ===== src/Spc/Csv/Rows.antt =====
-- About parseCSVReports of internal/spc/client.go: one record after another.
use seestorm_ingest.Base.{
  ℕ, suc, ◌<◌, ◌≡◌, ◌⊎◌, inl, inr, refl, sym, ap, ◌∙◌, Option, none, some, List, [], ◌∷◌, ◌++◌,
  length, arith, get_elem?,
}
use seestorm_ingest.Base.Bytes.{Bytes}
use seestorm_ingest.Base.Int.{ℤ}
use seestorm_ingest.Strings.{trim_space}
use seestorm_ingest.Float.{Float64}
use seestorm_ingest.Spc.Csv.{report_of, reports_from, cons_option, parse_csv_reports, skip_header}

abbrev or_blank : Option Bytes → Bytes
or_blank none = []
or_blank (some s) = s

module _ (parse_float : Bytes → Option Float64) (report_type : Bytes) where
  -- Too few fields, or a coordinate that is no number.
  abbrev pub Malformed : List Bytes → Type 0
  Malformed row =
      (length row < 8)
      ⊎ (parse_float (trim_space (or_blank (get_elem? row 5))) ≡ none)
      ⊎ (parse_float (trim_space (or_blank (get_elem? row 6))) ≡ none)

  report_of-Malformed :
      (day : ℤ) (row : List Bytes)
      → Malformed row
      → report_of parse_float report_type day row ≡ none
  unfolding report_of
  report_of-Malformed day [] h = refl
  report_of-Malformed day (a ∷ []) h = refl
  report_of-Malformed day (a ∷ b ∷ []) h = refl
  report_of-Malformed day (a ∷ b ∷ c ∷ []) h = refl
  report_of-Malformed day (a ∷ b ∷ c ∷ d ∷ []) h = refl
  report_of-Malformed day (a ∷ b ∷ c ∷ d ∷ e ∷ []) h = refl
  report_of-Malformed day (a ∷ b ∷ c ∷ d ∷ e ∷ f ∷ []) h = refl
  report_of-Malformed day (a ∷ b ∷ c ∷ d ∷ e ∷ f ∷ g ∷ []) h = refl
  report_of-Malformed day (a ∷ b ∷ c ∷ d ∷ e ∷ f ∷ g ∷ k ∷ more) (inl h) = absurd (omega arith)
  report_of-Malformed day (a ∷ b ∷ c ∷ d ∷ e ∷ f ∷ g ∷ k ∷ more) (inr h) = ground arith

  module _ (day : ℤ) where
    reports_from-index :
        (i j : ℕ) (xs : List (List Bytes))
        → reports_from parse_float report_type (λ _. day) i xs
          ≡ reports_from parse_float report_type (λ _. day) j xs
    unfolding reports_from
    reports_from-index i j [] = refl
    reports_from-index i j (x ∷ xs) =
        ap (cons_option parse_float report_type (report_of parse_float report_type day x))
          (reports_from-index (suc i) (suc j) xs)

    reports_from-Malformed :
        (i : ℕ) (xs : List (List Bytes)) (bad : List Bytes) (ys : List (List Bytes))
        → Malformed bad
        → reports_from parse_float report_type (λ _. day) i (xs ++ (bad ∷ ys))
          ≡ reports_from parse_float report_type (λ _. day) i (xs ++ ys)
    unfolding reports_from
    reports_from-Malformed i [] bad ys h =
        rw (report_of-Malformed day bad h) (reports_from-index (suc i) i ys)
    reports_from-Malformed i (x ∷ xs) bad ys h =
        ap (cons_option parse_float report_type (report_of parse_float report_type day x))
          (reports_from-Malformed (suc i) xs bad ys h)

  parse_csv_reports-records :
      (read_csv : Bytes → Option (List (List Bytes))) (days : ℕ → ℤ) (text : Bytes)
      (records : List (List Bytes))
      → read_csv text ≡ some records
      → parse_csv_reports parse_float report_type read_csv days text
        ≡ some (skip_header parse_float report_type days records)
  unfolding parse_csv_reports
  parse_csv_reports-records read_csv days text records e = ground arith

  -- Of a file whose records are read on one UTC day, a record with fewer than eight fields, or whose
  -- sixth or seventh is no number, costs itself alone: the reports are those of the file without it.
  pub parse_csv_reports-Malformed :
      (read_csv : Bytes → Option (List (List Bytes))) (day : ℤ) (text less : Bytes)
      (header : List Bytes) (xs : List (List Bytes)) (bad : List Bytes) (ys : List (List Bytes))
      → read_csv text ≡ some (header ∷ (xs ++ (bad ∷ ys)))
      → read_csv less ≡ some (header ∷ (xs ++ ys))
      → Malformed bad
      → parse_csv_reports parse_float report_type read_csv (λ _. day) text
        ≡ parse_csv_reports parse_float report_type read_csv (λ _. day) less
  unfolding skip_header
  parse_csv_reports-Malformed read_csv day text less header xs bad ys e f h =
      parse_csv_reports-records read_csv (λ _. day) text (header ∷ (xs ++ (bad ∷ ys))) e
      ∙ ap some (reports_from-Malformed day 1 xs bad ys h)
      ∙ sym (parse_csv_reports-records read_csv (λ _. day) less (header ∷ (xs ++ ys)) f)
