-- ===== src/Spc/Csv.antt =====
-- internal/spc/client.go: parseCSVReports. encoding/csv (which yields the records, or an error) and
-- strconv.ParseFloat are arguments, and so is the start of the UTC day at which a record is read.
pub mod Rows
pub mod Examples
use seestorm_ingest.Base.{
  ℕ, zero, suc, ◌*◌, Option, none, some, List, [], ◌∷◌, length, take, ◌==◌, if◌then◌else◌,
  get_elem?, ◌-◌,
}
use seestorm_ingest.Base.Bytes.{Bytes}
use seestorm_ingest.Base.Int.{ℤ, pos, negsuc, ◌+ℤ◌, ◌*ℤ◌}
use seestorm_ingest.Strings.{trim_space}
use seestorm_ingest.Duration.{second}
use seestorm_ingest.Retry.{atoi}
use seestorm_ingest.Float.{Float64}
use seestorm_ingest.Spc.Report.{StormReport}

-- The zero time.Time: the first instant of the year 1.
abbrev zero_time : ℤ
zero_time = negsuc (62_135_596_800 * second - 1)

abbrev or_zero : Option ℤ → ℤ
or_zero none = pos 0
or_zero (some n) = n

-- time.Date of the day with this hour and minute, which may be beyond 23 and 59, or negative.
abbrev at_clock : ℤ → ℤ → ℤ → ℤ
at_clock day hour min = day +ℤ hour *ℤ pos (3600 * second) +ℤ min *ℤ pos (60 * second)

-- HHMM; any other length leaves the zero time.
unfoldable pub report_time : ℤ → Bytes → ℤ
report_time day (a ∷ b ∷ c ∷ d ∷ []) =
    at_clock day (or_zero (atoi (a ∷ b ∷ []))) (or_zero (atoi (c ∷ d ∷ [])))
report_time day _ = zero_time

module _ (parse_float : Bytes → Option Float64) (report_type : Bytes) where
  -- One record after the header; `none` is `continue`.
  unfoldable pub report_of : ℤ → List Bytes → Option StormReport
  unfolding report_time
  report_of day (f0 ∷ f1 ∷ f2 ∷ f3 ∷ f4 ∷ f5 ∷ f6 ∷ f7 ∷ more) =
      elim (parse_float (trim_space f5)) [
        | none ↦ none
        | some lat ↦ elim (parse_float (trim_space f6)) [
          | none ↦ none
          | some lon ↦ some (record {
            time = report_time day (trim_space f0);
            magnitude = trim_space f1;
            location = trim_space f2;
            county = trim_space f3;
            state = trim_space f4;
            lat = lat;
            lon = lon;
            comments = trim_space f7;
            type = report_type;
          })
        ]
      ]
  report_of day _ = none

  abbrev pub cons_option : Option StormReport → List StormReport → List StormReport
  cons_option none rs = rs
  cons_option (some r) rs = r ∷ rs

  -- The loop after the header; `days i` is the day's start when record i is read.
  unfoldable pub reports_from : (ℕ → ℤ) → ℕ → List (List Bytes) → List StormReport
  unfolding report_of
  reports_from days i [] = []
  reports_from days i (row ∷ rows) =
      cons_option (report_of (days i) row) (reports_from days (suc i) rows)

  unfoldable pub skip_header : (ℕ → ℤ) → List (List Bytes) → List StormReport
  unfolding reports_from
  skip_header days [] = []
  skip_header days (header ∷ rows) = reports_from days 1 rows

  -- `none` is the error.
  unfoldable pub parse_csv_reports :
      (Bytes → Option (List (List Bytes))) → (ℕ → ℤ) → Bytes → Option (List StormReport)
  unfolding skip_header
  parse_csv_reports read_csv days text = elim (read_csv text) [
    | none ↦ none
    | some records ↦ some (skip_header days records)
  ]
