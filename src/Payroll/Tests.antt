-- ===== src/Payroll/Tests.antt =====
-- Payroll files read, and the theorems at inputs that meet their hypotheses.
use core_flow.Prelude.{
  ◌+◌, ◌-◌, ◌&&◌, ◌≡◌, refl, true, List, [], ◌∷◌, map, filter, leb, if◌then◌else◌,
}
use core_flow.Prelude.Text.{codes}
use core_flow.Payroll.Reader.{Text, is_written, parse_csv_text}
use core_flow.Payroll.Printer.{print_csv, parse_csv_text-print_csv}
use core_flow.Payroll.Checks.{supported_assets, ParseOptions, CsvParseResult}
use core_flow.Payroll.Import.{Casing, parse_payroll_csv}
use core_flow.Payroll.Accepted.{Accepted, parse_payroll_csv-Accepted}

-- The case mappings of ASCII.
abbrev ascii : Casing
ascii = record {
  to_upper = λ s. map (λ c. if leb 97 c && leb c 122 then c - 32 else c) s;
  to_lower = λ s. map (λ c. if leb 65 c && leb c 90 then c + 32 else c) s;
}

abbrev options : ParseOptions
options = record { reject_duplicate_recipients = true; supported_assets = supported_assets }

-- A file with a blank line, a row that is right and one whose period is not a real date.
abbrev file : Text
file =
    codes
      "recipient,Amount,asset,hours,rate,period_start,period_end\n\nGAAAAAAAAAAAAAAAAAAAAAAAAAAAAAAAAAAAAAAAAAAAAAAAAAAAAAAA,\"$1,400.50 usdc\",usdc,2,700.25,2026-01-01,2026-01-31\nGBAAAAAAAAAAAAAAAAAAAAAAAAAAAAAAAAAAAAAAAAAAAAAAAAAAAAAA,\"12,50\",XLM,1,1250,2026-02-30,2026-03-01\n"

abbrev outcome : CsvParseResult
outcome = parse_payroll_csv ascii options file

parse_payroll_csv-Accepted_example :
    Accepted ascii options (parse_csv_text file) (parse_payroll_csv ascii options file)
parse_payroll_csv-Accepted_example = parse_payroll_csv-Accepted ascii options file

-- Fields with commas, quotes and line ends of their own.
abbrev table : List (List Text)
table = (codes "a,b" ∷ codes "say \"hi\"" ∷ []) ∷ ([] ∷ codes " " ∷ []) ∷ (codes "c\nd" ∷ []) ∷ []

parse_csv_text-print_csv_example : parse_csv_text (print_csv table) ≡ filter is_written table
parse_csv_text-print_csv_example = parse_csv_text-print_csv table (refl, (refl, (refl, tt)))
