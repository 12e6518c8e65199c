-- ===== src/Payroll/Import.antt =====
-- `parsePayrollCsv` and `summarizeParse`, src/lib/payroll/csv.ts. The case mappings of Unicode are
-- parameters.
use core_flow.Prelude.{
  ℕ, suc, ◌+◌, Bool, false, ◌&&◌, not, List, [], ◌∷◌, ◌++◌, map, Option, none, some, ◌==◌, nat_eq,
  leb, ltb, length, if◌then◌else◌,
}
use core_flow.Prelude.Int.{ℤ, pos, ◌+ℤ◌, int_eq}
use core_flow.Prelude.Text.{trim}
use core_flow.Money.{sac_decimals, format_amount, default_options}
use core_flow.Payroll.Reader.{Text, head?, is_nil, parse_csv_text}
use core_flow.Payroll.Fields.{
  file_empty, file_too_large, too_many_rows, wrong_field_count, mixed_assets, no_rows, CsvIssue,
  Outcome, strip_control_chars, parse_money_field, parse_hours, parse_date_field,
}
use core_flow.Payroll.Checks.{
  max_csv_bytes, max_rows, required_columns, optional_columns, text_eq, ParsedPayrollRow, Totals,
  CsvParseResult, ParseOptions, whole_file, duplicate_columns, missing_columns, cell, long_fields,
  check_recipient, check_asset, check_hours_rate, check_period, Checks, issues_of, row_ok, row_of,
}

abbrev is_lead : ℕ → Bool
is_lead c = leb 0xd800 c && leb c 0xdbff

abbrev is_pair : ℕ → Option ℕ → Bool
is_pair c none = false
is_pair c (some d) = is_lead c && leb 0xdc00 d && leb d 0xdfff

abbrev width : ℕ → Option ℕ → ℕ
width c next = if ltb c 0x80 then 1 else if ltb c 0x800 then 2 else if is_pair c next then 4 else 3

abbrev utf8_from : (second : Bool) → Text → ℕ
utf8_from second [] = 0
utf8_from second (c ∷ s) =
    (if second then 0 else width c (head? s)) + utf8_from (not second && is_pair c (head? s)) s

-- `Buffer.byteLength(text, 'utf8')`
unfoldable pub utf8_length : Text → ℕ
utf8_length text = utf8_from false text

-- The case mappings of Unicode.
pub record Casing : Type 0 where
  pub to_upper : Text → Text
  pub to_lower : Text → Text

pub record Import : Type 0 where
  pub issues : List CsvIssue
  pub warnings : List CsvIssue
  pub rows : List ParsedPayrollRow
  pub recipients : List Text
  pub totals : Totals

-- `totalsByAsset[key] = (totalsByAsset[key] ?? 0n) + amount`
unfoldable pub add_total : Text → ℤ → Totals → Totals
add_total key units [] = (key, pos 0 +ℤ units) ∷ []
add_total key units ((k, total) ∷ rest) =
    let later = add_total key units rest in
    if k == key then (k, total +ℤ units) ∷ rest else (k, total) ∷ later

module _ (casing : Casing) (opts : ParseOptions) where
  abbrev pub allowed_assets : List Text
  allowed_assets = map casing.to_upper opts.supported_assets

  unfoldable pub check_row : (header raw : List Text) → ℕ → List Text → Checks
  check_row header raw line recipients =
      let at = cell header raw in
      let amount = parse_money_field (at "amount") line "amount" in
      let rate = parse_money_field (at "rate") line "rate" in
      let hours = parse_hours (at "hours") line in
      let start = parse_date_field (at "period_start") line "period_start" in
      let end = parse_date_field (at "period_end") line "period_end" in
      record {
        long = long_fields at line (required_columns ++ optional_columns);
        recipient =
            check_recipient opts.reject_duplicate_recipients recipients (trim (at "recipient"))
              line;
        asset = check_asset allowed_assets (casing.to_upper (trim (at "asset"))) line;
        amount = amount;
        rate = rate;
        hours = hours;
        justified = check_hours_rate amount.value rate.value hours.value line;
        period_start = start;
        period_end = end;
        period = check_period start.value end.value line;
      }

  abbrev pub recipients_after : Outcome Text → List Text → List Text
  recipients_after o recipients = elim o.value [
    | none ↦ recipients
    | some recipient ↦ recipient ∷ recipients
  ]

  abbrev pub field_count : (header raw : List Text) → ℕ → List CsvIssue
  field_count header raw line =
      if length raw == length header then [] else whole_file line wrong_field_count ∷ []

  abbrev pub keep_row : Option ParsedPayrollRow → Import → Import
  keep_row none s = s
  keep_row (some row) s = record s {
    rows = s.rows ++ row ∷ [];
    totals = add_total row.asset row.amount_base_units s.totals;
  }

  unfoldable pub import_row : (header raw : List Text) → ℕ → Import → Import
  import_row header raw line s =
      let c = check_row header raw line s.recipients in
      let noted = record s {
        warnings = s.warnings ++ field_count header raw line;
        issues = s.issues ++ issues_of c;
        recipients = recipients_after c.recipient s.recipients;
      } in
      if row_ok c
      then keep_row (row_of line (trim (cell header raw "reference")) c) noted
      else noted

  unfoldable pub import_rows : List Text → ℕ → List (List Text) → Import → Import
  import_rows header line [] s = s
  import_rows header line (raw ∷ rest) s =
      import_rows header (suc line) rest (import_row header raw line s)

  abbrev pub stopped : List CsvIssue → ℕ → CsvParseResult
  stopped issues count = record {
    rows = [];
    issues = issues;
    warnings = [];
    totals_by_asset = [];
    row_count = count;
  }

  abbrev pub mixed : Totals → List CsvIssue
  mixed totals = if ltb 1 (length totals) then whole_file 0 mixed_assets ∷ [] else []

  unfoldable pub import_data : List Text → List CsvIssue → List (List Text) → CsvParseResult
  import_data header issues data_rows =
      let s =
        import_rows header 2 data_rows
          (record { issues = issues; warnings = []; rows = []; recipients = []; totals = [] }) in
      record {
        rows = s.rows;
        issues = s.issues;
        warnings = s.warnings ++ mixed s.totals;
        totals_by_asset = s.totals;
        row_count = length data_rows;
      }

  unfoldable pub import_table : List (List Text) → CsvParseResult
  import_table [] = stopped (whole_file 0 file_empty ∷ []) 0
  import_table (first ∷ data_rows) =
      let header = map (λ h. casing.to_lower (trim (strip_control_chars h))) first in
      let duplicates = duplicate_columns [] header in
      let missing = missing_columns header required_columns in
      if not (is_nil missing)
      then stopped (duplicates ++ missing) 0
      else if is_nil data_rows
      then stopped (duplicates ++ whole_file 1 no_rows ∷ []) 0
      else if ltb max_rows (length data_rows)
      then stopped (duplicates ++ whole_file 0 too_many_rows ∷ []) (length data_rows)
      else import_data header duplicates data_rows

  unfoldable pub parse_payroll_csv : Text → CsvParseResult
  parse_payroll_csv text =
      if ltb max_csv_bytes (utf8_length text)
      then stopped (whole_file 0 file_too_large ∷ []) 0
      else import_table (parse_csv_text text)

pub record Summary : Type 0 where
  pub recipient_count : ℕ
  pub total_hours : ℤ
  pub totals : List (Text × Text)
  pub has_blocking_issues : Bool

abbrev pub hours_from : ℤ → List ParsedPayrollRow → ℤ
hours_from sum [] = sum
hours_from sum (r ∷ rest) = hours_from (sum +ℤ r.hours) rest

unfoldable pub summarize_parse : CsvParseResult → Summary
summarize_parse result = record {
  recipient_count = length result.rows;
  total_hours = hours_from (pos 0) result.rows;
  totals = map (λ t. (t.0, format_amount t.1 sac_decimals default_options)) result.totals_by_asset;
  has_blocking_issues = not (is_nil result.issues);
}
