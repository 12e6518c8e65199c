-- ===== src/Payroll/Accepted.antt =====
-- What a payroll file yields: rows that can be paid, none of them dropped in silence, and totals
-- that are their sums.
use core_flow.Prelude.{
  ℕ, suc, ◌≤◌, ◌≡◌, refl, sym, inl, inr, true, false, List, [], ◌∷◌, ◌++◌, nat_eq, All, length, map,
  ltb, Bool-cases, arith,
}
use mathlib.Core.Path.{subst}
use mathlib.Core.List.{append-nil, append_assoc}
use core_flow.Prelude.Text.{trim}
use core_flow.Payroll.Reader.{Text, is_nil, parse_csv_text}
use core_flow.Payroll.Fields.{strip_control_chars, CsvIssue}
use core_flow.Payroll.Checks.{
  required_columns, missing_columns, duplicate_columns, text_eq, CsvParseResult, ParseOptions,
}
use core_flow.Payroll.Import.{
  Casing, Import, allowed_assets, import_row, import_rows, stopped, import_data, import_table,
  utf8_length, parse_payroll_csv,
}
use core_flow.Payroll.Payable.{IsPayable, nil_parts}
use core_flow.Payroll.Rows.{Distinct, sum_of, total_of}
use core_flow.Payroll.Imported.{recipient_of, recipients_of, Imported, import_row-Imported}

-- The columns that the first row of a file names, and the rows below it.
abbrev pub header_of : Casing → List (List Text) → List Text
header_of casing [] = []
header_of casing (first ∷ below) = map (λ h. casing.to_lower (trim (strip_control_chars h))) first

abbrev pub data_rows : List (List Text) → List (List Text)
data_rows [] = []
data_rows (first ∷ below) = below

-- What a payroll file with this table yields.
pub record Accepted (casing : Casing) (opts : ParseOptions) (table : List (List Text))
    (r : CsvParseResult) : Type 0 where
  pub payable : All (λ p. IsPayable (allowed_assets casing opts) p) r.rows
  pub distinct : opts.reject_duplicate_recipients ≡ true → Distinct r.rows
  pub bounded : (length r.rows ≤ length (data_rows table)) × (length r.rows ≤ 100)
  pub silent :
      is_nil r.issues ≡ true
      → (recipients_of r.rows ≡ map (recipient_of (header_of casing table)) (data_rows table))
        × (r.row_count ≡ length (data_rows table))
  pub summed : (key : Text) → total_of key r.totals_by_asset ≡ sum_of key r.rows

module _ (casing : Casing) (opts : ParseOptions) where
  import_rows-Imported :
      (header : List Text) (line : ℕ) (seen table : List (List Text)) (s : Import)
      → Imported opts.reject_duplicate_recipients (allowed_assets casing opts) header seen s
      → Imported opts.reject_duplicate_recipients
          (allowed_assets casing opts)
          header
          (seen ++ table)
          (import_rows casing opts header line table s)
  unfolding import_rows
  import_rows-Imported header line seen [] s h =
      subst (λ k. Imported opts.reject_duplicate_recipients (allowed_assets casing opts) header k s)
        (sym (append-nil seen)) h
  import_rows-Imported header line seen (raw ∷ rest) s h =
      let next =
        import_rows-Imported header (suc line) (seen ++ raw ∷ []) rest
          (import_row casing opts header raw line s)
          (import_row-Imported casing opts header raw line seen s h) in
      subst
        (λ k.
          Imported opts.reject_duplicate_recipients (allowed_assets casing opts) header k
            (import_rows casing opts header line (raw ∷ rest) s))
        (append_assoc seen (raw ∷ []) rest) next

  stopped-Accepted :
      (issues more : List CsvIssue) (count : ℕ) (table : List (List Text))
      → is_nil more ≡ false
      → Accepted casing opts table (stopped casing opts (issues ++ more) count)
  unfolding sum_of
  stopped-Accepted issues more count table some_more = record {
    payable = tt;
    distinct = λ h. tt;
    bounded = (omega arith, omega arith);
    silent = λ h. (let last = (nil_parts issues more h).1 in absurd (ground arith));
    summed = λ key. refl;
  }

  import_data-Accepted :
      (first : List Text) (issues : List CsvIssue) (below : List (List Text))
      → ltb 100 (length below) ≡ false
      → Accepted casing opts
          (first ∷ below)
          (import_data casing opts (header_of casing (first ∷ below)) issues below)
  unfolding import_data sum_of
  import_data-Accepted first issues below few =
      let header = header_of casing (first ∷ below) in
      let start : Import = record {
        issues = issues;
        warnings = [];
        rows = [];
        recipients = [];
        totals = [];
      } in
      let done = import_rows-Imported header 2 [] below start (record {
        payable = tt;
        distinct = λ h. tt;
        covered = tt;
        counted = omega arith;
        silent = λ h. refl;
        summed = λ key. refl;
      }) in
      record {
        payable = done.payable;
        distinct = done.distinct;
        bounded = (let c = done.counted in (omega arith, ground arith));
        silent = λ h. (done.silent h, refl);
        summed = done.summed;
      }

  import_table-Accepted :
      (table : List (List Text)) → Accepted casing opts table (import_table casing opts table)
  unfolding import_table
  import_table-Accepted [] = stopped-Accepted [] _ 0 [] refl
  import_table-Accepted (first ∷ below) =
      let table = first ∷ below in
      let header = header_of casing table in
      let missing = missing_columns header required_columns in
      elim (Bool-cases (is_nil missing)) [
        | inr lacks ↦
            rw lacks (stopped-Accepted (duplicate_columns [] header) missing 0 table lacks)
        | inl complete ↦ rw complete (elim (Bool-cases (is_nil below)) [
          | inl empty ↦ rw empty (stopped-Accepted (duplicate_columns [] header) _ 0 table refl)
          | inr rows ↦ rw rows (elim (Bool-cases (ltb 100 (length below))) [
            | inl many ↦
                rw many (stopped-Accepted (duplicate_columns [] header) _ (length below) table refl)
            | inr few ↦ rw few (import_data-Accepted first (duplicate_columns [] header) below few)
          ])
        ])
      ]

-- Every row of a payroll file that is imported can be paid: its recipient is an address, its asset
-- one of the deployment, its amount, rate and hours are positive, hours times rate is the amount,
-- and its period is not empty. Where duplicates are refused, no two rows have one recipient. There
-- are at most 100 rows, and no more than the rows that the text has below its header; where no
-- issue is reported their recipients are those that the rows below the header name, row for row,
-- and the reported number of rows is theirs. The total of each asset is the sum of its rows.
pub parse_payroll_csv-Accepted :
    (casing : Casing) (opts : ParseOptions) (text : Text)
    → Accepted casing opts (parse_csv_text text) (parse_payroll_csv casing opts text)
unfolding parse_payroll_csv
parse_payroll_csv-Accepted casing opts text = elim (Bool-cases (ltb 1000000 (utf8_length text))) [
  | inl large ↦ rw large (stopped-Accepted casing opts [] _ 0 (parse_csv_text text) refl)
  | inr fits ↦ rw fits (import_table-Accepted casing opts (parse_csv_text text))
]
