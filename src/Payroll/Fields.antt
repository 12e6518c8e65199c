-- ===== src/Payroll/Fields.antt =====
-- The fields of a payroll row, src/lib/payroll/csv.ts: amounts, hours, dates, and the texts that
-- are kept. What a check pushes on the list of issues is part of its outcome, without its message.
use core_flow.Prelude.{
  ℕ, zero, suc, ◌+◌, ◌-◌, ◌*◌, ◌/◌, ◌%◌, Bool, true, false, ◌&&◌, ◌||◌, not, String, List, [], ◌∷◌,
  Option, none, some, ◌==◌, nat_eq, option_eq, leb, any, all, filter, if◌then◌else◌,
}
use core_flow.Prelude.Int.{ℤ, pos, negate, ◌+ℤ◌, leb_ℤ}
use core_flow.Prelude.Text.{codes, is_space, trim}
use core_flow.Money.{
  sac_decimals, not_an_amount, too_precise, ParsedAmount, amount, rejected, parse_amount, is_digit,
  is_digits, from_decimal,
}
use core_flow.Payroll.Reader.{Text, is_nil}

pub data CsvIssueCode : Type 0 where
  file_empty file_too_large too_many_rows missing_column duplicate_column field_too_long
        wrong_field_count invalid_address invalid_amount amount_not_positive amount_precision
        ambiguous_number invalid_hours hours_rate_mismatch fractional_hours unsupported_asset
        mixed_assets duplicate_recipient invalid_period period_required no_rows :
      CsvIssueCode

pub record CsvIssue : Type 0 where
  pub line : ℕ
  pub column : Option Text
  pub code : CsvIssueCode

-- The value that a check leaves, whether it let the row pass, and the issues it pushed.
pub record Outcome (A : Type 0) : Type 0 where
  pub value : Option A
  pub passed : Bool
  pub issues : List CsvIssue

abbrev pub accept : {A : Type 0} → A → Outcome A
accept a = record { value = some a; passed = true; issues = [] }

abbrev pub refuse : {A : Type 0} → ℕ → String → CsvIssueCode → Outcome A
refuse line column code = record {
  value = none;
  passed = false;
  issues = record { line = line; column = some (codes column); code = code } ∷ [];
}

-- `sanitizeForSpreadsheet`
unfoldable pub sanitize_for_spreadsheet : Text → Text
sanitize_for_spreadsheet [] = []
sanitize_for_spreadsheet (c ∷ s) =
    if c == 61 || c == 43 || c == 45 || c == 64 || c == 9 || c == 13 then 39 ∷ c ∷ s else c ∷ s

abbrev pub is_control : ℕ → Bool
is_control c = leb c 8 || c == 11 || c == 12 || (leb 14 c && leb c 31) || c == 127

unfoldable pub contains_control_chars : Text → Bool
contains_control_chars s = any is_control s

unfoldable pub strip_control_chars : Text → Text
strip_control_chars s = filter (λ c. not (is_control c)) s

-- ── Amounts ──

abbrev pub ascii_upper : ℕ → ℕ
ascii_upper c = if leb 97 c && leb c 122 then c - 32 else c

-- Whether a text begins with a word, in either case.
abbrev pub begins : Text → Text → Bool
begins [] s = true
begins (w ∷ ws) [] = false
begins (w ∷ ws) (c ∷ s) = ascii_upper c == w && begins ws s

-- What `[$\s]|USDC|XLM` takes at the beginning of a text.
abbrev pub mark : Text → Option ℕ
mark [] = none
mark (c ∷ s) =
    if c == 36 || is_space c
    then some 1
    else if begins (codes "USDC") (c ∷ s)
    then some 4
    else if begins (codes "XLM") (c ∷ s)
    then some 3
    else none

abbrev pub size_of : Option ℕ → ℕ
size_of none = 1
size_of (some n) = n

unfoldable pub strip_marks : ℕ → Text → Text
strip_marks n [] = []
strip_marks (suc n) (c ∷ s) = strip_marks n s
strip_marks zero (c ∷ s) =
    let rest = strip_marks (size_of (mark (c ∷ s)) - 1) s in
    if mark (c ∷ s) == none then c ∷ rest else rest

abbrev pub ends_with : ℕ → Text → Bool
ends_with d [] = false
ends_with d (c ∷ []) = c == d
ends_with d (c ∷ b ∷ s) = ends_with d (b ∷ s)

abbrev pub begins_with : ℕ → Text → Bool
begins_with d [] = false
begins_with d (c ∷ s) = c == d

abbrev pub judge_amount : ℕ → String → ParsedAmount → Outcome ℤ
judge_amount line column (amount units) =
    if leb_ℤ units (pos 0) then refuse line column amount_not_positive else accept units
judge_amount line column (rejected too_precise) = refuse line column amount_precision
judge_amount line column (rejected not_an_amount) = refuse line column invalid_amount

unfoldable pub parse_money_field : Text → ℕ → String → Outcome ℤ
parse_money_field raw line column =
    let value = trim raw in
    if is_nil value
    then refuse line column invalid_amount
    else if any (λ c. c == 101 || c == 69) value
    then refuse line column ambiguous_number
    else if begins_with 40 value || ends_with 41 value
    then refuse line column amount_not_positive
    else judge_amount line column (parse_amount (strip_marks 0 value) sac_decimals)

-- The hours of a row; zero is refused, but kept for the checks that follow.
unfoldable pub parse_hours : Text → ℕ → Outcome ℤ
parse_hours cell line =
    let raw = trim cell in
    if is_nil raw
    then refuse line "hours" invalid_hours
    else if any (λ c. c == 46 || c == 44) raw
    then refuse line "hours" fractional_hours
    else if not (is_digits raw)
    then refuse line "hours" invalid_hours
    else if from_decimal raw == 0
    then record (refuse line "hours" invalid_hours) { value = some (pos 0) }
    else accept (pos (from_decimal raw))

-- ── Dates ──

-- `^\d{4}-\d{2}-\d{2}$`: the year, the month and the day.
unfoldable pub iso_parts : Text → Option (ℕ × ℕ × ℕ)
iso_parts (a ∷ b ∷ c ∷ d ∷ h ∷ m ∷ n ∷ k ∷ x ∷ y ∷ []) =
    if all is_digit (a ∷ b ∷ c ∷ d ∷ m ∷ n ∷ x ∷ y ∷ []) && h == 45 && k == 45
    then some
        (from_decimal (a ∷ b ∷ c ∷ d ∷ []), from_decimal (m ∷ n ∷ []), from_decimal (x ∷ y ∷ []))
    else none
iso_parts _ = none

abbrev pub is_leap : ℕ → Bool
is_leap y = (y % 4 == 0 && not (y % 100 == 0)) || y % 400 == 0

abbrev pub days_in_month : ℕ → ℕ → ℕ
days_in_month y m =
    if m == 2
    then (if is_leap y then 29 else 28)
    else if m == 4 || m == 6 || m == 9 || m == 11
    then 30
    else 31

abbrev pub is_real_date : ℕ × ℕ × ℕ → Bool
is_real_date (y, m, d) = leb 1 m && leb m 12 && leb 1 d && leb d (days_in_month y m)

-- The days of the months before month `m`.
unfoldable pub days_before : ℕ → ℕ → ℕ
days_before y zero = 0
days_before y (suc zero) = 0
days_before y (suc (suc m)) = days_before y (suc m) + days_in_month y (suc m)

-- The days from the first of January of the year 0 to that of year `y`.
unfoldable pub days_of_years : ℕ → ℕ
days_of_years y = 365 * y + (y + 3) / 4 - (y + 99) / 100 + (y + 399) / 400

-- `date.getTime()`: milliseconds from 1970, which is 719528 days after the year 0 begins.
unfoldable pub time_of : ℕ × ℕ × ℕ → ℤ
time_of (y, m, d) =
    pos (86400000 * (days_of_years y + days_before y m + (d - 1)))
    +ℤ negate (pos (86400000 * 719528))

unfoldable pub parse_date_field : Text → ℕ → String → Outcome ℤ
parse_date_field raw line column =
    let value = trim raw in
    if is_nil value then refuse line column period_required else elim (iso_parts value) [
      | none ↦ refuse line column invalid_period
      | some date ↦
          if is_real_date date then accept (time_of date) else refuse line column invalid_period
    ]
