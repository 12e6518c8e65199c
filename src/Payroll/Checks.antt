-- ===== src/Payroll/Checks.antt =====
-- The header and the checks of a row, in `parsePayrollCsv` of src/lib/payroll/csv.ts.
use core_flow.Prelude.{
  ℕ, zero, suc, Bool, false, ◌&&◌, ◌||◌, not, String, List, [], ◌∷◌, ◌++◌, Option, none, some, ◌==◌,
  nat_eq, Eq, leb, ltb, all, length, contains, if◌then◌else◌, ℕ_discrete,
}
use mathlib.Core.List.{List-discrete}
use core_flow.Prelude.Int.{ℤ, ◌*ℤ◌, leb_ℤ, int_eq}
use core_flow.Prelude.Text.{codes}
use core_flow.Money.{hours_for_amount}
use core_flow.Payroll.Reader.{Text, is_nil}
use core_flow.Payroll.Fields.{
  CsvIssueCode, missing_column, duplicate_column, field_too_long, invalid_address,
  hours_rate_mismatch, unsupported_asset, duplicate_recipient, invalid_period, CsvIssue, Outcome,
  accept, refuse, sanitize_for_spreadsheet, strip_control_chars,
}

abbrev pub max_csv_bytes : ℕ
max_csv_bytes = 1000000

abbrev pub max_rows : ℕ
max_rows = 100

abbrev pub max_field_length : ℕ
max_field_length = 256

abbrev pub required_columns : List String
required_columns =
    "recipient" ∷ "amount" ∷ "asset" ∷ "hours" ∷ "rate" ∷ "period_start" ∷ "period_end" ∷ []

abbrev pub optional_columns : List String
optional_columns = "reference" ∷ []

abbrev pub supported_assets : List Text
supported_assets = codes "USDC" ∷ codes "XLM" ∷ []

unfoldable pub text_discrete : Discrete Text
text_discrete = List-discrete ℕ_discrete

instance abbrev pub text_eq : Eq Text
text_eq = record { dec = text_discrete }

-- `^G[A-Z2-7]{55}$`
unfoldable pub is_stellar_address : Text → Bool
is_stellar_address [] = false
is_stellar_address (c ∷ s) =
    c == 71 && length s == 55 && all (λ d. (leb 65 d && leb d 90) || (leb 50 d && leb d 55)) s

pub record ParsedPayrollRow : Type 0 where
  pub line : ℕ
  pub recipient : Text
  pub asset : Text
  pub amount_base_units : ℤ
  pub rate_base_units : ℤ
  pub hours : ℤ
  pub period_start : ℤ
  pub period_end : ℤ
  pub reference : Option Text

abbrev pub Totals : Type 0
Totals = List (Text × ℤ)

pub record CsvParseResult : Type 0 where
  pub rows : List ParsedPayrollRow
  pub issues : List CsvIssue
  pub warnings : List CsvIssue
  pub totals_by_asset : Totals
  pub row_count : ℕ

pub record ParseOptions : Type 0 where
  pub reject_duplicate_recipients : Bool
  pub supported_assets : List Text

-- ── The header ──

-- `header.indexOf(col)`
unfoldable pub index_of : Text → List Text → Option ℕ
index_of col [] = none
index_of col (h ∷ hs) = if h == col then some 0 else next (index_of col hs)
  where
    next : Option ℕ → Option ℕ
    next none = none
    next (some n) = some (suc n)

abbrev pub whole_file : ℕ → CsvIssueCode → CsvIssue
whole_file line code = record { line = line; column = none; code = code }

unfoldable pub duplicate_columns : List Text → List Text → List CsvIssue
duplicate_columns seen [] = []
duplicate_columns seen (col ∷ rest) =
    (if not (is_nil col) && contains col seen
      then record { line = 1; column = some col; code = duplicate_column } ∷ []
      else [])
    ++ duplicate_columns (col ∷ seen) rest

unfoldable pub missing_columns : List Text → List String → List CsvIssue
missing_columns header [] = []
missing_columns header (col ∷ rest) =
    (if contains (codes col) header
      then []
      else record { line = 1; column = some (codes col); code = missing_column } ∷ [])
    ++ missing_columns header rest

abbrev pub nth : ℕ → List Text → Text
nth n [] = []
nth zero (x ∷ xs) = x
nth (suc n) (x ∷ xs) = nth n xs

-- The field of a row under a column, or nothing.
unfoldable pub cell : List Text → List Text → String → Text
cell header raw col = elim (index_of (codes col) header) [
  | none ↦ []
  | some i ↦ strip_control_chars (nth i raw)
]

-- ── The checks of a row ──

unfoldable pub long_fields : (String → Text) → ℕ → List String → List CsvIssue
long_fields cell line [] = []
long_fields cell line (col ∷ rest) =
    (if ltb max_field_length (length (cell col))
      then record { line = line; column = some (codes col); code = field_too_long } ∷ []
      else [])
    ++ long_fields cell line rest

unfoldable pub check_recipient : Bool → List Text → Text → ℕ → Outcome Text
check_recipient reject recipients recipient line =
    if not (is_stellar_address recipient)
    then refuse line "recipient" invalid_address
    else if reject && contains recipient recipients
    then refuse line "recipient" duplicate_recipient
    else accept recipient

unfoldable pub check_asset : List Text → Text → ℕ → Outcome Text
check_asset allowed asset line =
    if contains asset allowed then accept asset else refuse line "asset" unsupported_asset

abbrev pub pass : Outcome (Unit {0})
pass = accept tt

abbrev pub refuse_row : ℕ → CsvIssueCode → Outcome (Unit {0})
refuse_row line code = record { value = none; passed = false; issues = whole_file line code ∷ [] }

-- What the contract requires: hours times rate is the amount.
unfoldable pub check_hours_rate : Option ℤ → Option ℤ → Option ℤ → ℕ → Outcome (Unit {0})
check_hours_rate (some amount) (some rate) (some hours) line =
    if not (hours *ℤ rate == amount)
    then refuse_row line hours_rate_mismatch
    else elim (hours_for_amount amount rate) [
      | none ↦ refuse_row line hours_rate_mismatch
      | some h ↦ pass
    ]
check_hours_rate _ _ _ line = pass

unfoldable pub check_period : Option ℤ → Option ℤ → ℕ → Outcome (Unit {0})
check_period (some start) (some end) line =
    if leb_ℤ end start then refuse_row line invalid_period else pass
check_period _ _ line = record { value = none; passed = false; issues = [] }

pub record Checks : Type 0 where
  pub long : List CsvIssue
  pub recipient : Outcome Text
  pub asset : Outcome Text
  pub amount : Outcome ℤ
  pub rate : Outcome ℤ
  pub hours : Outcome ℤ
  pub justified : Outcome (Unit {0})
  pub period_start : Outcome ℤ
  pub period_end : Outcome ℤ
  pub period : Outcome (Unit {0})

abbrev pub issues_of : Checks → List CsvIssue
issues_of c =
    c.long ++ c.recipient.issues ++ c.asset.issues ++ c.amount.issues ++ c.rate.issues
    ++ c.hours.issues ++ c.justified.issues ++ c.period_start.issues ++ c.period_end.issues
    ++ c.period.issues

-- `rowOk`
abbrev pub row_ok : Checks → Bool
row_ok c =
    is_nil c.long
    && c.recipient.passed
    && c.asset.passed
    && c.amount.passed
    && c.rate.passed
    && c.hours.passed
    && c.justified.passed
    && c.period.passed

infixl 5 ◌>>=◌
abbrev ◌>>=◌ {ℓ κ} : {A : Type ℓ} {B : Type κ} → Option A → (A → Option B) → Option B
none >>= f = none
some a >>= f = f a

-- The row, where every check has left a value.
unfoldable pub row_of : ℕ → Text → Checks → Option ParsedPayrollRow
row_of line reference c = do
  recipient ← c.recipient.value
  asset ← c.asset.value
  amount ← c.amount.value
  rate ← c.rate.value
  hours ← c.hours.value
  start ← c.period_start.value
  end ← c.period_end.value
  some (record {
    line = line;
    recipient = recipient;
    asset = asset;
    amount_base_units = amount;
    rate_base_units = rate;
    hours = hours;
    period_start = start;
    period_end = end;
    reference = if is_nil reference then none else some (sanitize_for_spreadsheet reference);
  })
