-- ===== src/Money/Amount.antt =====
-- `parseAmount`, `formatAmount` and the other functions of src/lib/money.ts. A text is the list of
-- its code units.
use core_flow.Prelude.{
  ℕ, zero, suc, ◌+◌, ◌-◌, ◌*◌, ◌/◌, ◌%◌, ◌^◌, Bool, true, false, ◌&&◌, not, List, [], ◌∷◌, ◌++◌,
  Option, none, some, ◌==◌, nat_eq, leb, ltb, all, filter, length, if◌then◌else◌,
}
use core_flow.Prelude.Int.{ℤ, pos, negsuc, ◌+ℤ◌, negate}
use core_flow.Prelude.Text.{trim}

abbrev pub Text : Type 0
Text = List ℕ

abbrev pub sac_decimals : ℕ
sac_decimals = 7

abbrev pub is_digit : ℕ → Bool
is_digit c = leb 48 c && leb c 57

abbrev pub is_comma : ℕ → Bool
is_comma c = c == 44

-- `\d+`
unfoldable pub is_digits : Text → Bool
is_digits [] = false
is_digits (c ∷ s) = all is_digit (c ∷ s)

abbrev pub is_minus : Text → Bool
is_minus [] = false
is_minus (c ∷ s) = c == 45

abbrev pub unsigned : Text → Text
unsigned [] = []
unsigned (c ∷ s) = if c == 45 then s else c ∷ s

-- `split('.')`: what is before the first point, and what follows it.
unfoldable pub split_point : Text → Text × Option Text
split_point [] = ([], none)
split_point (c ∷ s) =
    let rest = split_point s in if c == 46 then ([], some s) else (c ∷ rest.0, rest.1)

-- What `DECIMAL_RE` asks of the two parts of an unsigned amount.
abbrev pub is_decimal : Text × Option Text → Bool
is_decimal (whole, none) = is_digits whole
is_decimal (whole, some fraction) = is_digits whole && is_digits fraction

abbrev pub fraction_of : Text × Option Text → Text
fraction_of (whole, none) = []
fraction_of (whole, some fraction) = fraction

-- `'0'.repeat(n)`
unfoldable pub nought : ℕ → Text
nought zero = []
nought (suc n) = 48 ∷ nought n

unfoldable pub pad_end : ℕ → Text → Text
pad_end n s = s ++ nought (n - length s)

unfoldable pub pad_start : ℕ → Text → Text
pad_start n s = nought (n - length s) ++ s

abbrev pub from_digits : ℕ → Text → ℕ
from_digits acc [] = acc
from_digits acc (c ∷ s) = from_digits (acc * 10 + (c - 48)) s

-- `BigInt(s)` of a text of digits.
unfoldable pub from_decimal : Text → ℕ
from_decimal s = from_digits 0 s

pub data MoneyParseError : Type 0 where
  not_an_amount too_precise : MoneyParseError

pub data ParsedAmount : Type 0 where
  amount : ℤ → ParsedAmount
  rejected : MoneyParseError → ParsedAmount

abbrev pub signed : Bool → ℕ → ℤ
signed negative units = if negative then negate (pos units) else pos units

abbrev pub parse_parts : Bool → Text × Option Text → ℕ → ParsedAmount
parse_parts negative parts decimals =
    if not (is_decimal parts)
    then rejected not_an_amount
    else if ltb decimals (length (fraction_of parts))
    then rejected too_precise
    else amount (signed negative (from_decimal (parts.0 ++ pad_end decimals (fraction_of parts))))

unfoldable pub parse_amount : Text → ℕ → ParsedAmount
parse_amount input decimals =
    let raw = filter (λ c. not (is_comma c)) (trim input) in
    parse_parts (is_minus raw) (split_point (unsigned raw)) decimals

-- The digits of a number; the fuel is more than the number.
unfoldable pub digits : ℕ → ℕ → Text
digits zero n = []
digits (suc fuel) n = elim (n / 10) [
  | zero ↦ (48 + n % 10) ∷ []
  | suc m ↦ digits fuel (suc m) ++ (48 + n % 10) ∷ []
]

-- `n.toString()`
unfoldable pub to_decimal : ℕ → Text
to_decimal n = digits (suc n) n

abbrev pub cut : ℕ → Text → Text
cut c [] = if c == 48 then [] else c ∷ []
cut c (d ∷ rest) = c ∷ d ∷ rest

-- `replace(/0+$/, '')`
unfoldable pub trim_noughts : Text → Text
trim_noughts [] = []
trim_noughts (c ∷ s) = cut c (trim_noughts s)

pub record FormatOptions : Type 0 where
  pub trim_trailing_zeros : Bool
  pub min_fraction_digits : ℕ

abbrev pub default_options : FormatOptions
default_options = record { trim_trailing_zeros = true; min_fraction_digits = 2 }

abbrev pub is_negative : ℤ → Bool
is_negative (pos n) = false
is_negative (negsuc n) = true

abbrev pub magnitude : ℤ → ℕ
magnitude (pos n) = n
magnitude (negsuc n) = suc n

unfoldable pub fraction_text : FormatOptions → ℕ → ℕ → Text
fraction_text opts decimals rest =
    let fraction = pad_start decimals (to_decimal rest) in
    pad_end opts.min_fraction_digits
      (if opts.trim_trailing_zeros then trim_noughts fraction else fraction)

-- `whole.fraction`, or the whole alone.
abbrev pub with_fraction : Text → Text → Text
with_fraction whole [] = whole
with_fraction whole (c ∷ s) = whole ++ 46 ∷ c ∷ s

abbrev pub with_sign : Bool → Text → Text
with_sign negative body = if negative then 45 ∷ body else body

unfoldable pub format_amount : ℤ → ℕ → FormatOptions → Text
format_amount units decimals opts =
    let divisor = 10 ^ decimals in
    let whole = to_decimal (magnitude units / divisor) in
    with_sign (is_negative units)
      (with_fraction whole (fraction_text opts decimals (magnitude units % divisor)))

-- A comma goes where a positive multiple of three digits follows.
unfoldable pub grouped : Text → Text
grouped [] = []
grouped (c ∷ s) =
    let rest = grouped s in c ∷ (if ltb 0 (length s) && length s % 3 == 0 then 44 ∷ rest else rest)

unfoldable pub format_amount_with_separators : ℤ → ℕ → FormatOptions → Text
format_amount_with_separators units decimals opts =
    let s = format_amount units decimals opts in
    let parts = split_point (unsigned s) in
    with_sign (is_minus s) (with_fraction (grouped parts.0) (fraction_of parts))

abbrev pub sum_from : ℤ → List ℤ → ℤ
sum_from acc [] = acc
sum_from acc (a ∷ rest) = sum_from (acc +ℤ a) rest

unfoldable pub sum_amounts : List ℤ → ℤ
sum_amounts amounts = sum_from (pos 0) amounts

-- The hours that an amount pays for at a rate, if they are whole.
unfoldable pub hours_for_amount : ℤ → ℤ → Option ℤ
hours_for_amount units (negsuc r) = none
hours_for_amount units (pos zero) = none
hours_for_amount units (pos (suc r)) =
    if magnitude units % suc r == 0
    then some (signed (is_negative units) (magnitude units / suc r))
    else none
