-- ===== src/Money/Tests.antt =====
-- Amounts printed and read.
use core_flow.Prelude.{◌≡◌, refl, false, ℕ_discrete, arith}
use core_flow.Prelude.Int.{pos, negsuc}
use core_flow.Prelude.Text.{codes, trim}
use core_flow.Money.Amount.{
  amount, parse_amount, split_point, is_digits, from_decimal, pad_end, pad_start, nought,
  format_amount, default_options, to_decimal, digits, fraction_text, trim_noughts,
}
use core_flow.Money.RoundTrip.{parse_amount-format_amount}

separated : parse_amount (codes " 1,250.50 ") 7 ≡ amount (pos 12505000000)
unfolding parse_amount trim split_point is_digits from_decimal pad_end nought ℕ_discrete
separated = refl

-- Two compulsory digits are too many for an asset with one decimal.
over_printed : format_amount (pos 15) 1 default_options ≡ codes "1.50"
unfolding format_amount fraction_text to_decimal digits trim_noughts pad_end pad_start nought
    ℕ_discrete
over_printed = refl

-- An asset without decimals prints a fraction when its noughts are kept.
stray_fraction :
    format_amount (pos 5) 0 (record { trim_trailing_zeros = false; min_fraction_digits = 0 })
    ≡ codes "5.0"
unfolding format_amount fraction_text to_decimal digits trim_noughts pad_end pad_start nought
stray_fraction = refl

parse_amount-format_amount_example :
    parse_amount (format_amount (negsuc 2505000000) 7 default_options) 7
    ≡ amount (negsuc 2505000000)
parse_amount-format_amount_example =
    parse_amount-format_amount (negsuc 2505000000) 7 default_options (omega arith) (omega arith)
