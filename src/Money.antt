-- ===== src/Money.antt =====
-- Exact money, src/lib/money.ts.
pub mod Amount
mod Digits
mod Plain
mod RoundTrip
mod Tests
pub use Amount.{
  Text, sac_decimals, MoneyParseError, not_an_amount, too_precise, ParsedAmount, amount, rejected,
  parse_amount, hours_for_amount, sum_amounts, is_digit, to_decimal, format_amount, FormatOptions,
  default_options,
}
unfoldable pub use Amount.{is_digits, from_decimal}
pub use Digits.{Prints, to_decimal-Prints, leads, to_decimal-leads}
