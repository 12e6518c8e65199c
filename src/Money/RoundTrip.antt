-- ===== src/Money/RoundTrip.antt =====
-- An amount that is printed is read back.
use core_flow.Prelude.{
  ℕ, zero, suc, ◌+◌, ◌-◌, ◌*◌, ◌/◌, ◌%◌, ◌^◌, ◌≤◌, ◌<◌, ◌≡◌, refl, sym, ap, ◌∙◌, inl, inr, Bool,
  true, false, [], ◌∷◌, ◌++◌, Option, none, some, nat_eq, ltb, all, length, length-append, arith,
  Bool-cases, ℕ_discrete,
}
use Prim.Native.Nat.pow
use native.Mathlib.Nat.{div-add-mod', mod-lt}
use mathlib.Core.List.{append-nil}
use core_flow.Prelude.Int.{ℤ, pos, negsuc, negate}
use core_flow.Money.Amount.{
  Text, is_digit, is_digits, is_minus, unsigned, split_point, is_decimal, fraction_of, nought,
  pad_end, pad_start, from_digits, from_decimal, amount, signed, parse_parts, parse_amount,
  to_decimal, trim_noughts, FormatOptions, is_negative, magnitude, fraction_text, with_fraction,
  with_sign, format_amount,
}
use core_flow.Money.Digits.{
  all-append, length-nought, all-nought, from_digits-append, from_digits_shift, from_digits-nought,
  Prints, is_digits-all, to_decimal-Prints, trim_noughts_lem, pad_end-pad_end,
}
use core_flow.Money.Plain.{
  is_plain, and_parts, not_mark, filter-plain, plain-append, trim-plain, digits-plain,
  split_point-digits, split_point-whole,
}

-- ── The parts of a printed amount ──

record Printed (decimals rest : ℕ) (f : Text) : Type 0 where
  digital : all is_digit f ≡ true
  short : length f ≤ decimals
  padded : from_digits 0 (pad_end decimals f) ≡ rest
  full : length (pad_end decimals f) ≡ decimals

all-prefix : (xs ys : Text) → all is_digit (xs ++ ys) ≡ true → all is_digit xs ≡ true
all-prefix [] ys h = refl
all-prefix (x ∷ xs) ys h = ground (arith, all-prefix xs ys)

pad_end-digital : (n : ℕ) (f : Text) → all is_digit f ≡ true → all is_digit (pad_end n f) ≡ true
unfolding pad_end
pad_end-digital n f h = all-append f (nought (n - length f)) h (all-nought (n - length f))

short_lem : (low : ℕ) (f : Text) (n : ℕ) → length f ≤ n → low ≤ n → length (pad_end low f) ≤ n
unfolding pad_end
short_lem low f n a b =
    omega (arith, length-append {0} f (nought (low - length f)), length-nought (low - length f))

-- A fraction that is cut and padded again keeps its value.
printed_lem :
    (decimals low rest : ℕ) (s f : Text) (k : ℕ)
    → s ≡ f ++ nought k
    → length s ≡ decimals
    → low ≤ decimals
    → all is_digit s ≡ true
    → from_digits 0 s ≡ rest
    → Printed decimals rest (pad_end low f)
printed_lem decimals low rest s f k e l h d v =
    let size : length f + k ≡ decimals =
      omega (arith, length-append {0} f (nought k), length-nought k, (ap length (sym e) ∙ l)) in
    let same : pad_end decimals (pad_end low f) ≡ s =
      pad_end-pad_end f k low decimals size h ∙ sym e in
    record {
      digital = pad_end-digital low f (all-prefix f (nought k) (ap (all is_digit) (sym e) ∙ d));
      short = short_lem low f decimals (omega arith) h;
      padded = ap (from_digits 0) same ∙ v;
      full = ap length same ∙ l;
    }

no_noughts : (s : Text) → s ≡ s ++ nought 0
unfolding nought
no_noughts s = sym (append-nil s)

start_size : (n : ℕ) (t : Text) → length t ≤ n → length (pad_start n t) ≡ n
unfolding pad_start
start_size n t h =
    omega (arith, length-append {0} (nought (n - length t)) t, length-nought (n - length t))

start_digital : (n : ℕ) (t : Text) → all is_digit t ≡ true → all is_digit (pad_start n t) ≡ true
unfolding pad_start
start_digital n t h = all-append (nought (n - length t)) t (all-nought (n - length t)) h

start_value : (n : ℕ) (t : Text) → from_digits 0 (pad_start n t) ≡ from_digits 0 t
unfolding pad_start
start_value n t =
    from_digits-append 0 (nought (n - length t)) t
    ∙ ap (λ a. from_digits a t) (from_digits-nought (n - length t))

fraction_text-Printed :
    (opts : FormatOptions) (decimals rest : ℕ)
    → 0 < decimals
    → opts.min_fraction_digits ≤ decimals
    → rest < 10 ^ decimals
    → Printed decimals rest (fraction_text opts decimals rest)
unfolding fraction_text
fraction_text-Printed opts decimals rest some_decimals low small =
    let t = to_decimal rest in
    let p = to_decimal-Prints rest in
    let fits = p.short decimals some_decimals small in
    let s = pad_start decimals t in
    let l = start_size decimals t fits in
    let d = start_digital decimals t (is_digits-all t p.digital) in
    let v = start_value decimals t ∙ p.value in
    elim (Bool-cases opts.trim_trailing_zeros) [
      | inl trims ↦
          let (k, e) = trim_noughts_lem s in
          rw trims
            (printed_lem decimals opts.min_fraction_digits rest s (trim_noughts s) k e l low d v)
      | inr keeps ↦
          rw keeps
            (printed_lem decimals opts.min_fraction_digits rest s s 0 (no_noughts s) l low d v)
    ]

parse_parts-decimal :
    (negative : Bool) (parts : Text × Option Text) (decimals units : ℕ)
    → is_decimal parts ≡ true
    → length (fraction_of parts) ≤ decimals
    → from_decimal (parts.0 ++ pad_end decimals (fraction_of parts)) ≡ units
    → parse_parts negative parts decimals ≡ amount (signed negative units)
parse_parts-decimal negative parts decimals units d l v =
    let fits : ltb decimals (length (fraction_of parts)) ≡ false = ground arith in
    rw (d, fits, v) refl

value_lem :
    (decimals whole rest : ℕ) (w f : Text)
    → Prints whole w
    → Printed decimals rest f
    → from_decimal (w ++ pad_end decimals f) ≡ whole * 10 ^ decimals + rest
unfolding from_decimal
value_lem decimals whole rest w f wp fp =
    from_digits-append 0 w (pad_end decimals f)
    ∙ from_digits_shift (from_digits 0 w) (pad_end decimals f)
    ∙ rw (wp.value, fp.padded, fp.full) refl

parts_read :
    (decimals whole rest : ℕ) (w f : Text)
    → Prints whole w
    → Printed decimals rest f
    → (negative : Bool)
    → parse_parts negative (split_point (with_fraction w f)) decimals
      ≡ amount (signed negative (whole * 10 ^ decimals + rest))
unfolding is_digits
parts_read decimals whole rest w [] wp fp negative =
    rw (split_point-whole w (is_digits-all w wp.digital)) (
      parse_parts-decimal negative (w, none) decimals _ wp.digital (omega arith)
        (value_lem decimals whole rest w [] wp fp))
parts_read decimals whole rest w (c ∷ f) wp fp negative =
    rw (split_point-digits w (c ∷ f) (is_digits-all w wp.digital)) (
      parse_parts-decimal negative (w, some (c ∷ f)) decimals _ (rw (wp.digital) fp.digital)
        fp.short (value_lem decimals whole rest w (c ∷ f) wp fp))

with_fraction-cons : (c : ℕ) (w f : Text) → with_fraction (c ∷ w) f ≡ c ∷ with_fraction w f
with_fraction-cons c w [] = refl
with_fraction-cons c w (d ∷ f) = refl

sign_read :
    (negative : Bool) (w f : Text)
    → is_digits w ≡ true
    → (is_minus (with_sign negative (with_fraction w f)) ≡ negative)
      × (unsigned (with_sign negative (with_fraction w f)) ≡ with_fraction w f)
unfolding is_digits ℕ_discrete
sign_read negative [] f h = absurd (ground arith)
sign_read true (c ∷ w) f h = (refl, refl)
sign_read false (c ∷ w) f h =
    let both = and_parts (is_digit c) (all is_digit w) h in
    rw (with_fraction-cons c w f) (rw ((not_mark c both.0).1) (refl, refl))

body_plain :
    (w f : Text)
    → all is_digit w ≡ true
    → all is_digit f ≡ true
    → all is_plain (with_fraction w f) ≡ true
unfolding ℕ_discrete
body_plain w [] h k = digits-plain w h
body_plain w (c ∷ f) h k = plain-append w (46 ∷ c ∷ f) (digits-plain w h) (digits-plain (c ∷ f) k)

text_plain :
    (negative : Bool) (s : Text)
    → all is_plain s ≡ true
    → all is_plain (with_sign negative s) ≡ true
unfolding ℕ_discrete
text_plain true s h = h
text_plain false s h = h

pow-pos : (n : ℕ) → 0 < 10 ^ n
pow-pos zero = omega arith
pow-pos (suc n) = let power = pow.suc 10 n in let more = pow-pos n in omega arith

signed-magnitude : (units : ℤ) → signed (is_negative units) (magnitude units) ≡ units
unfolding negate
signed-magnitude (pos n) = refl
signed-magnitude (negsuc n) = ground arith

-- With at least one decimal and no more compulsory ones than the asset has: the text of an amount,
-- whatever its sign and with its trailing noughts or without, is read as exactly that amount.
pub parse_amount-format_amount :
    (units : ℤ) (decimals : ℕ) (opts : FormatOptions)
    → 0 < decimals
    → opts.min_fraction_digits ≤ decimals
    → parse_amount (format_amount units decimals opts) decimals ≡ amount units
unfolding parse_amount format_amount
parse_amount-format_amount units decimals opts some_decimals low =
    let power = 10 ^ decimals in
    let m = magnitude units in
    let w = to_decimal (m / power) in
    let f = fraction_text opts decimals (m % power) in
    let s = with_sign (is_negative units) (with_fraction w f) in
    let wp = to_decimal-Prints (m / power) in
    let fp =
      fraction_text-Printed opts decimals (m % power) some_decimals low
        (mod-lt m (pow-pos decimals)) in
    let plain =
      text_plain (is_negative units) (with_fraction w f)
        (body_plain w f (is_digits-all w wp.digital) fp.digital) in
    let sign = sign_read (is_negative units) w f wp.digital in
    let total : m / power * power + m % power ≡ m = div-add-mod' m power in
    rw (trim-plain s plain) (
      rw (filter-plain s plain) (
        rw (sign.0, sign.1)
          (parts_read decimals (m / power) (m % power) w f wp fp (is_negative units)
            ∙ ap (λ n. amount (signed (is_negative units) n)) total
            ∙ ap amount (signed-magnitude units))))
