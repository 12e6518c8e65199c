-- ===== src/Money/Digits.antt =====
-- Texts of digits: their values, their padding, and the digits of a number.
use core_flow.Prelude.{
  leb, Bool, false, ℕ, zero, suc, ◌+◌, ◌-◌, ◌*◌, ◌/◌, ◌%◌, ◌^◌, ◌≤◌, ◌<◌, ◌≡◌, refl, sym, ap, ◌∙◌,
  inl, inr, true, [], ◌∷◌, ◌++◌, ◌==◌, nat_eq, all, length, length-append, arith, Bool-cases,
  eq-eq_true,
}
use Prim.Native.Nat.pow
use native.Mathlib.Nat.{add-mul, mul_assoc, mul_comm}
use mathlib.Core.List.{append_assoc}
use core_flow.Money.Amount.{
  Text, is_digit, is_digits, nought, pad_end, from_digits, digits, to_decimal, trim_noughts, cut,
}

pub all-append :
    (xs ys : Text)
    → all is_digit xs ≡ true
    → all is_digit ys ≡ true
    → all is_digit (xs ++ ys) ≡ true
all-append [] ys h k = k
all-append (x ∷ xs) ys h k = ground (arith, all-append xs ys)

pub length-nought : (n : ℕ) → length (nought n) ≡ n
unfolding nought
length-nought zero = refl
length-nought (suc n) = ap suc (length-nought n)

pub all-nought : (n : ℕ) → all is_digit (nought n) ≡ true
unfolding nought
all-nought zero = refl
all-nought (suc n) = all-nought n

nought-append : (a b : ℕ) → nought a ++ nought b ≡ nought (a + b)
unfolding nought
nought-append zero b = ap nought (omega arith)
nought-append (suc a) b =
    let grown : suc a + b ≡ suc (a + b) = omega arith in
    rw grown (ap (λ s. 48 ∷ s) (nought-append a b))

pub from_digits-append :
    (acc : ℕ) (xs ys : Text) → from_digits acc (xs ++ ys) ≡ from_digits (from_digits acc xs) ys
from_digits-append acc [] ys = refl
from_digits-append acc (x ∷ xs) ys = from_digits-append (acc * 10 + (x - 48)) xs ys

shift_lem : (a v p q r : ℕ) → q ≡ p * 10 → (a * 10 + v) * p + r ≡ a * q + ((0 * 10 + v) * p + r)
shift_lem a v p q r h =
    let e : (a * 10 + v) * p ≡ a * (p * 10) + v * p =
      add-mul (a * 10) v p
      ∙ ap (λ t. t + v * p) (mul_assoc a 10 p ∙ ap (λ t. a * t) (mul_comm 10 p)) in
    rw (e, h) (omega arith)

pub from_digits_shift :
    (acc : ℕ) (s : Text) → from_digits acc s ≡ acc * 10 ^ length s + from_digits 0 s
from_digits_shift acc [] = omega arith
from_digits_shift acc (x ∷ s) =
    let power = pow.suc 10 (length s) in
    let a = from_digits_shift (acc * 10 + (x - 48)) s in
    let b = from_digits_shift (0 * 10 + (x - 48)) s in
    a
    ∙ shift_lem acc (x - 48) (10 ^ length s) (10 ^ suc (length s)) (from_digits 0 s) power
    ∙ ap (λ t. acc * 10 ^ suc (length s) + t) (sym b)

pub from_digits-nought : (n : ℕ) → from_digits 0 (nought n) ≡ 0
unfolding nought
from_digits-nought zero = refl
from_digits-nought (suc n) = from_digits-nought n

-- ── The digits of a number ──

pub record Prints (n : ℕ) (s : Text) : Type 0 where
  pub value : from_digits 0 s ≡ n
  pub digital : is_digits s ≡ true
  pub short : (d : ℕ) → 0 < d → n < 10 ^ d → length s ≤ d

pub is_digits-all : (s : Text) → is_digits s ≡ true → all is_digit s ≡ true
unfolding is_digits
is_digits-all [] h = refl
is_digits-all (c ∷ s) h = h

is_digits-append :
    (s : Text) (c : ℕ) → all is_digit s ≡ true → is_digit c ≡ true → is_digits (s ++ c ∷ []) ≡ true
unfolding is_digits
is_digits-append [] c h k = ground arith
is_digits-append (x ∷ s) c h k = all-append (x ∷ s) (c ∷ []) h (ground arith)

one_digit : (n : ℕ) → n / 10 ≡ 0 → Prints n ((48 + n % 10) ∷ [])
unfolding is_digits
one_digit n e = record {
  value = omega arith;
  digital = ground arith;
  short = λ d some_digit small. omega arith;
}

more_digits :
    (n q : ℕ) (s : Text) → n / 10 ≡ q → 0 < q → Prints q s → Prints n (s ++ (48 + n % 10) ∷ [])
more_digits n q s e more r = record {
  value = from_digits-append 0 s ((48 + n % 10) ∷ []) ∙ (let v = r.value in omega arith);
  digital = is_digits-append s (48 + n % 10) (is_digits-all s r.digital) (ground arith);
  short = longer;
}
  where
    longer : (d : ℕ) → 0 < d → n < 10 ^ d → length (s ++ (48 + n % 10) ∷ []) ≤ d
    longer zero some_digit small = absurd (omega arith)
    longer (suc zero) some_digit small = absurd (omega arith)
    longer (suc (suc d)) some_digit small =
        let power = pow.suc 10 (suc d) in
        let fits : q < 10 ^ suc d = omega arith in
        omega (arith, length-append {0} s ((48 + n % 10) ∷ []), r.short (suc d) (omega arith) fits)

digits-Prints : (fuel n : ℕ) → n < fuel → Prints n (digits fuel n)
unfolding digits
digits-Prints zero n h = absurd (omega arith)
digits-Prints (suc fuel) n h = split (λ q l. digits-Prints fuel q l) (n / 10) refl
  where
    split :
        ((q : ℕ) → q < fuel → Prints q (digits fuel q))
        → (q : ℕ) → n / 10 ≡ q
        → Prints n (elim q [
          | zero ↦ (48 + n % 10) ∷ []
          | suc m ↦ digits fuel (suc m) ++ (48 + n % 10) ∷ []
        ])
    split printed zero e = one_digit n e
    split printed (suc m) e =
        more_digits n (suc m) (digits fuel (suc m)) e (omega arith) (printed (suc m) (omega arith))

pub to_decimal-Prints : (n : ℕ) → Prints n (to_decimal n)
unfolding to_decimal
to_decimal-Prints n = digits-Prints (suc n) n (omega arith)

-- The first digit is no nought.
abbrev pub leads : Text → Bool
leads [] = false
leads (c ∷ s) = leb 49 c

leads-append : (s : Text) (c : ℕ) → leads s ≡ true → leads (s ++ c ∷ []) ≡ true
leads-append [] c h = absurd (ground arith)
leads-append (d ∷ s) c h = h

digits-leads : (fuel n : ℕ) → n < fuel → 0 < n → leads (digits fuel n) ≡ true
unfolding digits
digits-leads zero n h some_n = absurd (omega arith)
digits-leads (suc fuel) n h some_n = split (λ q l m. digits-leads fuel q l m) (n / 10) refl
  where
    split :
        ((q : ℕ) → q < fuel → 0 < q → leads (digits fuel q) ≡ true)
        → (q : ℕ) → n / 10 ≡ q
        → leads (elim q as (λ x. Text) [
          | zero ↦ (48 + n % 10) ∷ []
          | suc m ↦ digits fuel (suc m) ++ (48 + n % 10) ∷ []
        ])
          ≡ true
    split before zero e = ground arith
    split before (suc m) e =
        leads-append (digits fuel (suc m)) (48 + n % 10)
          (before (suc m) (omega arith) (omega arith))

-- A number other than zero prints no leading nought.
pub to_decimal-leads : (n : ℕ) → 0 < n → leads (to_decimal n) ≡ true
unfolding to_decimal
to_decimal-leads n h = digits-leads (suc n) n (omega arith) h

-- ── Trailing noughts ──

cut_lem : (c : ℕ) (t : Text) (k : ℕ) → (j : ℕ) × (c ∷ t ++ nought k ≡ cut c t ++ nought j)
unfolding nought
cut_lem c [] k = elim (Bool-cases (c == 48)) [
  | inl same ↦ (suc k, rw (same) (ap (λ d. d ∷ nought k) (eq-eq_true c 48 same)))
  | inr other ↦ (k, rw other refl)
]
cut_lem c (d ∷ t) k = (k, refl)

pub trim_noughts_lem : (s : Text) → (k : ℕ) × (s ≡ trim_noughts s ++ nought k)
unfolding trim_noughts nought
trim_noughts_lem [] = (0, refl)
trim_noughts_lem (c ∷ s) =
    let (k, rest) = trim_noughts_lem s in
    let (j, e) = cut_lem c (trim_noughts s) k in (j, ap (λ t. c ∷ t) rest ∙ e)

-- Shorter padding first makes no difference.
pub pad_end-pad_end :
    (f : Text) (k low high : ℕ)
    → length f + k ≡ high
    → low ≤ high
    → pad_end high (pad_end low f) ≡ f ++ nought k
unfolding pad_end
pad_end-pad_end f k low high h l =
    let size = length-append {0} f (nought (low - length f)) in
    let noughts = length-nought (low - length f) in
    let count : (low - length f) + (high - length (f ++ nought (low - length f))) ≡ k =
      omega arith in
    append_assoc f (nought (low - length f)) _
    ∙ ap (λ s. f ++ s) (nought-append _ _ ∙ ap nought count)
