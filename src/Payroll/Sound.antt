-- ===== src/Payroll/Sound.antt =====
-- What each check of a row lets pass, and that it says why where it does not.
use core_flow.Prelude.{
  ℕ, ◌≡◌, refl, inl, inr, Bool, true, false, ◌&&◌, ◌||◌, String, List, [], ◌∷◌, Option, none, some,
  ◌==◌, nat_eq, any, Member, contains, contains-Member, if◌then◌else◌, Bool-cases, arith,
}
use core_flow.Prelude.Int.{ℤ, pos, leb_ℤ, int_eq}
use core_flow.Prelude.Text.{trim}
use core_flow.Money.{
  sac_decimals, parse_amount, ParsedAmount, amount, rejected, not_an_amount, too_precise,
  from_decimal, is_digits,
}
use core_flow.Payroll.Reader.{Text, is_nil}
use core_flow.Payroll.Fields.{
  invalid_period, CsvIssue, Outcome, accept, refuse, strip_marks, begins_with, ends_with,
  judge_amount, parse_money_field, parse_hours, is_real_date, iso_parts, time_of, parse_date_field,
}
use core_flow.Payroll.Checks.{text_eq, is_stellar_address, check_recipient, check_asset}

-- A check that passes leaves a value as it should be, and one that does not says why.
pub record IsSound {A : Type 0} (P : A → Type 0) (o : Outcome A) : Type 0 where
  pub gives : o.passed ≡ true → (a : A) × (o.value ≡ some a) × P a
  pub tells : o.passed ≡ false → is_nil o.issues ≡ false

module _ {A : Type 0} {P : A → Type 0} where
  accept-IsSound : (a : A) → P a → IsSound P (accept a)
  accept-IsSound a p = record { gives = λ h. (a, refl, p); tells = λ h. absurd (ground arith) }

  refuse-IsSound :
      (issue : CsvIssue) → IsSound P (record { value = none; passed = false; issues = issue ∷ [] })
  refuse-IsSound issue = record { gives = λ h. absurd (ground arith); tells = λ h. refl }

abbrev pub IsPositive : ℤ → Type 0
IsPositive a = leb_ℤ a (pos 0) ≡ false

judge_amount-IsSound :
    (line : ℕ) (column : String) (p : ParsedAmount)
    → IsSound IsPositive (judge_amount line column p)
judge_amount-IsSound line column (amount units) = elim (Bool-cases (leb_ℤ units (pos 0))) [
  | inl e ↦ rw e (refuse-IsSound _)
  | inr e ↦ rw e (accept-IsSound units e)
]
judge_amount-IsSound line column (rejected too_precise) = refuse-IsSound _
judge_amount-IsSound line column (rejected not_an_amount) = refuse-IsSound _

pub parse_money_field-IsSound :
    (raw : Text) (line : ℕ) (column : String)
    → IsSound IsPositive (parse_money_field raw line column)
unfolding parse_money_field
parse_money_field-IsSound raw line column = elim (Bool-cases (is_nil (trim raw))) [
  | inl e ↦ rw e (refuse-IsSound _)
  | inr e ↦ rw e (elim (Bool-cases (any (λ c. c == 101 || c == 69) (trim raw))) [
    | inl e ↦ rw e (refuse-IsSound _)
    | inr e ↦ rw e (elim (Bool-cases (begins_with 40 (trim raw) || ends_with 41 (trim raw))) [
      | inl e ↦ rw e (refuse-IsSound _)
      | inr e ↦
          rw e (
            judge_amount-IsSound line column (parse_amount (strip_marks 0 (trim raw)) sac_decimals))
    ])
  ])
]

hours-IsPositive : (n : ℕ) → (n == 0) ≡ false → IsPositive (pos n)
hours-IsPositive n h = ground arith

pub parse_hours-IsSound : (raw : Text) (line : ℕ) → IsSound IsPositive (parse_hours raw line)
unfolding parse_hours
parse_hours-IsSound raw line = elim (Bool-cases (is_nil (trim raw))) [
  | inl e ↦ rw e (refuse-IsSound _)
  | inr e ↦ rw e (elim (Bool-cases (any (λ c. c == 46 || c == 44) (trim raw))) [
    | inl e ↦ rw e (refuse-IsSound _)
    | inr e ↦ rw e (elim (Bool-cases (is_digits (trim raw))) [
      | inr e ↦ rw e (refuse-IsSound _)
      | inl e ↦ rw e (elim (Bool-cases (from_decimal (trim raw) == 0)) [
        | inl e ↦ rw e (record { gives = λ h. absurd (ground arith); tells = λ h. refl })
        | inr e ↦ rw e (accept-IsSound _ (hours-IsPositive (from_decimal (trim raw)) e))
      ])
    ])
  ])
]

date_read :
    (o : Option (ℕ × ℕ × ℕ)) (line : ℕ) (column : String)
    → IsSound {A = ℤ}
        (λ t. Unit {0})
        (elim o [
          | none ↦ refuse line column invalid_period
          | some date ↦
              if is_real_date date then accept (time_of date) else refuse line column invalid_period
        ])
date_read none line column = refuse-IsSound _
date_read (some date) line column = elim (Bool-cases (is_real_date date)) [
  | inl e ↦ rw e (accept-IsSound _ tt)
  | inr e ↦ rw e (refuse-IsSound _)
]

pub parse_date_field-IsSound :
    (raw : Text) (line : ℕ) (column : String)
    → IsSound (λ t. Unit {0}) (parse_date_field raw line column)
unfolding parse_date_field
parse_date_field-IsSound raw line column = elim (Bool-cases (is_nil (trim raw))) [
  | inl e ↦ rw e (refuse-IsSound _)
  | inr e ↦ rw e (date_read (iso_parts (trim raw)) line column)
]

-- A recipient that passes is an address that no earlier row has, where that is asked.
abbrev pub IsFresh : Bool → List Text → Text → Type 0
IsFresh reject recipients a =
    (is_stellar_address a ≡ true) × ((reject && contains a recipients) ≡ false)

pub check_recipient-IsSound :
    (reject : Bool) (recipients : List Text) (recipient : Text) (line : ℕ)
    → IsSound (IsFresh reject recipients) (check_recipient reject recipients recipient line)
unfolding check_recipient
check_recipient-IsSound reject recipients recipient line =
    elim (Bool-cases (is_stellar_address recipient)) [
      | inr e ↦ rw e (refuse-IsSound _)
      | inl valid ↦ rw valid (elim (Bool-cases (reject && contains recipient recipients)) [
        | inl e ↦ rw e (refuse-IsSound _)
        | inr e ↦ rw e (accept-IsSound recipient (valid, e))
      ])
    ]

pub check_asset-IsSound :
    (allowed : List Text) (asset : Text) (line : ℕ)
    → IsSound (λ a. Member a allowed) (check_asset allowed asset line)
unfolding check_asset
check_asset-IsSound allowed asset line = elim (Bool-cases (contains asset allowed)) [
  | inl e ↦ rw e (accept-IsSound asset (contains-Member asset allowed e))
  | inr e ↦ rw e (refuse-IsSound _)
]
