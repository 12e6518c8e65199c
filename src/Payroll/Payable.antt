-- ===== src/Payroll/Payable.antt =====
-- What the checks of a row let pass.
use core_flow.Prelude.{
  ℕ, ◌≡◌, refl, sym, ap, ◌∙◌, inl, inr, Bool, true, false, ◌&&◌, List, [], ◌∷◌, ◌++◌, Option, none,
  some, ◌==◌, nat_eq, Member, eq-eq_true, if◌then◌else◌, Bool-cases, arith,
}
use core_flow.Prelude.Int.{ℤ, ◌*ℤ◌, leb_ℤ, int_eq}
use core_flow.Money.{hours_for_amount}
use core_flow.Payroll.Reader.{Text, is_nil}
use core_flow.Payroll.Fields.{hours_rate_mismatch, sanitize_for_spreadsheet, Outcome}
use core_flow.Payroll.Checks.{
  text_eq, is_stellar_address, ParsedPayrollRow, ParseOptions, refuse_row, pass, check_hours_rate,
  check_period, Checks, issues_of, row_ok, row_of,
}
use core_flow.Payroll.Import.{Casing, allowed_assets, check_row}
use core_flow.Payroll.Sound.{
  IsSound, IsPositive, IsFresh, parse_money_field-IsSound, parse_hours-IsSound,
  parse_date_field-IsSound, check_recipient-IsSound, check_asset-IsSound,
}

-- What the contract will settle: a positive amount that is hours times rate, in an asset of this
-- deployment, to an address, for a period that is not empty.
pub record IsPayable (allowed : List Text) (r : ParsedPayrollRow) : Type 0 where
  pub address : is_stellar_address r.recipient ≡ true
  pub settles : Member r.asset allowed
  pub amount : IsPositive r.amount_base_units
  pub rate : IsPositive r.rate_base_units
  pub hours : IsPositive r.hours
  pub justified : r.hours *ℤ r.rate_base_units ≡ r.amount_base_units
  pub ordered : leb_ℤ r.period_end r.period_start ≡ false

check_hours_rate-justified :
    (units rate hours : Option ℤ) (a r h : ℤ) (line : ℕ)
    → units ≡ some a
    → rate ≡ some r
    → hours ≡ some h
    → (check_hours_rate units rate hours line).passed ≡ true
    → h *ℤ r ≡ a
unfolding check_hours_rate
check_hours_rate-justified units rate hours a r h line ua ur uh p =
    elim (Bool-cases (h *ℤ r == a)) [
      | inl e ↦ eq-eq_true (h *ℤ r) a e
      | inr e ↦ absurd (ground (arith, (rw (ua, ur, uh, e) at p)))
    ]

whole_tells :
    (o : Option ℤ) (line : ℕ)
    → (elim o as (λ x. Outcome (Unit {0})) [
      | none ↦ refuse_row line hours_rate_mismatch
      | some h ↦ pass
    ]).passed
      ≡ false
    → is_nil
        (elim o as (λ x. Outcome (Unit {0})) [
          | none ↦ refuse_row line hours_rate_mismatch
          | some h ↦ pass
        ]).issues
      ≡ false
whole_tells none line h = refl
whole_tells (some n) line h = absurd (ground arith)

check_hours_rate-tells :
    (units rate hours : Option ℤ) (line : ℕ)
    → (check_hours_rate units rate hours line).passed ≡ false
    → is_nil (check_hours_rate units rate hours line).issues ≡ false
unfolding check_hours_rate
check_hours_rate-tells none rate hours line h = absurd (ground arith)
check_hours_rate-tells (some a) none hours line h = absurd (ground arith)
check_hours_rate-tells (some a) (some r) none line h = absurd (ground arith)
check_hours_rate-tells (some a) (some r) (some n) line h = elim (Bool-cases (n *ℤ r == a)) [
  | inr e ↦ rw e refl
  | inl e ↦ rw e (whole_tells (hours_for_amount a r) line (rw e at h))
]

check_period-ordered :
    (start end : Option ℤ) (line : ℕ)
    → (check_period start end line).passed ≡ true
    → (s : ℤ) × (e : ℤ) × (start ≡ some s) × (end ≡ some e) × (leb_ℤ e s ≡ false)
unfolding check_period
check_period-ordered none end line h = absurd (ground arith)
check_period-ordered (some s) none line h = absurd (ground arith)
check_period-ordered (some s) (some e) line h = elim (Bool-cases (leb_ℤ e s)) [
  | inr later ↦ (s, e, refl, refl, later)
  | inl early ↦ absurd (ground (arith, (rw early at h)))
]

check_period-tells :
    (start end : ℤ) (line : ℕ)
    → (check_period (some start) (some end) line).passed ≡ false
    → is_nil (check_period (some start) (some end) line).issues ≡ false
unfolding check_period
check_period-tells start end line h = elim (Bool-cases (leb_ℤ end start)) [
  | inl e ↦ rw e refl
  | inr e ↦ absurd (ground (arith, (rw e at h)))
]

-- The checks of a row, each of which is sound.
pub record AreSound (reject : Bool) (recipients allowed : List Text) (line : ℕ) (c : Checks)
    : Type 0 where
  pub recipient : IsSound (IsFresh reject recipients) c.recipient
  pub asset : IsSound (λ a. Member a allowed) c.asset
  pub amount : IsSound IsPositive c.amount
  pub rate : IsSound IsPositive c.rate
  pub hours : IsSound IsPositive c.hours
  pub start : IsSound (λ t. Unit {0}) c.period_start
  pub end : IsSound (λ t. Unit {0}) c.period_end
  pub justified : c.justified ≡ check_hours_rate c.amount.value c.rate.value c.hours.value line
  pub period : c.period ≡ check_period c.period_start.value c.period_end.value line

pub check_row-AreSound :
    (casing : Casing) (opts : ParseOptions) (header raw : List Text) (line : ℕ)
    (recipients : List Text)
    → AreSound opts.reject_duplicate_recipients recipients
        (allowed_assets casing opts)
        line
        (check_row casing opts header raw line recipients)
unfolding check_row
check_row-AreSound casing opts header raw line recipients = record {
  recipient = check_recipient-IsSound _ _ _ _;
  asset = check_asset-IsSound _ _ _;
  amount = parse_money_field-IsSound _ _ _;
  rate = parse_money_field-IsSound _ _ _;
  hours = parse_hours-IsSound _ _;
  start = parse_date_field-IsSound _ _ _;
  end = parse_date_field-IsSound _ _ _;
  justified = refl;
  period = refl;
}

-- A row that a check lets pass.
pub record Passed (reject : Bool) (recipients allowed : List Text) (line : ℕ) (reference : Text)
    (c : Checks) : Type 0 where
  pub row : ParsedPayrollRow
  pub kept : row_of line reference c ≡ some row
  pub payable : IsPayable allowed row
  pub fresh : IsFresh reject recipients row.recipient
  pub noted : c.recipient.value ≡ some row.recipient

and8 :
    (a b c d e f g h : Bool)
    → (a && b && c && d && e && f && g && h) ≡ true
    → (b ≡ true) × (c ≡ true) × (d ≡ true) × (e ≡ true) × (f ≡ true) × (g ≡ true) × (h ≡ true)
and8 a b c d e f g h p = ground arith

pub row_ok-Passed :
    (reject : Bool) (recipients allowed : List Text) (line : ℕ) (reference : Text) (c : Checks)
    → AreSound reject recipients allowed line c
    → row_ok c ≡ true
    → Passed reject recipients allowed line reference c
unfolding row_of
row_ok-Passed reject recipients allowed line reference c s ok =
    let (p1, p2, p3, p4, p5, p6, p7) =
      and8 (is_nil c.long) c.recipient.passed c.asset.passed c.amount.passed c.rate.passed
        c.hours.passed c.justified.passed c.period.passed ok in
    let (recipient, v1, fresh) = s.recipient.gives p1 in
    let (asset, v2, settles) = s.asset.gives p2 in
    let (units, v3, positive) = s.amount.gives p3 in
    let (rate, v4, rated) = s.rate.gives p4 in
    let (hours, v5, some_hours) = s.hours.gives p5 in
    let (start, end, v6, v7, ordered) =
      check_period-ordered c.period_start.value c.period_end.value line
        (ap (λ o. o.passed) (sym s.period) ∙ p7) in
    record {
      row = record {
        line = line;
        recipient = recipient;
        asset = asset;
        amount_base_units = units;
        rate_base_units = rate;
        hours = hours;
        period_start = start;
        period_end = end;
        reference = if is_nil reference then none else some (sanitize_for_spreadsheet reference);
      };
      kept = rw (v1, v2, v3, v4, v5, v6, v7) refl;
      payable = record {
        address = fresh.0;
        settles = settles;
        amount = positive;
        rate = rated;
        hours = some_hours;
        justified =
            check_hours_rate-justified _ _ _ units rate hours line v3 v4 v5
              (ap (λ o. o.passed) (sym s.justified) ∙ p6);
        ordered = ordered;
      };
      fresh = fresh;
      noted = v1;
    }

-- ── Why a row is refused ──

pub nil_parts {ℓ} :
    {A : Type ℓ} (xs ys : List A)
    → is_nil (xs ++ ys) ≡ true
    → (is_nil xs ≡ true) × (is_nil ys ≡ true)
nil_parts [] ys h = (refl, h)
nil_parts (x ∷ xs) ys h = absurd (ground arith)

silent_passes :
    {A : Type 0} (o : Outcome A)
    → (o.passed ≡ false → is_nil o.issues ≡ false)
    → is_nil o.issues ≡ true
    → o.passed ≡ true
silent_passes o tells silent = elim (Bool-cases o.passed) [
  | inl passes ↦ passes
  | inr fails ↦ absurd (ground (arith, silent, (tells fails)))
]

all8 :
    (a b c d e f g h : Bool)
    → a ≡ true
    → b ≡ true
    → c ≡ true
    → d ≡ true
    → e ≡ true
    → f ≡ true
    → g ≡ true
    → h ≡ true
    → (a && b && c && d && e && f && g && h) ≡ true
all8 a b c d e f g h = ground arith

-- A row without an issue passes.
pub row_ok-silent :
    (reject : Bool) (recipients allowed : List Text) (line : ℕ) (c : Checks)
    → AreSound reject recipients allowed line c
    → is_nil (issues_of c) ≡ true
    → row_ok c ≡ true
row_ok-silent reject recipients allowed line c s h =
    let (h9, period) = nil_parts _ c.period.issues h in
    let (h8, end) = nil_parts _ c.period_end.issues h9 in
    let (h7, start) = nil_parts _ c.period_start.issues h8 in
    let (h6, justified) = nil_parts _ c.justified.issues h7 in
    let (h5, hours) = nil_parts _ c.hours.issues h6 in
    let (h4, rate) = nil_parts _ c.rate.issues h5 in
    let (h3, units) = nil_parts _ c.amount.issues h4 in
    let (h2, asset) = nil_parts _ c.asset.issues h3 in
    let (long, recipient) = nil_parts c.long c.recipient.issues h2 in
    let (t, tv, _) = s.start.gives (silent_passes c.period_start s.start.tells start) in
    let (u, uv, _) = s.end.gives (silent_passes c.period_end s.end.tells end) in
    let justified_tells : c.justified.passed ≡ false → is_nil c.justified.issues ≡ false =
      rw (s.justified) (check_hours_rate-tells c.amount.value c.rate.value c.hours.value line) in
    let period_tells : c.period.passed ≡ false → is_nil c.period.issues ≡ false =
      rw (s.period) (rw (tv, uv) (check_period-tells t u line)) in
    all8 _ _ _ _ _ _ _ _ long (silent_passes c.recipient s.recipient.tells recipient)
      (silent_passes c.asset s.asset.tells asset) (silent_passes c.amount s.amount.tells units)
      (silent_passes c.rate s.rate.tells rate) (silent_passes c.hours s.hours.tells hours)
      (silent_passes c.justified justified_tells justified)
      (silent_passes c.period period_tells period)
