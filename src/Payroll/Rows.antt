-- ===== src/Payroll/Rows.antt =====
-- Lists of imported rows: distinct recipients, and totals as sums of amounts.
use core_flow.Prelude.{
  ◌≡◌, ◌≢◌, refl, sym, ◌∙◌, inl, inr, true, false, List, [], ◌∷◌, ◌++◌, ◌==◌, nat_eq, eq_self,
  eq-eq_true, All, Member, contains, if◌then◌else◌, Bool-cases, arith,
}
use core_flow.Prelude.Int.{ℤ, pos, ◌+ℤ◌}
use core_flow.Payroll.Reader.{Text}
use core_flow.Payroll.Checks.{text_eq, ParsedPayrollRow, Totals}
use core_flow.Payroll.Import.{add_total}

-- No two rows have the same recipient.
abbrev pub Distinct : List ParsedPayrollRow → Type 0
Distinct [] = Unit
Distinct (r ∷ rows) = All (λ q. q.recipient ≢ r.recipient) rows × Distinct rows

-- The amounts of an asset, added up in order.
abbrev sum_from : Text → ℤ → List ParsedPayrollRow → ℤ
sum_from key acc [] = acc
sum_from key acc (r ∷ rows) =
    sum_from key (if r.asset == key then acc +ℤ r.amount_base_units else acc) rows

unfoldable pub sum_of : Text → List ParsedPayrollRow → ℤ
sum_of key rows = sum_from key (pos 0) rows

abbrev pub total_of : Text → Totals → ℤ
total_of key [] = pos 0
total_of key ((k, total) ∷ rest) = if k == key then total else total_of key rest

pub All-snoc :
    (P : ParsedPayrollRow → Type 0) (rows : List ParsedPayrollRow) (r : ParsedPayrollRow)
    → All P rows
    → P r
    → All P (rows ++ r ∷ [])
All-snoc P [] r h p = (p, tt)
All-snoc P (q ∷ rows) r h p = (h.0, All-snoc P rows r h.1 p)

pub All-weaken :
    (P Q : ParsedPayrollRow → Type 0) (rows : List ParsedPayrollRow)
    → ((r : ParsedPayrollRow) → P r → Q r)
    → All P rows
    → All Q rows
All-weaken P Q [] f h = tt
All-weaken P Q (r ∷ rows) f h = (f r h.0, All-weaken P Q rows f h.1)

pub Distinct-snoc :
    (rows : List ParsedPayrollRow) (r : ParsedPayrollRow)
    → Distinct rows
    → All (λ q. r.recipient ≢ q.recipient) rows
    → Distinct (rows ++ r ∷ [])
Distinct-snoc [] r d h = (tt, tt)
Distinct-snoc (q ∷ rows) r d h =
    (All-snoc (λ p. p.recipient ≢ q.recipient) rows r d.0 h.0, Distinct-snoc rows r d.1 h.1)

pub sum_from-snoc :
    (key : Text) (acc : ℤ) (rows : List ParsedPayrollRow) (r : ParsedPayrollRow)
    → sum_from key acc (rows ++ r ∷ []) ≡ (
        if r.asset == key
        then sum_from key acc rows +ℤ r.amount_base_units
        else sum_from key acc rows)
sum_from-snoc key acc [] r = refl
sum_from-snoc key acc (q ∷ rows) r =
    sum_from-snoc key (if q.asset == key then acc +ℤ q.amount_base_units else acc) rows r

other_key : (j k key : Text) → (j == k) ≡ false → (j == key) ≡ true → (k == key) ≡ false
other_key j k key differ same = elim (Bool-cases (k == key)) [
  | inr e ↦ e
  | inl e ↦
      let j_k : j ≡ k = eq-eq_true j key same ∙ sym (eq-eq_true k key e) in
      absurd (ground (arith, (rw j_k at differ), (eq_self k)))
]

pub total_of-add_total :
    (key k : Text) (units : ℤ) (totals : Totals)
    → total_of key (add_total k units totals)
      ≡ (if k == key then total_of key totals +ℤ units else total_of key totals)
unfolding add_total
total_of-add_total key k units [] = refl
total_of-add_total key k units ((j, total) ∷ rest) = elim (Bool-cases (j == k)) [
  | inl same ↦ rw same (
      rw (sym (eq-eq_true j k same))
        (elim (Bool-cases (j == key)) [ inl e ↦ rw e refl | inr e ↦ rw e refl ]))
  | inr other ↦ rw other (elim (Bool-cases (j == key)) [
    | inl e ↦ rw (e, other_key j k key other e) refl
    | inr e ↦ rw e (total_of-add_total key k units rest)
  ])
]

pub unseen : (a : Text) (xs : List Text) → contains a xs ≡ false → ¬ Member a xs
unseen a [] h m = absurd m
unseen a (x ∷ xs) h m = elim m [
  | inl same ↦ let found : (x == a) ≡ true = rw (sym same) (eq_self a) in absurd (ground arith)
  | inr later ↦ unseen a xs (ground arith) later
]
