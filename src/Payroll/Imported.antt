-- ===== src/Payroll/Imported.antt =====
-- What holds of the rows of a payroll file after each of them is read, by src/lib/payroll/csv.ts.
use core_flow.Prelude.{
  ℕ, ◌≤◌, ◌≡◌, refl, sym, ap, ◌∙◌, inl, inr, Bool, true, false, ◌&&◌, List, [], ◌∷◌, ◌++◌, Option,
  none, some, ◌==◌, nat_eq, All, Member, contains, length, length-append, map, if◌then◌else◌,
  Bool-cases, arith,
}
use mathlib.Core.Option.{some-injective}
use core_flow.Prelude.Int.{pos, ◌+ℤ◌}
use core_flow.Prelude.Text.{trim}
use core_flow.Payroll.Reader.{Text, is_nil}
use core_flow.Payroll.Fields.{Outcome}
use core_flow.Payroll.Checks.{
  check_recipient, text_eq, ParsedPayrollRow, Totals, ParseOptions, cell, Checks, issues_of, row_ok,
}
use core_flow.Payroll.Import.{
  Casing, Import, add_total, allowed_assets, check_row, recipients_after, field_count, keep_row,
  import_row,
}
use core_flow.Payroll.Payable.{
  IsPayable, check_row-AreSound, Passed, row_ok-Passed, nil_parts, row_ok-silent,
}
use core_flow.Payroll.Rows.{
  Distinct, sum_of, total_of, All-snoc, All-weaken, Distinct-snoc, sum_from-snoc,
  total_of-add_total, unseen,
}

-- The recipient that a row of the file names.
abbrev pub recipient_of : List Text → List Text → Text
recipient_of header raw = trim (cell header raw "recipient")

abbrev pub recipients_of : List ParsedPayrollRow → List Text
recipients_of rows = map (λ (r : ParsedPayrollRow). r.recipient) rows

-- What holds after some rows of the file, `seen`.
pub record Imported (reject : Bool) (allowed header : List Text) (seen : List (List Text))
    (s : Import) : Type 0 where
  pub payable : All (λ r. IsPayable allowed r) s.rows
  pub distinct : reject ≡ true → Distinct s.rows
  pub covered : All (λ r. Member r.recipient s.recipients) s.rows
  pub counted : length s.rows ≤ length seen
  pub silent : is_nil s.issues ≡ true → recipients_of s.rows ≡ map (recipient_of header) seen
  pub summed : (key : Text) → total_of key s.totals ≡ sum_of key s.rows

after_covered :
    (o : Outcome Text) (recipients : List Text) (rows : List ParsedPayrollRow) (casing : Casing)
    (opts : ParseOptions)
    → All (λ r. Member r.recipient recipients) rows
    → All (λ r. Member r.recipient (recipients_after casing opts o recipients)) rows
after_covered o recipients rows casing opts h = go o.value
  where
    go :
        (v : Option Text)
        → All
            (λ r. Member r.recipient (elim v as (λ x. List Text) [
              | none ↦ recipients
              | some recipient ↦ recipient ∷ recipients
            ]))
            rows
    go none = h
    go (some recipient) = All-weaken _ _ rows (λ r m. inr m) h

newest :
    (o : Outcome Text) (recipients : List Text) (r : Text) (casing : Casing) (opts : ParseOptions)
    → o.value ≡ some r
    → Member r (recipients_after casing opts o recipients)
newest o recipients r casing opts h = go o.value h
  where
    go :
        (v : Option Text)
        → v ≡ some r
        → Member r (elim v as (λ x. List Text) [
          | none ↦ recipients
          | some recipient ↦ recipient ∷ recipients
        ])
    go none e = absurd (ground arith)
    go (some a) e = inl (sym (some-injective a r e))

unseen_lem :
    (reject : Bool) (recipients : List Text) (a b : Text)
    → reject ≡ true
    → (reject && contains b recipients) ≡ false
    → Member a recipients
    → b ≡ a
    → ⊥
unseen_lem reject recipients a b asked fresh m same = unseen b recipients (ground arith) (rw same m)

summed_lem :
    (key : Text) (rows : List ParsedPayrollRow) (r : ParsedPayrollRow) (totals : Totals)
    → total_of key totals ≡ sum_of key rows
    → total_of key (add_total r.asset r.amount_base_units totals) ≡ sum_of key (rows ++ r ∷ [])
unfolding sum_of
summed_lem key rows r totals h =
    total_of-add_total key r.asset r.amount_base_units totals
    ∙ ap (λ t. if r.asset == key then t +ℤ r.amount_base_units else t) h
    ∙ sym (sum_from-snoc key (pos 0) rows r)

map-snoc :
    {A B : Type 0} (f : A → B) (xs : List A) (x : A) → map f (xs ++ x ∷ []) ≡ map f xs ++ f x ∷ []
map-snoc f [] x = refl
map-snoc f (a ∷ xs) x = ap (λ l. f a ∷ l) (map-snoc f xs x)

check_recipient-same :
    (reject : Bool) (recipients : List Text) (named r : Text) (line : ℕ)
    → (check_recipient reject recipients named line).value ≡ some r
    → named ≡ r
unfolding check_recipient
check_recipient-same reject recipients named r line h = ground arith

read_recipient :
    (casing : Casing) (opts : ParseOptions) (header raw : List Text) (line : ℕ)
    (recipients : List Text) (r : Text)
    → (check_row casing opts header raw line recipients).recipient.value ≡ some r
    → recipient_of header raw ≡ r
unfolding check_row
read_recipient casing opts header raw line recipients r h =
    check_recipient-same opts.reject_duplicate_recipients recipients (recipient_of header raw) r
      line h

module _ (casing : Casing) (opts : ParseOptions) (header raw : List Text) (line : ℕ)
    (seen : List (List Text)) (s : Import)
    (old : Imported opts.reject_duplicate_recipients
      (allowed_assets casing opts)
      header
      seen
      s) where
  abbrev c : Checks
  c = check_row casing opts header raw line s.recipients

  abbrev noted : Import
  noted = record s {
    warnings = s.warnings ++ field_count casing opts header raw line;
    issues = s.issues ++ issues_of c;
    recipients = recipients_after casing opts c.recipient s.recipients;
  }

  abbrev reference : Text
  reference = trim (cell header raw "reference")

  dropped_lem :
      row_ok c ≡ false
      → Imported opts.reject_duplicate_recipients
          (allowed_assets casing opts)
          header
          (seen ++ raw ∷ [])
          noted
  dropped_lem fails = record {
    payable = old.payable;
    distinct = old.distinct;
    covered = after_covered c.recipient s.recipients s.rows casing opts old.covered;
    counted =
        (let small = old.counted in let more = length-append {0} seen (raw ∷ []) in omega arith);
    silent = λ h.
        let ok =
          row_ok-silent _ _ _ line c (check_row-AreSound casing opts header raw line s.recipients)
            (nil_parts s.issues (issues_of c) h).1 in
        absurd (ground arith);
    summed = old.summed;
  }

  kept_lem :
      (p : Passed opts.reject_duplicate_recipients s.recipients
        (allowed_assets casing opts)
        line
        reference
        c)
      → Imported opts.reject_duplicate_recipients
          (allowed_assets casing opts)
          header
          (seen ++ raw ∷ [])
          (keep_row casing opts (some p.row) noted)
  kept_lem p =
      let grown = length-append {0} s.rows (p.row ∷ []) in
      record {
        payable = All-snoc _ s.rows p.row old.payable p.payable;
        distinct = λ reject. Distinct-snoc s.rows p.row (old.distinct reject) (
            All-weaken _ _ s.rows
              (λ q m same.
                unseen_lem _ s.recipients q.recipient p.row.recipient reject p.fresh.1 m same)
              old.covered);
        covered =
            All-snoc _ s.rows p.row
              (after_covered c.recipient s.recipients s.rows casing opts old.covered)
              (newest c.recipient s.recipients p.row.recipient casing opts p.noted);
        counted =
            (let small = old.counted in
              let more = length-append {0} seen (raw ∷ []) in omega arith);
        silent = λ h.
            map-snoc (λ (r : ParsedPayrollRow). r.recipient) s.rows p.row
            ∙ ap (λ l. l ++ p.row.recipient ∷ [])
                (old.silent (nil_parts s.issues (issues_of c) h).0)
            ∙ ap (λ r. map (recipient_of header) seen ++ r ∷ [])
                (sym
                  (read_recipient casing opts header raw line s.recipients p.row.recipient p.noted))
            ∙ sym (map-snoc (recipient_of header) seen raw);
        summed = λ key. summed_lem key s.rows p.row s.totals (old.summed key);
      }

  pub import_row-Imported :
      Imported opts.reject_duplicate_recipients
        (allowed_assets casing opts)
        header
        (seen ++ raw ∷ [])
        (import_row casing opts header raw line s)
  unfolding import_row
  import_row-Imported = elim (Bool-cases (row_ok c)) [
    | inr fails ↦ rw fails (dropped_lem fails)
    | inl ok ↦
        let p =
          row_ok-Passed opts.reject_duplicate_recipients s.recipients (allowed_assets casing opts)
            line reference c (check_row-AreSound casing opts header raw line s.recipients) ok in
        rw ok (rw (p.kept) (kept_lem p))
  ]
