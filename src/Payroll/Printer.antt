-- ===== src/Payroll/Printer.antt =====
-- A printer of quoted fields, as RFC 4180 has them, and the reader of csv.ts on what it prints.
use core_flow.Prelude.{
  ℕ, ◌≡◌, refl, sym, ap, ◌∙◌, inl, inr, true, false, List, [], ◌∷◌, ◌++◌, Option, some, ◌==◌,
  nat_eq, option_eq, filter, All, if◌then◌else◌, Bool-cases, arith, ℕ_discrete, option_discrete,
  eq-eq_true, eq_self,
}
use mathlib.Core.List.{append_assoc, append-nil}
use mathlib.Core.Option.{some-injective}
use core_flow.Payroll.Reader.{
  Text, is_nil, head?, Reader, start, end_field, is_open, end_row, quoted_step, plain_step, step,
  read, without_mark, is_written, parse_csv_text,
}

-- A quote inside a field is written twice.
unfoldable pub escape : Text → Text
escape [] = []
escape (c ∷ s) = let rest = escape s in if c == 34 then 34 ∷ 34 ∷ rest else c ∷ rest

-- The fields of a row, each in quotes, and the end of the line.
unfoldable pub print_row : List Text → Text
print_row [] = 10 ∷ []
print_row (f ∷ []) = 34 ∷ escape f ++ 34 ∷ 10 ∷ []
print_row (f ∷ g ∷ fields) = 34 ∷ escape f ++ 34 ∷ 44 ∷ print_row (g ∷ fields)

unfoldable pub print_csv : List (List Text) → Text
print_csv [] = []
print_csv (row ∷ rows) = print_row row ++ print_csv rows

abbrev inside : List (List Text) → List Text → Text → Reader
inside rows row field = record {
  rows = rows;
  row = row;
  field = field;
  quoted = true;
  saw_field = true;
  skip = false;
}

some_differs : (d : ℕ) → (d == 34) ≡ false → (some d == some 34) ≡ false
some_differs d h = elim (Bool-cases (some d == some 34)) [
  | inr e ↦ e
  | inl e ↦
      let same : d ≡ 34 = some-injective d 34 (eq-eq_true (some d) (some 34) e) in
      absurd (ground (arith, (rw same at h), (eq_self {A = ℕ} 34)))
]

quoted_step-other :
    (c : ℕ) (next : Option ℕ) (s : Reader)
    → (c == 34) ≡ false
    → quoted_step c next s ≡ record s { field = s.field ++ c ∷ [] }
unfolding quoted_step
quoted_step-other c next s h = rw h refl

-- Inside quotes, an escaped field is read to its closing quote.
read-escape :
    (f rest field : Text) (d : ℕ) (rows : List (List Text)) (row : List Text)
    → (d == 34) ≡ false
    → read (escape f ++ 34 ∷ d ∷ rest) (inside rows row field)
      ≡ read (d ∷ rest) (record (inside rows row (field ++ f)) { quoted = false })
unfolding read step quoted_step escape ℕ_discrete option_discrete
read-escape [] rest field d rows row h = rw (some_differs d h, append-nil field) refl
read-escape (c ∷ f) rest field d rows row h = elim (Bool-cases (c == 34)) [
  | inl quote ↦ rw quote (
      read-escape f rest (field ++ 34 ∷ []) d rows row h
      ∙ ap (λ t. read (d ∷ rest) (record (inside rows row t) { quoted = false }))
          (append_assoc field (34 ∷ []) f ∙ ap (λ q. field ++ q ∷ f) (sym (eq-eq_true c 34 quote))))
  | inr other ↦ rw other (
      ap (read (escape f ++ 34 ∷ d ∷ rest))
        (quoted_step-other c (head? (escape f ++ 34 ∷ d ∷ rest)) (inside rows row field) other)
      ∙ read-escape f rest (field ++ c ∷ []) d rows row h
      ∙ ap (λ t. read (d ∷ rest) (record (inside rows row t) { quoted = false }))
          (append_assoc field (c ∷ []) f))
]

abbrev between : List (List Text) → List Text → Reader
between rows row = record {
  rows = rows;
  row = row;
  field = [];
  quoted = false;
  saw_field = false;
  skip = false;
}

nonempty : (row : List Text) (f : Text) (fields : List Text) → is_nil (row ++ f ∷ fields) ≡ false
nonempty [] f fields = refl
nonempty (g ∷ row) f fields = refl

read-print_row :
    (f : Text) (fields : List Text) (rest : Text) (rows : List (List Text)) (row : List Text)
    → read (print_row (f ∷ fields) ++ rest) (between rows row)
      ≡ read rest (between (rows ++ (row ++ f ∷ fields) ∷ []) [])
unfolding read step plain_step print_row end_field end_row ℕ_discrete
read-print_row f [] rest rows row =
    ap (λ t. read t (inside rows row [])) (append_assoc (escape f) (34 ∷ 10 ∷ []) rest)
    ∙ read-escape f rest [] 10 rows row refl
    ∙ rw (nonempty row f []) refl
read-print_row f (g ∷ fields) rest rows row =
    ap (λ t. read t (inside rows row []))
      (append_assoc (escape f) (34 ∷ 44 ∷ print_row (g ∷ fields)) rest)
    ∙ read-escape f (print_row (g ∷ fields) ++ rest) [] 44 rows row refl
    ∙ read-print_row g fields rest rows (row ++ f ∷ [])
    ∙ ap (λ t. read rest (between (rows ++ t ∷ []) [])) (append_assoc row (f ∷ []) (g ∷ fields))

-- Rows, each with a field at least.
abbrev pub Filled : List (List Text) → Type 0
Filled rows = All (λ row. is_nil row ≡ false) rows

read-print_csv :
    (table rows : List (List Text))
    → Filled table
    → read (print_csv table) (between rows []) ≡ between (rows ++ table) []
unfolding print_csv read
read-print_csv [] rows h = ap (λ t. between t []) (sym (append-nil rows))
read-print_csv ([] ∷ table) rows h = absurd (ground arith)
read-print_csv ((f ∷ fields) ∷ table) rows h =
    read-print_row f fields (print_csv table) rows []
    ∙ read-print_csv table (rows ++ (f ∷ fields) ∷ []) h.1
    ∙ ap (λ t. between t []) (append_assoc rows ((f ∷ fields) ∷ []) table)

-- A printed table does not begin with a byte order mark.
unmarked :
    (table : List (List Text)) → Filled table → without_mark (print_csv table) ≡ print_csv table
unfolding print_csv print_row ℕ_discrete
unmarked [] h = refl
unmarked ([] ∷ table) h = absurd (ground arith)
unmarked ((f ∷ []) ∷ table) h = refl
unmarked ((f ∷ g ∷ fields) ∷ table) h = refl

-- Rows that are printed with every field in quotes are read back, whatever the fields hold, apart
-- from the rows that are blank.
pub parse_csv_text-print_csv :
    (table : List (List Text))
    → Filled table
    → parse_csv_text (print_csv table) ≡ filter is_written table
unfolding parse_csv_text
parse_csv_text-print_csv table h =
    ap
      (λ t.
        filter is_written
          (if is_open (read t start) then end_row (read t start) else read t start).rows)
      (unmarked table h)
    ∙ ap (λ s. filter is_written (if is_open s then end_row s else s).rows)
        (read-print_csv table [] h)
