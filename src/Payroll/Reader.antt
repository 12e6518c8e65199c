-- ===== src/Payroll/Reader.antt =====
-- `parseCsvText`, src/lib/payroll/csv.ts: the reader of quoted fields, over the code units of the
-- text. The loop's `i++` inside its body is `skip`.
use core_flow.Prelude.{
  ℕ, Bool, true, false, ◌||◌, not, List, [], ◌∷◌, ◌++◌, Option, none, some, ◌==◌, nat_eq, option_eq,
  any, filter, if◌then◌else◌,
}
use core_flow.Prelude.Text.{trim}

abbrev pub Text : Type 0
Text = List ℕ

abbrev pub is_nil {ℓ} : {A : Type ℓ} → List A → Bool
is_nil [] = true
is_nil (x ∷ xs) = false

abbrev pub head? : Text → Option ℕ
head? [] = none
head? (c ∷ s) = some c

pub record Reader : Type 0 where
  pub rows : List (List Text)
  pub row : List Text
  pub field : Text
  pub quoted : Bool
  pub saw_field : Bool
  pub skip : Bool

abbrev pub start : Reader
start = record { rows = []; row = []; field = []; quoted = false; saw_field = false; skip = false }

unfoldable pub end_field : Reader → Reader
end_field s = record s { row = s.row ++ s.field ∷ []; field = []; saw_field = false }

abbrev pub is_open : Reader → Bool
is_open s = s.saw_field || not (is_nil s.field) || not (is_nil s.row)

unfoldable pub end_row : Reader → Reader
end_row s =
    let row = if is_open s then s.row ++ s.field ∷ [] else s.row in
    record s {
      rows = if is_nil row then s.rows else s.rows ++ row ∷ [];
      row = [];
      field = if is_open s then [] else s.field;
      saw_field = false;
    }

unfoldable pub quoted_step : ℕ → Option ℕ → Reader → Reader
quoted_step c next s =
    if not (c == 34)
    then record s { field = s.field ++ c ∷ [] }
    else if next == some 34
    then record s { field = s.field ++ 34 ∷ []; skip = true }
    else record s { quoted = false }

unfoldable pub plain_step : ℕ → Option ℕ → Reader → Reader
plain_step c next s =
    if c == 34
    then record s { quoted = true; saw_field = true }
    else if c == 44
    then end_field s
    else if c == 10
    then end_row s
    else if c == 13
    then end_row (record s { skip = next == some 10 })
    else record s { field = s.field ++ c ∷ []; saw_field = true }

unfoldable pub step : ℕ → Option ℕ → Reader → Reader
step c next s =
    if s.skip
    then record s { skip = false }
    else if s.quoted
    then quoted_step c next s
    else plain_step c next s

unfoldable pub read : Text → Reader → Reader
read [] s = s
read (c ∷ rest) s = read rest (step c (head? rest) s)

abbrev pub without_mark : Text → Text
without_mark [] = []
without_mark (c ∷ s) = if c == 0xfeff then s else c ∷ s

abbrev pub is_written : List Text → Bool
is_written row = any (λ f. not (is_nil (trim f))) row

unfoldable pub parse_csv_text : Text → List (List Text)
parse_csv_text text =
    let s = read (without_mark text) start in
    filter is_written (if is_open s then end_row s else s).rows
