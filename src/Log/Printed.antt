-- ===== src/Log/Printed.antt =====
-- What `MATRIX_print` of task2/matrix_mul/matrix.c writes for a matrix, line by line.
use pc_project_2024_mtr.Prelude.{
  ℕ, zero, suc, ◌+◌, ◌≤◌, ◌<◌, ◌≡◌, ◌≢◌, refl, ap, List, [], ◌∷◌, ◌++◌, map, Option, some, arith,
  length, get_or, ok, append_assoc,
}
use pc_project_2024_mtr.Prelude.Int.{ℤ, pos}
use pc_project_2024_mtr.Prelude.Text.{Bytes, codes}
use pc_project_2024_mtr.Matrix.{Matrix, IsValid, idx}
use pc_project_2024_mtr.Matrix.Cells.{load_lem, idx_in_range}
use pc_project_2024_mtr.Log.{print_cells, print_rows, header, matrix_print, newline}
use pc_project_2024_mtr.Log.Pieces.{split_lines, split_lines-line, Lacks, Lacks-append}
use pc_project_2024_mtr.Log.Checker.{Table}

-- The cells of a row from a column on, and the rows from one on.
abbrev pub row_cells : Matrix → ℕ → ℕ → ℕ → List ℤ
row_cells m row zero col = []
row_cells m row (suc n) col = get_or m.cells (idx row col m) (pos 0) ∷ row_cells m row n (suc col)

abbrev pub rows_from : Matrix → ℕ → ℕ → Table
rows_from m zero row = []
rows_from m (suc n) row = row_cells m row m.cols 0 ∷ rows_from m n (suc row)

abbrev pub table : Matrix → Table
table m = rows_from m m.rows 0

pub length-rows_from : (m : Matrix) (n row : ℕ) → length (rows_from m n row) ≡ n
length-rows_from m zero row = refl
length-rows_from m (suc n) row = ap suc (length-rows_from m n (suc row))

-- Bytes from `-` to `9`.
abbrev pub IsNumeral : Bytes → Type 0
IsNumeral [] = Unit
IsNumeral (b ∷ text) = (45 ≤ b) × (b ≤ 57) × IsNumeral text

-- `%ld` of `printf`, and `int` of Python, which reads what it wrote, behind a space too.
pub record Format : Type 0 where
  pub decimal : ℤ → Bytes
  pub int : Bytes → Option ℤ
  pub numeral : (v : ℤ) → IsNumeral (decimal v)
  pub some_digit : (v : ℤ) → decimal v ≢ []
  pub read_back : (v : ℤ) → int (decimal v) ≡ some v
  pub read_spaced : (v : ℤ) → int (b' ' ∷ decimal v) ≡ some v

pub numeral-Lacks_low : (b : ℕ) (text : Bytes) → b < 45 → IsNumeral text → Lacks b text
numeral-Lacks_low b [] h n = tt
numeral-Lacks_low b (c ∷ text) h (low, high, n) = (omega arith, numeral-Lacks_low b text h n)

pub numeral-Lacks_high : (b : ℕ) (text : Bytes) → 57 < b → IsNumeral text → Lacks b text
numeral-Lacks_high b [] h n = tt
numeral-Lacks_high b (c ∷ text) h (low, high, n) = (omega arith, numeral-Lacks_high b text h n)

module _ (format : Format) where
  open format use {decimal, numeral}

  -- The line of a row, and the lines of a table.
  abbrev pub row_text : List ℤ → Bytes
  row_text [] = []
  row_text (v ∷ row) = decimal v ++ (b' ' ∷ row_text row)

  abbrev pub table_text : Table → Bytes
  table_text [] = []
  table_text (row ∷ rows) = row_text row ++ (newline ∷ table_text rows)

  abbrev pub matrix_text : Matrix → Bytes
  matrix_text m = header decimal m ++ (newline ∷ table_text (table m))

  print_cells_lem :
      (m : Matrix) (row n col : ℕ)
      → IsValid m
      → row < m.rows
      → col + n ≤ m.cols
      → print_cells decimal m row n col ≡ ok (row_text (row_cells m row n col))
  unfolding print_cells
  print_cells_lem m row zero col valid inside fits = refl
  print_cells_lem m row (suc n) col valid inside fits =
      let here : idx row col m < length m.cells =
        omega (arith, valid, idx_in_range row col m.rows m.cols inside (omega arith)) in
      rw (
        load_lem m.cells (idx row col m) here,
        print_cells_lem m row n (suc col) valid inside (omega arith),
      )

  print_rows_lem :
      (m : Matrix) (n row : ℕ)
      → IsValid m
      → row + n ≤ m.rows
      → print_rows decimal m n row ≡ ok (table_text (rows_from m n row))
  unfolding print_rows
  print_rows_lem m zero row valid fits = refl
  print_rows_lem m (suc n) row valid fits = rw (
    print_cells_lem m row m.cols 0 valid (omega arith) (omega arith),
    print_rows_lem m n (suc row) valid (omega arith),
  )

  pub matrix_print_lem : (m : Matrix) → IsValid m → matrix_print decimal m ≡ ok (matrix_text m)
  unfolding matrix_print
  matrix_print_lem m valid = rw (print_rows_lem m m.rows 0 valid (omega arith))

  row_text-Lacks : (row : List ℤ) → Lacks newline (row_text row)
  row_text-Lacks [] = tt
  row_text-Lacks (v ∷ row) =
      Lacks-append newline (decimal v) (b' ' ∷ row_text row)
        (numeral-Lacks_low newline (decimal v) (omega arith) (numeral v))
        (omega arith, row_text-Lacks row)

  header-Lacks : (m : Matrix) → Lacks newline (header decimal m)
  header-Lacks m = Lacks-append newline (codes "Matrix<") _ (omega arith) (
      Lacks-append newline (decimal (pos m.rows)) _
        (numeral-Lacks_low newline _ (omega arith) (numeral (pos m.rows)))
        (
          omega arith,
          (
            omega arith,
            Lacks-append newline (decimal (pos m.cols)) _
                (numeral-Lacks_low newline _ (omega arith) (numeral (pos m.cols)))
                (omega arith, tt),
          ),
        ))

  split_lines-table :
      (rows : Table) (rest : Bytes)
      → split_lines (table_text rows ++ rest) ≡ map row_text rows ++ split_lines rest
  split_lines-table [] rest = refl
  split_lines-table (row ∷ rows) rest = rw (
    append_assoc (row_text row) (newline ∷ table_text rows) rest,
    split_lines-line (row_text row) (table_text rows ++ rest) (row_text-Lacks row),
    split_lines-table rows rest,
  )

  -- The lines of a matrix, with more behind it.
  pub split_lines-matrix :
      (m : Matrix) (rest : Bytes)
      → split_lines (matrix_text m ++ rest)
        ≡ header decimal m ∷ (map row_text (table m) ++ split_lines rest)
  split_lines-matrix m rest = rw (
    append_assoc (header decimal m) (newline ∷ table_text (table m)) rest,
    split_lines-line (header decimal m) (table_text (table m) ++ rest) (header-Lacks m),
    split_lines-table (table m) rest,
  )
