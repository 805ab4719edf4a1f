-- ===== src/Log/Checker.antt =====
-- task2/matrix_mul/check_answers.py: what the checker of the log files reads, and what it reports.
use pc_project_2024_mtr.Prelude.{
  ℕ, zero, suc, Bool, true, false, List, [], ◌∷◌, ◌++◌, Option, none, some, length, get_elem?, take,
  drop, ◌==◌, ◌&&◌,
}
use pc_project_2024_mtr.Prelude.Int.{ℤ, pos}
use pc_project_2024_mtr.Prelude.Text.{Bytes, codes}
use pc_project_2024_mtr.Log.Pieces.{split_lines, split_on, split_words}

infixl 5 ◌>>=◌
abbrev pub ◌>>=◌ {ℓ κ} : {A : Type ℓ} {B : Type κ} → Option A → (A → Option B) → Option B
none >>= f = none
some a >>= f = f a

-- The rows of a matrix as lists.
abbrev pub Table : Type 0
Table = List (List ℤ)

-- `text.startswith(start)`
unfoldable pub starts_with : Bytes → Bytes → Bool
starts_with [] text = true
starts_with (b ∷ start) [] = false
starts_with (b ∷ start) (c ∷ text) = b == c && starts_with start text

-- `rows, cols = …`: the number of rows, where there are two numbers. No log has a negative one.
unfoldable pub row_count : List ℤ → Option ℕ
row_count (pos rows ∷ cols ∷ []) = some rows
row_count _ = none

-- `int` of Python. An exception is `none`.
module _ (int : Bytes → Option ℤ) where
  -- `[int(j) for j in words]`
  unfoldable pub read_ints : List Bytes → Option (List ℤ)
  read_ints [] = some []
  read_ints (word ∷ words) = do v ← int word; rest ← read_ints words; some (v ∷ rest)

  -- `[[int(j) for j in row.split()] for row in lines]`
  unfoldable pub read_rows : List Bytes → Option Table
  read_rows [] = some []
  read_rows (line ∷ lines) = do
    row ← read_ints (split_words line)
    rest ← read_rows lines
    some (row ∷ rest)

  -- The first line of a matrix.
  unfoldable pub read_header : Bytes → Option ℕ
  read_header line = do
    behind ← get_elem? (split_on b'<' line) 1
    inside ← get_elem? (split_on b'>' behind) 0
    sizes ← read_ints (split_on b',' inside)
    row_count sizes

  -- `read_matrix`, on the lines from `i` on; the lines behind the matrix are left.
  unfoldable pub read_matrix : List Bytes → Option (Table × List Bytes)
  read_matrix [] = none
  read_matrix (line ∷ text) = do
    rows ← read_header line
    table ← read_rows (take rows text)
    some (table, drop rows text)

-- `matches` is the test `(matrix(a) * matrix(b) == p).all()` of numpy.
module _ (int : Bytes → Option ℤ) (matches : Table → Table → Table → Bool) where
  -- The loop of `main`: whether it prints `SUCCESS!`. Each round reads a line.
  unfoldable pub check : ℕ → List Bytes → Option Bool
  check zero text = none
  check (suc fuel) [] = none
  check (suc fuel) (line ∷ text) = elim (starts_with (codes "Operation") line) [
    | false ↦ some true
    | true ↦ do
      (a, text) ← read_matrix int text
      (b, text) ← read_matrix int text
      (p, text) ← read_matrix int text
      elim (matches a b p) [ true ↦ check fuel text | false ↦ some false ]
  ]

  -- `main`, on the text of the file.
  unfoldable pub check_answers : Bytes → Option Bool
  check_answers file = let text = split_lines file ++ ([] ∷ []) in check (length text) text
