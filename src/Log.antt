-- ===== src/Log.antt =====
-- The log file of the two multiplication programs: `MATRIX_print` of task2/matrix_mul/matrix.c, the loop of
-- `main` that calls it, and `main` of sequential.c up to there.
pub mod Pieces
pub mod Checker
pub mod Printed
pub mod Read
pub mod Programs
use pc_project_2024_mtr.Prelude.{ℕ, zero, suc, ◌≡◌, Bool, List, [], ◌∷◌, ◌++◌, Outcome, ok, ◌>>=◌}
use pc_project_2024_mtr.Prelude.Int.{ℤ, pos}
use pc_project_2024_mtr.Prelude.Text.{Bytes, codes}
use pc_project_2024_mtr.Matrix.{Matrix, idx, load}
use pc_project_2024_mtr.Product.{multiply}

-- What `main` logs of an operation: `operand_as[i]`, `operand_bs[i]` and `products[i]`.
pub record Logged : Type 0 where
  pub operand_a : Matrix
  pub operand_b : Matrix
  pub product : Matrix

abbrev pub newline : ℕ
newline = 10

-- The loop of `main` of sequential.c that multiplies; the products hold anything before.
unfoldable pub multiply_all : List Logged → Outcome (List Logged)
multiply_all [] = ok []
multiply_all (operation ∷ operations) = do
  product ← multiply operation.operand_a operation.operand_b operation.product
  rest ← multiply_all operations
  ok (record operation { product = product } ∷ rest)

-- `decimal` is what `printf` writes for `%ld`.
module _ (decimal : ℤ → Bytes) where
  -- The inner loop of `MATRIX_print`: `n` columns from `col` on.
  unfoldable pub print_cells : Matrix → ℕ → ℕ → ℕ → Outcome Bytes
  print_cells m row zero col = ok []
  print_cells m row (suc n) col = do
    v ← load m.cells (idx row col m)
    rest ← print_cells m row n (suc col)
    ok (decimal v ++ (b' ' ∷ rest))

  -- The outer loop: `n` rows from `row` on.
  unfoldable pub print_rows : Matrix → ℕ → ℕ → Outcome Bytes
  print_rows m zero row = ok []
  print_rows m (suc n) row = do
    line ← print_cells m row m.cols 0
    rest ← print_rows m n (suc row)
    ok (line ++ (newline ∷ rest))

  -- The first line of `MATRIX_print`.
  abbrev pub header : Matrix → Bytes
  header m =
      codes "Matrix<"
      ++ (decimal (pos m.rows) ++ (b',' ∷ b' ' ∷ (decimal (pos m.cols) ++ (b'>' ∷ []))))

  -- `MATRIX_print`
  unfoldable pub matrix_print : Matrix → Outcome Bytes
  matrix_print m = do rows ← print_rows m m.rows 0; ok (header m ++ (newline ∷ rows))

  -- The loop of `main` that logs the operations from `i` on.
  unfoldable pub write_log : ℕ → List Logged → Outcome Bytes
  write_log i [] = ok []
  write_log i (operation ∷ operations) = do
    a ← matrix_print operation.operand_a
    b ← matrix_print operation.operand_b
    p ← matrix_print operation.product
    rest ← write_log (suc i) operations
    ok (codes "Operation " ++ (decimal (pos i) ++ (b':' ∷ newline ∷ (a ++ (b ++ (p ++ rest))))))

  -- `main` of sequential.c from there on, with `log_products`.
  unfoldable pub log_products : List Logged → Outcome Bytes
  log_products operations = do done ← multiply_all operations; write_log 0 done
