-- ===== src/Operand.antt =====
-- `random_number` and `init_operand` of task2/matrix_mul/common.c: the entries of the operands.
pub mod Bounds
use pc_project_2024_mtr.Prelude.{ℕ, zero, suc, ◌+◌, ◌*◌, ◌%◌, List, [], ◌∷◌, Outcome, ok, ◌>>=◌}
use pc_project_2024_mtr.Prelude.Int.{ℤ, pos, ◌-ℤ◌}
use pc_project_2024_mtr.Matrix.{Matrix, store}

-- `random_number`, in the call that makes the `call`-th call of the C library's `rand`.
unfoldable pub random_number : (ℕ → ℕ) → ℕ → ℤ
random_number rand call = pos (rand call % 11) -ℤ pos 5

-- The inner loop of `init_operand`: `n` cells from `idx` on.
unfoldable pub init_cells : (ℕ → ℕ) → ℕ → ℕ → ℕ → List ℤ → Outcome (List ℤ)
init_cells rand call zero idx cells = ok cells
init_cells rand call (suc n) idx cells = do
  cells' ← store cells idx (random_number rand call)
  init_cells rand (suc call) n (suc idx) cells'

-- `init_operand`, on the array of matrices from one on; `call` calls of `rand` have been made.
unfoldable pub init_operand : (ℕ → ℕ) → ℕ → List Matrix → Outcome (List Matrix)
init_operand rand call [] = ok []
init_operand rand call (m ∷ operands) = do
  cells ← init_cells rand call (m.cols * m.rows) 0 m.cells
  rest ← init_operand rand (call + m.cols * m.rows) operands
  ok (record m { cells = cells } ∷ rest)
