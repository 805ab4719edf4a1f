-- ===== src/Matrix.antt =====
-- task2/matrix_mul/matrix.h and matrix.c: matrices stored row by row in one array.
-- `long long` entries are unbounded integers; `Operand.Bounds` is about how large they get. Reads and
-- writes outside the array are faults.
pub mod Cells
pub mod Creation
use pc_project_2024_mtr.Prelude.{
  ℕ, ◌+◌, ◌*◌, ◌≡◌, ◌||◌, List, Option, none, some, ltb, length, get_elem?, set, if◌then◌else◌,
  Outcome, ok, exit, fault, ◌>>=◌, or_fault, Error,
}
use pc_project_2024_mtr.Prelude.Int.{ℤ, pos, pos_part, leb_ℤ}

-- `struct Matrix`; its array is the one that only this matrix points to.
pub record Matrix : Type 0 where
  pub rows : ℕ
  pub cols : ℕ
  pub cells : List ℤ

-- The array has a cell for each row and column.
abbrev pub IsValid : Matrix → Type 0
IsValid m = length m.cells ≡ m.rows * m.cols

-- `MATRIX_idx`
abbrev pub idx : ℕ → ℕ → Matrix → ℕ
idx row col m = row * m.cols + col

-- `data[i]`
unfoldable pub load : List ℤ → ℕ → Outcome ℤ
load cells i = or_fault (get_elem? cells i)

-- `data[i] = v`
unfoldable pub store : List ℤ → ℕ → ℤ → Outcome (List ℤ)
store cells i v = if ltb i (length cells) then ok (set cells i v) else fault
