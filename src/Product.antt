-- ===== src/Product.antt =====
-- The product of two matrices as `multiply` of task2/matrix_mul/sequential.c and
-- `sub_multiplication_handler` of parallel.c compute it, and as mathematics defines it.
pub mod Sequential
pub mod Parallel
pub mod Inner
use pc_project_2024_mtr.Prelude.{
  neb, ℕ, zero, suc, ◌+◌, ◌-◌, ◌*◌, ◌/◌, ◌%◌, ◌≡◌, ◌&&◌, ◌||◌, Bool, List, if◌then◌else◌, ◌==◌, ltb,
  leb, get_or, length, Outcome, ok, exit, fault, ◌>>=◌, Error, arith,
}
use pc_project_2024_mtr.Prelude.Int.{ℤ, pos, ◌+ℤ◌, ◌*ℤ◌}
use pc_project_2024_mtr.Matrix.{Matrix, IsValid, idx, load, store}

-- The sum of `a[row, k] * b[k, col]` over the `k < n`.
unfoldable pub dot : Matrix → Matrix → ℕ → ℕ → ℕ → ℤ
dot a b row col zero = pos 0
dot a b row col (suc n) =
    dot a b row col n
    +ℤ get_or a.cells (idx row n a) (pos 0) *ℤ get_or b.cells (idx n col b) (pos 0)

-- Cell `i` of the product.
abbrev pub cell : Matrix → Matrix → ℕ → ℤ
cell a b i = dot a b (i / b.cols) (i % b.cols) a.cols

-- The guard of `multiply` and of `request_multiplication`.
abbrev pub mismatch : Matrix → Matrix → Matrix → Bool
mismatch a b product = neb a.cols b.rows || neb a.rows product.rows || neb b.cols product.cols

-- `data[i] += a[row, k] * b[k, col]`, the body of the innermost loop of both programs.
unfoldable pub add_product : Matrix → Matrix → ℕ → ℕ → ℕ → ℕ → List ℤ → Outcome (List ℤ)
add_product a b row col k i cells = do
  v ← load cells i
  x ← load a.cells (idx row k a)
  y ← load b.cells (idx k col b)
  store cells i (v +ℤ x *ℤ y)

-- The innermost loop: `n` rounds from `k` on.
unfoldable pub add_products : Matrix → Matrix → ℕ → ℕ → ℕ → ℕ → ℕ → List ℤ → Outcome (List ℤ)
add_products a b row col i zero k cells = ok cells
add_products a b row col i (suc n) k cells = do
  cells' ← add_product a b row col k i cells
  add_products a b row col i n (suc k) cells'

-- `data[i] = 0` and the innermost loop.
unfoldable pub compute_cell : Matrix → Matrix → ℕ → ℕ → ℕ → List ℤ → Outcome (List ℤ)
compute_cell a b row col i cells = do
  cells' ← store cells i (pos 0)
  add_products a b row col i a.cols 0 cells'

-- `multiply` of sequential.c: `n` columns of a row from `col` on.
unfoldable pub multiply_cols : Matrix → Matrix → Matrix → ℕ → ℕ → ℕ → List ℤ → Outcome (List ℤ)
multiply_cols a b product row zero col cells = ok cells
multiply_cols a b product row (suc n) col cells = do
  cells' ← compute_cell a b row col (idx row col product) cells
  multiply_cols a b product row n (suc col) cells'

-- `n` rows from `row` on.
unfoldable pub multiply_rows : Matrix → Matrix → Matrix → ℕ → ℕ → List ℤ → Outcome (List ℤ)
multiply_rows a b product zero row cells = ok cells
multiply_rows a b product (suc n) row cells = do
  cells' ← multiply_cols a b product row product.cols 0 cells
  multiply_rows a b product n (suc row) cells'

-- `multiply`, with the new value of `*product`, which is neither operand.
unfoldable pub multiply : Matrix → Matrix → Matrix → Outcome Matrix
multiply a b product = if mismatch a b product then exit Error.bad_dimension else do
  cells ← multiply_rows a b product product.rows 0 product.cells
  ok (record product { cells = cells })

-- `++col; if (col == res->cols) { col = 0; ++row; }`
abbrev pub next_row : ℕ → ℕ → ℕ → ℕ
next_row cols row col = if suc col == cols then suc row else row

abbrev pub next_col : ℕ → ℕ → ℕ
next_col cols col = if suc col == cols then 0 else suc col

-- The loop of `sub_multiplication_handler`: `n` cells from `i` on, with the row and column of `i`.
unfoldable pub handle_cells : Matrix → Matrix → ℕ → ℕ → ℕ → ℕ → ℕ → List ℤ → Outcome (List ℤ)
handle_cells a b cols zero i row col cells = ok cells
handle_cells a b cols (suc n) i row col cells = do
  cells' ← compute_cell a b row col i cells
  handle_cells a b cols n (suc i) (next_row cols row col) (next_col cols col) cells'

-- `sub_multiplication_handler` on a task for the cells from `start` up to `end` of `res`, which is
-- neither operand. `start / 0` is undefined behaviour.
unfoldable pub handle_task : Matrix → Matrix → Matrix → ℕ → ℕ → Outcome Matrix
handle_task a b res start end = if res.cols == 0 then fault else do
  cells ←
      handle_cells a b res.cols (end - start) start (start / res.cols) (start % res.cols) res.cells
  ok (record res { cells = cells })
