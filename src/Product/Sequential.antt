-- ===== src/Product/Sequential.antt =====
-- `multiply` of task2/matrix_mul/sequential.c against the sums of products.
use pc_project_2024_mtr.Prelude.{
  ◌∙◌, ap, sym, ℕ, zero, suc, ◌+◌, ◌*◌, ◌<◌, ◌≡◌, ◌≢◌, ◌⊎◌, refl, List, length, length-set, set,
  arith, ok, exit, Error, false,
}
use pc_project_2024_mtr.Prelude.Int.{ℤ}
use pc_project_2024_mtr.Matrix.{Matrix, IsValid, idx}
use pc_project_2024_mtr.Matrix.Cells.{
  fill, fill-fill, fill-nothing, length-fill, idx_in_range, div_unique, mod_unique,
}
use pc_project_2024_mtr.Product.{
  dot, cell, mismatch, compute_cell, multiply_cols, multiply_rows, multiply,
}
use pc_project_2024_mtr.Product.Inner.{compute_cell_lem}

-- Three matrices that may be multiplied.
pub record Fits (a b product : Matrix) : Type 0 where
  pub left : IsValid a
  pub right : IsValid b
  pub target : IsValid product
  pub inner : a.cols ≡ b.rows
  pub same_rows : a.rows ≡ product.rows
  pub same_cols : b.cols ≡ product.cols

-- At its row and column a cell of the product is the sum of products.
pub cell_lem :
    (a b : Matrix) (row col i : ℕ)
    → row * b.cols + col ≡ i
    → col < b.cols
    → cell a b i ≡ dot a b row col a.cols
cell_lem a b row col i e h = rw (div_unique row col b.cols i e h, mod_unique row col b.cols i e h)

module _ (a b product : Matrix) (fits : Fits a b product) where
  open fits use {left, right, target, inner, same_rows, same_cols}

  -- One cell, whichever loop it is computed in.
  pub compute_cell-eq-cell :
      (row col i : ℕ) (cells : List ℤ)
      → row < product.rows
      → col < product.cols
      → row * product.cols + col ≡ i
      → length cells ≡ product.rows * product.cols
      → compute_cell a b row col i cells ≡ ok (set cells i (cell a b i))
  compute_cell-eq-cell row col i cells hr hc e len =
      compute_cell_lem a b left right inner row col (omega arith) (omega arith) i cells
        (omega (arith, idx_in_range row col product.rows product.cols hr hc))
      ∙ ap (λ v. ok (set cells i v))
          (sym (cell_lem a b row col i (omega (arith, ap (λ c. row * c) same_cols)) (omega arith)))

  multiply_cols_lem :
      (n row col i : ℕ) (cells : List ℤ)
      → row < product.rows
      → col + n ≡ product.cols
      → row * product.cols + col ≡ i
      → length cells ≡ product.rows * product.cols
      → multiply_cols a b product row n col cells ≡ ok (fill (cell a b) i n cells)
  unfolding multiply_cols fill
  multiply_cols_lem zero row col i cells hr hc e len = refl
  multiply_cols_lem (suc n) row col i cells hr hc e len =
      rw (compute_cell-eq-cell row col (idx row col product) cells hr (omega arith) refl len, e)
        (multiply_cols_lem n row (suc col) (suc i) (set cells i (cell a b i)) hr (omega arith)
          (omega arith) (omega (arith, length-set cells i (cell a b i))))

  multiply_rows_lem :
      (n row : ℕ) (cells : List ℤ)
      → row + n ≡ product.rows
      → length cells ≡ product.rows * product.cols
      → multiply_rows a b product n row cells
        ≡ ok (fill (cell a b) (row * product.cols) (n * product.cols) cells)
  unfolding multiply_rows
  multiply_rows_lem zero row cells hr len =
      ap ok
        (sym (fill-nothing (cell a b) (row * product.cols) (0 * product.cols) cells (omega arith)))
  multiply_rows_lem (suc n) row cells hr len =
      rw
        (
          multiply_cols_lem product.cols row 0 (row * product.cols) cells (omega arith)
              (omega arith) (omega arith) len,
          multiply_rows_lem n (suc row) (fill (cell a b) (row * product.cols) product.cols cells)
              (omega arith)
              (omega (arith, length-fill (cell a b) (row * product.cols) product.cols cells)),
        )
        (ap ok (
          fill-fill (cell a b) (row * product.cols) product.cols (n * product.cols) _ _ cells
            (omega arith) (omega arith)))

  -- On three matrices whose dimensions fit and that have a cell for each row and column, `multiply` goes
  -- through, whatever the product held before, and puts into each of its cells the sum of products for
  -- that cell's row and column.
  pub multiply_lem :
      multiply a b product
      ≡ ok
          (record product { cells = fill (cell a b) 0 (product.rows * product.cols) product.cells })
  unfolding multiply
  multiply_lem =
      rw (fits_pass, multiply_rows_lem product.rows 0 product.cells (omega arith) target)
        (ap
          (λ z. ok (record product {
            cells = fill (cell a b) z (product.rows * product.cols) product.cells;
          }))
          (omega arith))
    where
      fits_pass : mismatch a b product ≡ false
      fits_pass = ground arith

-- `multiply` exits if the dimensions of the matrices do not fit.
pub multiply-mismatch :
    (a b product : Matrix)
    → ((a.cols ≢ b.rows) ⊎ (a.rows ≢ product.rows) ⊎ (b.cols ≢ product.cols))
    → multiply a b product ≡ exit Error.bad_dimension
unfolding multiply
multiply-mismatch a b product h = ground arith
