-- ===== src/Product/Parallel.antt =====
-- `sub_multiplication_handler` of task2/matrix_mul/parallel.c against the sums of products.
use pc_project_2024_mtr.Prelude.{
  ℕ, zero, suc, ◌+◌, ◌-◌, ◌*◌, ◌/◌, ◌%◌, ◌<◌, ◌≤◌, ◌≡◌, refl, List, length, length-set, set, arith,
  ok, ◌==◌, true, false, dec_lt,
}
use pc_project_2024_mtr.Prelude.Int.{ℤ}
use pc_project_2024_mtr.Matrix.{Matrix}
use pc_project_2024_mtr.Matrix.Cells.{fill}
use pc_project_2024_mtr.Product.{cell, handle_cells, handle_task}
use pc_project_2024_mtr.Product.Sequential.{Fits, compute_cell-eq-cell}

module _ (a b res : Matrix) (fits : Fits a b res) where
  -- The row and column kept by the handler are those of the cell `i`.
  handle_cells_lem :
      (n i row col : ℕ) (cells : List ℤ)
      → i + n ≤ res.rows * res.cols
      → row * res.cols + col ≡ i
      → col < res.cols
      → length cells ≡ res.rows * res.cols
      → handle_cells a b res.cols n i row col cells ≡ ok (fill (cell a b) i n cells)
  unfolding handle_cells fill
  handle_cells_lem zero i row col cells hi e hc len = refl
  handle_cells_lem (suc n) i row col cells hi e hc len =
      rw (compute_cell-eq-cell a b res fits row col i cells in_row hc e len)
        (elim (dec_lt (suc col) res.cols) [
          | yes more ↦ rw (not_last more) (
              handle_cells_lem n (suc i) row (suc col) (set cells i (cell a b i)) (omega arith)
                (omega arith) more (omega (arith, length-set cells i (cell a b i))))
          | no over ↦ rw (at_last over) (
              handle_cells_lem n (suc i) (suc row) 0 (set cells i (cell a b i)) (omega arith)
                (omega arith) (omega arith) (omega (arith, length-set cells i (cell a b i))))
        ])
    where
      in_row : row < res.rows
      in_row = grind arith

      not_last : suc col < res.cols → (suc col == res.cols) ≡ false
      not_last h = ground arith

      at_last : ¬ (suc col < res.cols) → (suc col == res.cols) ≡ true
      at_last h = ground arith

  -- A task for a range of cells that lie in the matrix: the handler goes through, puts the sums of
  -- products into these cells, and leaves the others.
  pub handle_task_lem :
      (start end : ℕ)
      → start < end
      → end ≤ res.rows * res.cols
      → handle_task a b res start end
        ≡ ok (record res { cells = fill (cell a b) start (end - start) res.cells })
  unfolding handle_task
  handle_task_lem start end h he = rw (
    some_cols,
    handle_cells_lem (end - start) start (start / res.cols) (start % res.cols) res.cells
        (omega arith) (grind arith) (grind arith) fits.target,
  )
    where
      some_cols : (res.cols == 0) ≡ false
      some_cols = grind arith
