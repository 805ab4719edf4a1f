-- ===== src/Product/Inner.antt =====
-- The innermost loop of both programs, for one cell.
use pc_project_2024_mtr.Prelude.{
  sym, set_same, ◌∙◌, ap, ℕ, zero, suc, ◌+◌, ◌<◌, ◌≡◌, List, length, length-set, set, set-set, some,
  get_elem?, get_elem?-set_self, arith, ok,
}
use pc_project_2024_mtr.Prelude.Int.{ℤ, pos}
use pc_project_2024_mtr.Matrix.{Matrix, IsValid, idx, load}
use pc_project_2024_mtr.Matrix.Cells.{load_lem, store_lem, idx_in_range}
use pc_project_2024_mtr.Product.{dot, add_product, add_products, compute_cell}

load-some : (cells : List ℤ) (i : ℕ) (v : ℤ) → get_elem? cells i ≡ some v → load cells i ≡ ok v
unfolding load
load-some cells i v e = rw e

module _ (a b : Matrix) (va : IsValid a) (vb : IsValid b) (inner : a.cols ≡ b.rows) (row col : ℕ)
    (in_row : row < a.rows) (in_col : col < b.cols) where
  a_in : (k : ℕ) → k < a.cols → idx row k a < length a.cells
  a_in k h = omega (arith, va, idx_in_range row k a.rows a.cols in_row h)

  b_in : (k : ℕ) → k < a.cols → idx k col b < length b.cells
  b_in k h = omega (arith, vb, idx_in_range k col b.rows b.cols (omega arith) in_col)

  pub add_product_lem :
      (k i : ℕ) (cells : List ℤ)
      → k < a.cols
      → i < length cells
      → get_elem? cells i ≡ some (dot a b row col k)
      → add_product a b row col k i cells ≡ ok (set cells i (dot a b row col (suc k)))
  unfolding add_product dot
  add_product_lem k i cells h hi e =
      rw
        (
          load-some cells i _ e,
          load_lem a.cells (idx row k a) (a_in k h),
          load_lem b.cells (idx k col b) (b_in k h),
        )
        (store_lem cells i _ hi)

  add_products_lem :
      (n k i : ℕ) (cells : List ℤ)
      → k + n ≡ a.cols
      → i < length cells
      → get_elem? cells i ≡ some (dot a b row col k)
      → add_products a b row col i n k cells ≡ ok (set cells i (dot a b row col a.cols))
  unfolding add_products
  add_products_lem zero k i cells e hi at_i =
      ap ok (sym (set_same cells i _ (at_i ∙ ap (λ m. some (dot a b row col m)) (omega arith))))
  add_products_lem (suc n) k i cells e hi at_i = rw (
    add_product_lem k i cells (omega arith) hi at_i,
    add_products_lem n (suc k) i (set cells i (dot a b row col (suc k))) (omega arith)
        (omega (arith, length-set cells i (dot a b row col (suc k))))
        (get_elem?-set_self cells i _ hi),
    set-set,
  )

  -- A cell that lies in the array is given its value, and nothing else changes.
  pub compute_cell_lem :
      (i : ℕ) (cells : List ℤ)
      → i < length cells
      → compute_cell a b row col i cells ≡ ok (set cells i (dot a b row col a.cols))
  unfolding compute_cell dot
  compute_cell_lem i cells hi = rw (
    store_lem cells i (pos 0) hi,
    add_products_lem a.cols 0 i (set cells i (pos 0)) (omega arith)
        (omega (arith, length-set cells i (pos 0))) (get_elem?-set_self cells i _ hi),
    set-set,
  )
