-- ===== src/Request/Guard.antt =====
-- `request_multiplication` of task2/matrix_mul/parallel.c, whole, with the test of the dimensions before its
-- loop.
use pc_project_2024_mtr.Prelude.{
  ℕ, ◌*◌, ◌≡◌, refl, false, List, Outcome, ok, exit, Error, if◌then◌else◌, ap₂, sym, ◌∙◌, arith,
}
use pc_project_2024_mtr.Matrix.{Matrix}
use pc_project_2024_mtr.Product.{mismatch}
use pc_project_2024_mtr.Product.Sequential.{Fits}
use pc_project_2024_mtr.Request.{Wrapper, request_multiplication}

unfoldable pub check_and_request : ℕ → Matrix → Matrix → Matrix → Outcome (List Wrapper)
check_and_request operation a b product =
    if mismatch a b product
    then exit Error.bad_dimension
    else ok (request_multiplication operation (product.cols * product.rows))

-- Where the dimensions fit the test passes, and the number of cells is that of the operands.
pub check_and_request_lem :
    (operation : ℕ) (a b product : Matrix)
    → Fits a b product
    → check_and_request operation a b product
      ≡ ok (request_multiplication operation (a.rows * b.cols))
unfolding check_and_request
check_and_request_lem operation a b product fits =
    let passes : mismatch a b product ≡ false =
      ground (arith, fits.inner, fits.same_rows, fits.same_cols) in
    let cells : product.cols * product.rows ≡ a.rows * b.cols =
      ap₂ (λ x y. x * y) (sym fits.same_cols) (sym fits.same_rows) ∙ omega arith in
    rw (passes, cells) refl
