-- ===== src/Log/Programs.antt =====
-- The logs of `main` of task2/matrix_mul/sequential.c and of parallel.c on the same operands.
use pc_project_2024_mtr.Prelude.{
  ℕ, zero, suc, ◌+◌, ◌*◌, ◌<◌, ◌≡◌, refl, ap, ◌∙◌, sym, subst, Bool, true, List, [], ◌∷◌, some,
  arith, get_elem?, ok, ok-injective,
}
use pc_project_2024_mtr.Prelude.Text.{Bytes}
use pc_project_2024_mtr.Matrix.{Matrix}
use pc_project_2024_mtr.Matrix.Cells.{length-fill, get_elem?-fill_all}
use pc_project_2024_mtr.Product.{cell, multiply}
use pc_project_2024_mtr.Product.Sequential.{Fits, multiply_lem}
use pc_project_2024_mtr.Queue.{Allocator}
use pc_project_2024_mtr.Request.{Wrapper}
use pc_project_2024_mtr.Pool.{Operands, System, Reach, IsJoined}
use pc_project_2024_mtr.Pool.Safety.{pool-eq-multiply}
use pc_project_2024_mtr.Log.{Logged, write_log, multiply_all, log_products}
use pc_project_2024_mtr.Log.Checker.{Table, check_answers}
use pc_project_2024_mtr.Log.Printed.{Format, table}
use pc_project_2024_mtr.Log.Read.Checked.{AreValid, all_match, check_answers_lem}

-- Each cell of the product is the sum of products for its row and column.
pub record IsProduct (a b product : Matrix) : Type 0 where
  pub fits : Fits a b product
  pub cells :
      (i : ℕ) → i < product.rows * product.cols → get_elem? product.cells i ≡ some (cell a b i)

-- The `n` operations from `i` on.
abbrev pub operations_from : (ℕ → Matrix) → (ℕ → Matrix) → (ℕ → Matrix) → ℕ → ℕ → List Logged
operations_from lefts rights products i zero = []
operations_from lefts rights products i (suc n) =
    record { operand_a = lefts i; operand_b = rights i; product = products i }
    ∷ operations_from lefts rights products (suc i) n

multiply-IsProduct :
    (a b before after : Matrix)
    → Fits a b before
    → multiply a b before ≡ ok after
    → IsProduct a b after
multiply-IsProduct a b before after fit e =
    subst (IsProduct a b) (ok-injective _ _ (sym (multiply_lem a b before fit) ∙ e)) (record {
      fits = record {
        left = fit.left;
        right = fit.right;
        target = length-fill (cell a b) 0 (before.rows * before.cols) before.cells ∙ fit.target;
        inner = fit.inner;
        same_rows = fit.same_rows;
        same_cols = fit.same_cols;
      };
      cells = λ i h.
          get_elem?-fill_all (cell a b) (before.rows * before.cols) before.cells i fit.target h;
    })

module _ (lefts rights before after : ℕ → Matrix) where
  multiply_all_lem :
      (i n : ℕ)
      → ((o : ℕ) → o < i + n → multiply (lefts o) (rights o) (before o) ≡ ok (after o))
      → multiply_all (operations_from lefts rights before i n)
        ≡ ok (operations_from lefts rights after i n)
  unfolding multiply_all
  multiply_all_lem i zero each = refl
  multiply_all_lem i (suc n) each =
      rw (each i (omega arith), multiply_all_lem (suc i) n (λ o h. each o (omega arith)))

module _ (lefts rights products : ℕ → Matrix) where
  operations-AreValid :
      (i n : ℕ)
      → ((o : ℕ) → o < i + n → IsProduct (lefts o) (rights o) (products o))
      → AreValid (operations_from lefts rights products i n)
  operations-AreValid i zero each = tt
  operations-AreValid i (suc n) each =
      let here = (each i (omega arith)).fits in
      (
        here.left,
        here.right,
        here.target,
        operations-AreValid (suc i) n (λ o h. each o (omega arith)),
      )

  all_match-operations :
      (matches : Table → Table → Table → Bool)
      → ((a b p : Matrix) → IsProduct a b p → matches (table a) (table b) (table p) ≡ true)
      → (i n : ℕ) → ((o : ℕ) → o < i + n → IsProduct (lefts o) (rights o) (products o))
      → all_match matches (operations_from lefts rights products i n) ≡ true
  all_match-operations matches accepts i zero each = refl
  all_match-operations matches accepts i (suc n) each = rw (
    accepts (lefts i) (rights i) (products i) (each i (omega arith)),
    all_match-operations matches accepts (suc i) n (λ o h. each o (omega arith)),
  )

-- When `main` of parallel.c has joined the workers it writes the log that `main` of sequential.c writes for
-- the same operands, byte for byte, and check_answers.py reports success on it, if numpy's test accepts the
-- products that are right.
pub parallel_log-checks :
    (format : Format) (matches : Table → Table → Table → Bool)
    → ((a b p : Matrix) → IsProduct a b p → matches (table a) (table b) (table p) ≡ true)
    → (allocator : Allocator Wrapper) (ops : Operands) (operations n : ℕ) (products : ℕ → Matrix)
    → ((o : ℕ) → o < operations → Fits (ops.operand_as o) (ops.operand_bs o) (products o))
    → (s : System) → Reach allocator ops operations n products s
    → 0 < n
    → IsJoined n s
    → (file : Bytes) × (write_log format.decimal 0
          (operations_from ops.operand_as ops.operand_bs s.products 0 operations)
        ≡ ok file)
      × (log_products format.decimal
            (operations_from ops.operand_as ops.operand_bs products 0 operations)
          ≡ ok file)
      × (check_answers format.int matches file ≡ some true)
unfolding log_products
parallel_log-checks format matches accepts allocator ops operations n products fit s reach
      some_thread joined =
    let right =
      all_match-operations ops.operand_as ops.operand_bs s.products matches accepts 0 operations
        correct in
    let valid = operations-AreValid ops.operand_as ops.operand_bs s.products 0 operations correct in
    let (file, written, checked) = check_answers_lem format matches _ valid in
    (
      file,
      written,
      rw (multiply_all_lem ops.operand_as ops.operand_bs products s.products 0 operations each)
          written,
      checked ∙ ap some right,
    )
  where
    each :
        (o : ℕ)
        → o < 0 + operations
        → multiply (ops.operand_as o) (ops.operand_bs o) (products o) ≡ ok (s.products o)
    each o h =
        pool-eq-multiply allocator ops operations n products fit s reach some_thread joined o
          (omega arith)

    correct :
        (o : ℕ)
        → o < 0 + operations
        → IsProduct (ops.operand_as o) (ops.operand_bs o) (s.products o)
    correct o h =
        multiply-IsProduct (ops.operand_as o) (ops.operand_bs o) (products o) (s.products o)
          (fit o (omega arith)) (each o h)
