-- ===== src/Matrix/Creation.antt =====
-- `MATRIX_create` of task2/matrix_mul/matrix.c, `create_matrix_array` of common.c, and the beginning of
-- `main` of sequential.c and of parallel.c, which calls it.
use pc_project_2024_mtr.Prelude.{
  ℕ, zero, suc, ◌+◌, ◌*◌, ◌≤◌, ◌≡◌, ◌≢◌, ◌||◌, Bool, List, [], ◌∷◌, Option, none, some, Outcome, ok,
  exit, ◌>>=◌, or_fault, >>=-eq-ok, Error, if◌then◌else◌, arith,
}
use pc_project_2024_mtr.Prelude.Int.{ℤ, pos, pos_part, leb_ℤ}
use pc_project_2024_mtr.Prelude.Text.{Bytes}
use pc_project_2024_mtr.Arguments.{options_set, options_set-ok}
use pc_project_2024_mtr.Matrix.{Matrix}

-- `served i` tells whether the i-th call of `malloc` gets its memory.
module _ (served : ℕ → Bool) where
  -- `MATRIX_create`, from the call of `malloc` with this number on. The function ends without a `return`:
  -- `none` is the value that its caller does not get.
  unfoldable pub matrix_create : ℕ → ℤ → ℤ → Outcome (Option Matrix)
  matrix_create call rows cols =
      if leb_ℤ rows (pos 0) || leb_ℤ cols (pos 0)
      then exit Error.bad_dimension
      else if served call
      then (if served (suc call) then ok none else exit Error.no_memory)
      else exit Error.no_memory

  -- The loop of `create_matrix_array`, with `n` matrices to make. To use the value of a call that returned
  -- none is undefined behaviour.
  unfoldable pub create_matrices : ℕ → ℕ → ℤ → ℤ → Outcome (List Matrix)
  create_matrices call zero rows cols = ok []
  create_matrices call (suc n) rows cols = do
    value ← matrix_create call rows cols
    matrix ← or_fault value
    rest ← create_matrices (call + 2) n rows cols
    ok (matrix ∷ rest)

  -- `create_matrix_array`
  unfoldable pub create_matrix_array : ℕ → ℕ → ℤ → ℤ → Outcome (List Matrix)
  create_matrix_array call size rows cols =
      if served call then create_matrices (suc call) size rows cols else exit Error.no_memory

  -- `main` up to the operands: the options, and the three arrays of matrices.
  unfoldable pub begin_main :
      (Bytes → ℤ) → List Bytes → Outcome (List Matrix × List Matrix × List Matrix)
  begin_main atoi argv = do
    options ← options_set atoi argv
    let size = pos_part options.operations
    let order = options.matrix_order
    let calls = 1 + 2 * size
    operand_as ← create_matrix_array 0 size order order
    operand_bs ← create_matrix_array calls size order order
    products ← create_matrix_array (calls + calls) size order order
    ok (operand_as, operand_bs, products)

  -- `MATRIX_create` returns no matrix.
  matrix_create-none :
      (call : ℕ) (rows cols : ℤ) (value : Option Matrix)
      → matrix_create call rows cols ≡ ok value
      → value ≡ none
  unfolding matrix_create
  matrix_create-none call rows cols value e = ground arith

  create_matrices-ne-ok :
      (call n : ℕ) (rows cols : ℤ) (matrices : List Matrix)
      → 1 ≤ n
      → create_matrices call n rows cols ≢ ok matrices
  unfolding create_matrices
  create_matrices-ne-ok call zero rows cols matrices h e = absurd (omega arith)
  create_matrices-ne-ok call (suc n) rows cols matrices h e =
      let (value, made, used) = >>=-eq-ok (matrix_create call rows cols) e in
      let (matrix, found, rest) = >>=-eq-ok (or_fault value) used in
      no_value value matrix (matrix_create-none call rows cols value made) found
    where
      no_value : (value : Option Matrix) (m : Matrix) → value ≡ none → or_fault value ≡ ok m → ⊥
      no_value none m e found = cc
      no_value (some v) m e found = cc

  create_matrix_array-ne-ok :
      (call n : ℕ) (rows cols : ℤ) (matrices : List Matrix)
      → 1 ≤ n
      → create_matrix_array call n rows cols ≢ ok matrices
  unfolding create_matrix_array
  create_matrix_array-ne-ok call n rows cols matrices h e =
      ground (arith, create_matrices-ne-ok (suc call) n rows cols matrices)

-- Whatever the command line is and whichever calls of `malloc` get their memory, `main` of sequential.c and
-- of parallel.c does not get to its operands without undefined behaviour: it exits before, or uses the value
-- that `MATRIX_create` does not return.
pub begin_main-ne-ok :
    (served : ℕ → Bool) (atoi : Bytes → ℤ) (argv : List Bytes)
    (made : List Matrix × List Matrix × List Matrix)
    → begin_main served atoi argv ≢ ok made
unfolding begin_main
begin_main-ne-ok served atoi argv made e =
    let (options, set, rest) = >>=-eq-ok (options_set atoi argv) e in
    let size = pos_part options.operations in
    let (operand_as, first, rest') =
      >>=-eq-ok (create_matrix_array served 0 size options.matrix_order options.matrix_order)
        rest in
    create_matrix_array-ne-ok served 0 size options.matrix_order options.matrix_order operand_as
      (options_set-ok atoi argv options set).2 first
