-- ===== src/Pool/Invariant/Compute.antt =====
-- The invariant of the pool and a round of the handler.
use pc_project_2024_mtr.Prelude.{
  Bool-cases, inl, inr, ==_iff, ◌∙◌, ap, sym, subst, ℕ, suc, ◌+◌, ◌*◌, ◌≤◌, ◌<◌, ◌≡◌, refl, List,
  some, get_elem?, set, length, length-set, arith, ok, ◌==◌, ◌&&◌, if◌then◌else◌, ℕ_discrete,
  get_elem?-set_self, get_elem?-set_ne, ok-injective,
}
use pc_project_2024_mtr.Prelude.Int.{ℤ}
use pc_project_2024_mtr.Prelude.Family.{assign, assign_at, assign_ne, total, total-assign}
use pc_project_2024_mtr.Matrix.{Matrix}
use pc_project_2024_mtr.Product.{cell, compute_cell, next_row, next_col}
use pc_project_2024_mtr.Product.Sequential.{Fits, compute_cell-eq-cell}
use pc_project_2024_mtr.Request.{Task, Wrapper}
use pc_project_2024_mtr.Request.Cover.{covers, covers_from}
use pc_project_2024_mtr.Pool.{Worker, running, Operands, size}
use pc_project_2024_mtr.Pool.Invariant.Ledger.{stopped, holds, IsWorker, IsCorrect, Ledger}

-- The step from a cell to the next one in the order of the array.
next_cell :
    (cols cols' row col i : ℕ)
    → cols ≡ cols'
    → row * cols + col ≡ i
    → col < cols
    → (next_row cols' row col * cols + next_col cols' col ≡ suc i) × (next_col cols' col < cols)
next_cell cols cols' row col i e at h = elim (Bool-cases (suc col == cols')) [
  | inl last ↦ rw (last) (omega (arith, (==_iff (suc col) cols').0 last), omega arith)
  | inr more ↦ rw (more) (omega arith, ground (arith, more))
]

-- A round takes one cell out of what a worker is to compute.
covers_from-suc :
    (t : Task) (i o j : ℕ)
    → i < t.end_idx
    → covers_from t i o j
      ≡ covers_from t (suc i) o j + (if t.operation == o && i == j then 1 else 0)
covers_from-suc t i o j h = ground arith

in_rows : (row col cols rows i : ℕ) → row * cols + col ≡ i → i < rows * cols → row < rows
in_rows row col cols rows i e h = grind arith

module _ (ops : Operands) (operations n : ℕ) (line : List Wrapper) (workers : ℕ → Worker)
    (products : ℕ → Matrix) (ledger : Ledger ops operations n line workers products) (k : ℕ)
    (t : Task) (i row col : ℕ) (h : k < n) (at_k : workers k ≡ running t i row col)
    (more : i < t.end_idx) where
  member : IsWorker ops operations (running t i row col)
  member = subst (IsWorker ops operations) at_k (ledger.members k)

  shape : Fits (ops.operand_as t.operation) (ops.operand_bs t.operation) (products t.operation)
  shape = ledger.shapes t.operation member.0.0

  in_size : t.end_idx ≤ size ops t.operation
  in_size = member.0.2

  -- The round goes through, and writes one cell of the product, the worker's own.
  pub round_runs :
      compute_cell
        (ops.operand_as t.operation)
        (ops.operand_bs t.operation)
        row
        col
        i
        (products t.operation).cells
      ≡ ok (
          set
            (products t.operation).cells
            i
            (cell (ops.operand_as t.operation) (ops.operand_bs t.operation) i))
  round_runs =
      compute_cell-eq-cell _ _ _ shape row col i (products t.operation).cells
        (omega (arith, shape.same_rows, at_row)) (omega (arith, shape.same_cols, member.3))
        (subst (λ c. row * c + col ≡ i) shape.same_cols member.2) shape.target
    where
      at_row : row < (ops.operand_as t.operation).rows
      at_row =
          in_rows row col (ops.operand_bs t.operation).cols (ops.operand_as t.operation).rows i
            member.2 (omega (arith, in_size))

  pub round_writes :
      (cells : List ℤ)
      → compute_cell
          (ops.operand_as t.operation)
          (ops.operand_bs t.operation)
          row
          col
          i
          (products t.operation).cells
        ≡ ok cells
      → cells
        ≡ set
            (products t.operation).cells
            i
            (cell (ops.operand_as t.operation) (ops.operand_bs t.operation) i)
  round_writes cells e = ok-injective _ _ (sym e ∙ round_runs)

  in_array : i < length (products t.operation).cells
  in_array = omega (
    arith,
    shape.target,
    ap (λ r. r * (products t.operation).cols) shape.same_rows,
    ap (λ c. (ops.operand_as t.operation).rows * c) shape.same_cols,
    in_size,
  )

  abbrev pub advanced : Worker
  advanced =
      running t (suc i) (next_row (products t.operation).cols row col)
        (next_col (products t.operation).cols col)

  advanced-IsWorker : IsWorker ops operations advanced
  advanced-IsWorker =
      let at_next =
        next_cell (ops.operand_bs t.operation).cols (products t.operation).cols row col i
          shape.same_cols member.2 member.3 in
      (member.0, more, at_next.0, at_next.1)

  -- The cells still to be computed, by the number of those that were.
  left_over :
      (o j : ℕ)
      → total (holds o j) n workers
        ≡ total (holds o j) n (assign workers k advanced)
          + (if t.operation == o && i == j then 1 else 0)
  left_over o j = omega (
    arith,
    total-assign (holds o j) n workers k advanced h,
    ap (holds o j) at_k,
    covers_from-suc t i o j more,
  )

  module _ (cells : List ℤ)
      (written : cells
        ≡ set
            (products t.operation).cells
            i
            (cell (ops.operand_as t.operation) (ops.operand_bs t.operation) i)) where
    abbrev products' : ℕ → Matrix
    products' = assign products t.operation (record (products t.operation) { cells = cells })

    own : products' t.operation ≡ record (products t.operation) { cells = cells }
    own = assign_at products t.operation _ t.operation refl

    shape' :
        Fits
          (ops.operand_as t.operation)
          (ops.operand_bs t.operation)
          (record (products t.operation) { cells = cells })
    shape' = record {
      left = shape.left;
      right = shape.right;
      target =
          ap length written
          ∙ length-set (products t.operation).cells i
              (cell (ops.operand_as t.operation) (ops.operand_bs t.operation) i)
          ∙ shape.target;
      inner = shape.inner;
      same_rows = shape.same_rows;
      same_cols = shape.same_cols;
    }

    shapes' : (o : ℕ) → o < operations → Fits (ops.operand_as o) (ops.operand_bs o) (products' o)
    shapes' o ho = elim (ℕ_discrete t.operation o) [
      | yes e ↦
          subst (λ x. Fits (ops.operand_as x) (ops.operand_bs x) (products' x)) e
            (subst (Fits (ops.operand_as t.operation) (ops.operand_bs t.operation)) (sym own)
              shape')
      | no ne ↦
          subst (Fits (ops.operand_as o) (ops.operand_bs o))
            (sym (assign_ne products t.operation _ o ne)) (ledger.shapes o ho)
    ]

    -- In the product that is being written: the cell itself, and any other.
    correct_own :
        (j : ℕ)
        → j < size ops t.operation
        → covers line t.operation j + total (holds t.operation j) n (assign workers k advanced) ≡ 0
        → get_elem? cells j
          ≡ some (cell (ops.operand_as t.operation) (ops.operand_bs t.operation) j)
    correct_own j hj none_left = elim (ℕ_discrete i j) [
      | yes e ↦
          ap (λ c. get_elem? c j) written
          ∙ subst
              (λ x.
                get_elem?
                  (set (products t.operation).cells i
                    (cell (ops.operand_as t.operation) (ops.operand_bs t.operation) i))
                  x
                ≡ some (cell (ops.operand_as t.operation) (ops.operand_bs t.operation) x))
              e (get_elem?-set_self (products t.operation).cells i _ in_array)
      | no ne ↦
          ap (λ c. get_elem? c j) written
          ∙ get_elem?-set_ne (products t.operation).cells _ ne
          ∙ ledger.correct t.operation j member.0.0 hj
              (ground (arith, none_left, left_over t.operation j))
    ]

    correct' :
        (o j : ℕ)
        → o < operations
        → j < size ops o
        → covers line o j + total (holds o j) n (assign workers k advanced) ≡ 0
        → IsCorrect ops operations o j (products' o)
    correct' o j ho hj none_left = elim (ℕ_discrete t.operation o) [
      | yes e ↦
          subst
            (λ x.
              j < size ops x
              → covers line x j + total (holds x j) n (assign workers k advanced) ≡ 0
              → IsCorrect ops operations x j (products' x))
            e
            (λ hj' none_left'.
              subst (IsCorrect ops operations t.operation j) (sym own)
                (correct_own j hj' none_left'))
            hj none_left
      | no ne ↦
          subst (IsCorrect ops operations o j) (sym (assign_ne products t.operation _ o ne))
            (ledger.correct o j ho hj (ground (arith, none_left, left_over o j)))
    ]

    pub compute-Ledger : Ledger ops operations n line (assign workers k advanced) products'
    compute-Ledger = record {
      ordered = ledger.ordered;
      ended = λ p.
          ledger.ended
            (omega (arith, p, total-assign stopped n workers k advanced h, ap stopped at_k));
      kills =
          omega (arith, ledger.kills, total-assign stopped n workers k advanced h, ap stopped at_k);
      tasks = ledger.tasks;
      members = λ x. elim (ℕ_discrete k x) [
        | yes e ↦
            subst (IsWorker ops operations) (sym (assign_at workers k advanced x e))
              advanced-IsWorker
        | no ne ↦
            subst (IsWorker ops operations) (sym (assign_ne workers k advanced x ne))
              (ledger.members x)
      ];
      shapes = shapes';
      once = λ o j. omega (arith, ledger.once o j, left_over o j);
      correct = correct';
    }
