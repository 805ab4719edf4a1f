-- ===== src/Pool/Invariant/Ledger.antt =====
-- The line of wrappers that workers have yet to take, what each worker holds, and the products.
use pc_project_2024_mtr.Prelude.{
  sym, subst, ℕ, ◌+◌, ◌*◌, ◌≤◌, ◌<◌, ◌≡◌, ◌⊎◌, List, some, get_elem?, arith, ℕ_discrete, inl, inr,
}
use pc_project_2024_mtr.Prelude.Family.{assign, assign_at, assign_ne, total, total-assign}
use pc_project_2024_mtr.Matrix.{Matrix}
use pc_project_2024_mtr.Product.{cell}
use pc_project_2024_mtr.Product.Sequential.{Fits}
use pc_project_2024_mtr.Request.{Wrapper, exec, kill}
use pc_project_2024_mtr.Request.Cover.{
  covers_from, covers, tasks_left, kills_left, Ordered, IsTask, AllTasks,
}
use pc_project_2024_mtr.Pool.{Worker, got, running, finished, stopping, exited, Operands, size}

-- 1 for a worker that has been counted in `dispatched`.
abbrev pub busy : Worker → ℕ
busy (running t i row col) = 1
busy finished = 1
busy stopping = 1
busy _ = 0

-- 1 for a worker that has taken its request to stop.
abbrev pub stopped : Worker → ℕ
stopped (got kill) = 1
stopped stopping = 1
stopped exited = 1
stopped _ = 0

-- 1 for a worker that is to compute cell `j` of product `o`.
abbrev pub holds : ℕ → ℕ → Worker → ℕ
holds o j (got (exec t)) = covers_from t t.start_idx o j
holds o j (running t i row col) = covers_from t i o j
holds o j _ = 0

module _ (ops : Operands) (operations : ℕ) where
  abbrev pub IsWorker : Worker → Type 0
  IsWorker (got (exec t)) = IsTask (size ops) operations t
  IsWorker (running t i row col) =
      IsTask (size ops) operations t
      × (i ≤ t.end_idx)
      × (row * (ops.operand_bs t.operation).cols + col ≡ i)
      × (col < (ops.operand_bs t.operation).cols)
  IsWorker _ = Unit

  abbrev pub IsCorrect : ℕ → ℕ → Matrix → Type 0
  IsCorrect o j product =
      get_elem? product.cells j ≡ some (cell (ops.operand_as o) (ops.operand_bs o) j)

  pub record Ledger (n : ℕ) (line : List Wrapper) (workers : ℕ → Worker) (products : ℕ → Matrix)
      : Type 0 where
    pub ordered : Ordered line
    pub ended : 0 < total stopped n workers → tasks_left line ≡ 0
    pub kills : kills_left line + total stopped n workers ≡ n
    pub tasks : AllTasks (size ops) operations line
    pub members : (i : ℕ) → IsWorker (workers i)
    pub shapes : (o : ℕ) → o < operations → Fits (ops.operand_as o) (ops.operand_bs o) (products o)
    pub once : (o j : ℕ) → covers line o j + total (holds o j) n workers ≤ 1
    pub correct :
        (o j : ℕ)
        → o < operations
        → j < size ops o
        → covers line o j + total (holds o j) n workers ≡ 0
        → IsCorrect o j (products o)

  -- Worker `k` goes from `p` to `p'`, and the line from `line` to `line'`: together they keep the cells
  -- and the requests to stop.
  pub record Passes (line line' : List Wrapper) (p p' : Worker) : Type 0 where
    pub cells : (o j : ℕ) → covers line' o j + holds o j p' ≡ covers line o j + holds o j p
    pub requests : kills_left line' + stopped p' ≡ kills_left line + stopped p
    pub ordered : Ordered line'
    pub tasks : AllTasks (size ops) operations line'
    pub member : IsWorker p'
    pub late : 0 < stopped p' → tasks_left line' ≡ 0
    pub fewer : tasks_left line ≡ 0 → tasks_left line' ≡ 0

  pub Ledger-assign :
      {n : ℕ} {line : List Wrapper} {workers : ℕ → Worker} {products : ℕ → Matrix}
      (line' : List Wrapper) (k : ℕ) (p' : Worker)
      → k < n
      → Ledger n line workers products
      → Passes line line' (workers k) p'
      → Ledger n line' (assign workers k p') products
  Ledger-assign {n} {line} {workers} {products} line' k p' h l m = record {
    ordered = m.ordered;
    ended =
        λ some_stopped. ended' (omega (arith, some_stopped, total-assign stopped n workers k p' h));
    kills = omega (arith, total-assign stopped n workers k p' h, m.requests, l.kills);
    tasks = m.tasks;
    members = λ i. elim (ℕ_discrete k i) [
      | yes e ↦ subst IsWorker (sym (assign_at workers k p' i e)) m.member
      | no ne ↦ subst IsWorker (sym (assign_ne workers k p' i ne)) (l.members i)
    ];
    shapes = l.shapes;
    once = λ o j. omega (arith, same o j, l.once o j);
    correct = λ o j ho hj e. l.correct o j ho hj (omega (arith, same o j));
  }
    where
      same :
          (o j : ℕ)
          → covers line' o j + total (holds o j) n (assign workers k p')
            ≡ covers line o j + total (holds o j) n workers
      same o j = omega (arith, total-assign (holds o j) n workers k p' h, m.cells o j)

      ended' : (0 < total stopped n workers) ⊎ (0 < stopped p') → tasks_left line' ≡ 0
      ended' (inl before) = m.fewer (l.ended before)
      ended' (inr now) = m.late now
