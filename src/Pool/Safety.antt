-- ===== src/Pool/Safety.antt =====
-- The products and the queue of the pool of task2/matrix_mul/parallel.c, in every interleaving.
use pc_project_2024_mtr.Prelude.{
  ◌∙◌, ap, ap₂, sym, ℕ, ◌+◌, ◌*◌, ◌<◌, ◌≡◌, ◌≢◌, refl, List, [], ◌∷◌, ◌++◌, some, arith, ok,
}
use pc_project_2024_mtr.Prelude.Int.{pos}
use pc_project_2024_mtr.Prelude.Family.{total, total_of_zero, weights-le-total, total-eq-count}
use pc_project_2024_mtr.Queue.{Allocator, Chunk}
use pc_project_2024_mtr.Queue.Capacity.{drained}
use pc_project_2024_mtr.Matrix.{Matrix}
use pc_project_2024_mtr.Matrix.Cells.{fill, eq-fill}
use pc_project_2024_mtr.Product.{cell, multiply}
use pc_project_2024_mtr.Product.Sequential.{Fits, multiply_lem}
use pc_project_2024_mtr.Request.{Task, Wrapper, exec, kill}
use pc_project_2024_mtr.Request.Cover.{covers, tasks_left, kills_left}
use pc_project_2024_mtr.Pool.{running, Operands, size, System, Reach, IsJoined}
use pc_project_2024_mtr.Pool.Invariant.Ledger.{busy, stopped, holds}
use pc_project_2024_mtr.Pool.Invariant.Reach.{Reach-Inv}
use pc_project_2024_mtr.Pool.Invariant.Steps.{Inv}

empty_line : (line : List Wrapper) → tasks_left line ≡ 0 → kills_left line ≡ 0 → line ≡ []
empty_line [] t k = refl
empty_line (exec task ∷ line) t k = absurd (omega arith)
empty_line (kill ∷ line) t k = absurd (omega arith)

left_empty : (v w : List Wrapper) → v ++ w ≡ [] → v ≡ []
left_empty [] w e = refl
left_empty (x ∷ v) w e = cc

module _ (allocator : Allocator Wrapper) (ops : Operands) (operations n : ℕ) (products : ℕ → Matrix)
    (fit : (o : ℕ) → o < operations → Fits (ops.operand_as o) (ops.operand_bs o) (products o))
    (s : System) (reach : Reach allocator ops operations n products s) where
  inv : Inv ops operations n s
  inv = Reach-Inv allocator ops operations n products fit s reach

  -- Two workers in the handler on the same product are never at the same cell.
  pub no_data_race :
      (i k : ℕ) (t u : Task) (x row col y row' col' : ℕ)
      → i < n
      → k < n
      → i ≢ k
      → s.workers i ≡ running t x row col
      → s.workers k ≡ running u y row' col'
      → x < t.end_idx
      → y < u.end_idx
      → t.operation ≡ u.operation
      → x ≢ y
  no_data_race i k t u x row col y row' col' hi hk ne ei ek mx my same e = absurd (
      ground (
        arith,
        inv.ledger.once t.operation x,
        weights-le-total (holds t.operation x) n s.workers i k hi hk ne,
        ap (holds t.operation x) ei,
        ap (holds t.operation x) ek,
      ))

  module _ (some_thread : 0 < n) (joined : IsJoined n s) where
    all_stopped : total stopped n s.workers ≡ n
    all_stopped = total-eq-count stopped n s.workers (λ i h. ap stopped (joined.1 i h))

    nothing_left : inv.pending ++ s.todo ≡ []
    nothing_left =
        empty_line _ (inv.ledger.ended (omega (arith, all_stopped)))
          (omega (arith, inv.ledger.kills, all_stopped))

    all_computed :
        (o j : ℕ) → covers (inv.pending ++ s.todo) o j + total (holds o j) n s.workers ≡ 0
    all_computed o j = omega (
      arith,
      ap (λ line. covers line o j) nothing_left,
      total_of_zero (holds o j) n s.workers (λ i h. ap (holds o j) (joined.1 i h)),
    )

    -- When `main` has joined the workers, each product is what `multiply` of sequential.c makes of the
    -- same operands, whatever the interleaving was.
    pub pool-eq-multiply :
        (o : ℕ)
        → o < operations
        → multiply (ops.operand_as o) (ops.operand_bs o) (products o) ≡ ok (s.products o)
    pool-eq-multiply o ho =
        multiply_lem _ _ _ (fit o ho)
        ∙ ap ok (λ i. record {
          rows = (sym before.same_rows ∙ now.same_rows) i;
          cols = (sym before.same_cols ∙ now.same_cols) i;
          cells = same_cells i;
        })
      where
        before : Fits (ops.operand_as o) (ops.operand_bs o) (products o)
        before = fit o ho

        now : Fits (ops.operand_as o) (ops.operand_bs o) (s.products o)
        now = inv.ledger.shapes o ho

        sizes : (products o).rows * (products o).cols ≡ size ops o
        sizes = ap₂ (λ r c. r * c) (sym before.same_rows) (sym before.same_cols)

        same_cells :
            fill
              (cell (ops.operand_as o) (ops.operand_bs o))
              0
              ((products o).rows * (products o).cols)
              (products o).cells
            ≡ (s.products o).cells
        same_cells =
            eq-fill _ _ (products o).cells (s.products o).cells before.target
              (now.target
                ∙ ap₂ (λ r c. r * c) (sym now.same_rows ∙ before.same_rows)
                    (sym now.same_cols ∙ before.same_cols))
              (λ j h. inv.ledger.correct o j ho (omega (arith, sizes)) (all_computed o j))

    -- The three checks that `main` makes before it frees the pool succeed: no task counts as dispatched,
    -- one chunk is live, and the back chunk has been read as far as it is filled.
    pub final_checks_pass :
        (s.queue.dispatched ≡ pos 0)
        × (s.queue.live_chunk_count ≡ pos 1)
        × ((c : Chunk Wrapper) × (s.queue.heap s.queue.back ≡ some c) × (c.filled ≡ c.next))
    final_checks_pass =
        let (c, at_back, read, live) = drained inv.represents (left_empty _ _ nothing_left) in
        (
          inv.counted ∙ ap pos (total_of_zero busy n s.workers (λ i h. ap busy (joined.1 i h))),
          live,
          (c, at_back, read),
        )
