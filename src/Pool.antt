-- ===== src/Pool.antt =====
-- task2/matrix_mul/worker_pool.c and the threads of parallel.c: `main`, which adds tasks and requests
-- to stop to the queue, and the workers, which take them, in any interleaving.
-- A step is what one thread does between two points where others can interfere: a critical section of
-- the queue, or one round of the loop of `sub_multiplication_handler`, whose only shared accesses are
-- to operands, which nobody writes, and to the round's own cell. A thread that would wait has no step.
pub mod Invariant
pub mod Safety
pub mod Progress
pub mod End
pub mod Termination
use pc_project_2024_mtr.Prelude.{ℕ, suc, ◌*◌, ◌/◌, ◌%◌, ◌<◌, ◌≡◌, List, [], ◌∷◌, ok, ◌≤◌, none}
use pc_project_2024_mtr.Prelude.Int.{ℤ}
use pc_project_2024_mtr.Prelude.Family.{assign}
use pc_project_2024_mtr.Queue.{
  Queue, Allocator, create, take, add, register_dispatch, register_completion,
}
use pc_project_2024_mtr.Matrix.{Matrix}
use pc_project_2024_mtr.Product.{compute_cell, next_row, next_col}
use pc_project_2024_mtr.Request.{Task, Wrapper, exec, kill, requests}

-- Where a worker stands in `_WP_run_helper_function`.
pub data Worker : Type 0 where
  idle : Worker  -- at `QUEUE_get`
  got : Wrapper → Worker  -- in `QUEUE_get`, behind the release of `rw_mutex`
  running : Task → (i row col : ℕ) → Worker  -- in the loop of the handler, at `idx = i`
  finished : Worker  -- behind the handler
  stopping : Worker  -- at the case `WP_KILL`
  exited : Worker

-- The operands of the operations; `main` gives the i-th operation its own three matrices.
pub record Operands : Type 0 where
  pub operand_as : ℕ → Matrix
  pub operand_bs : ℕ → Matrix

-- `todo` is what `main` has still to add before it joins the workers.
pub record System : Type 0 where
  pub queue : Queue Wrapper
  pub todo : List Wrapper
  pub workers : ℕ → Worker
  pub products : ℕ → Matrix

-- The worker at the start of a task: `row` and `col` by division, as in the handler.
abbrev pub begin : System → Wrapper → Worker
begin s (exec t) =
    running t t.start_idx (t.start_idx / (s.products t.operation).cols)
      (t.start_idx % (s.products t.operation).cols)
begin s kill = stopping

-- One step of `main`, or of worker `i` of `n`.
pub data Step (allocator : Allocator Wrapper) (ops : Operands) (n : ℕ) (s : System)
    : System → Type 0 where
  enqueue :
      {w : Wrapper} {rest : List Wrapper} {q : Queue Wrapper}
      → s.todo ≡ w ∷ rest
      → add allocator s.queue w ≡ ok q
      → Step allocator ops n s (record s { queue = q; todo = rest })
  dequeue :
      (i : ℕ) {w : Wrapper} {q : Queue Wrapper}
      → i < n
      → s.workers i ≡ idle
      → take allocator s.queue ≡ ok (w, q)
      → Step allocator ops n s (record s { queue = q; workers = assign s.workers i (got w) })
  dispatch :
      (i : ℕ) {w : Wrapper}
      → i < n
      → s.workers i ≡ got w
      → Step allocator ops n s
          (record s { queue = register_dispatch s.queue; workers = assign s.workers i (begin s w) })
  compute :
      (k : ℕ) {t : Task} {i row col : ℕ} {cells : List ℤ}
      → k < n
      → s.workers k ≡ running t i row col
      → i < t.end_idx
      → compute_cell
          (ops.operand_as t.operation)
          (ops.operand_bs t.operation)
          row
          col
          i
          (s.products t.operation).cells
        ≡ ok cells
      → Step allocator ops n s (record s {
        workers = assign s.workers k (
            running t
              (suc i)
              (next_row (s.products t.operation).cols row col)
              (next_col (s.products t.operation).cols col));
        products =
            assign s.products t.operation (record (s.products t.operation) { cells = cells });
      })
  finish :
      (k : ℕ) {t : Task} {i row col : ℕ}
      → k < n
      → s.workers k ≡ running t i row col
      → t.end_idx ≤ i
      → Step allocator ops n s (record s { workers = assign s.workers k finished })
  complete :
      (i : ℕ)
      → i < n
      → s.workers i ≡ finished
      → Step allocator ops n s
          (record s { queue = register_completion s.queue; workers = assign s.workers i idle })
  stop :
      (i : ℕ)
      → i < n
      → s.workers i ≡ stopping
      → Step allocator ops n s
          (record s { queue = register_completion s.queue; workers = assign s.workers i exited })

-- The number of cells of the product of operation `o`.
abbrev pub size : Operands → ℕ → ℕ
size ops o = (ops.operand_as o).rows * (ops.operand_bs o).cols

-- `WP_create` has made a queue and the threads, and `main` is to add everything; `products` holds what
-- `malloc` left there.
abbrev pub init : Operands → ℕ → ℕ → Queue Wrapper → (ℕ → Matrix) → System
init ops operations n q products = record {
  queue = q;
  todo = requests (size ops) operations n;
  workers = λ _. idle;
  products = products;
}

pub data Reach (allocator : Allocator Wrapper) (ops : Operands) (operations n : ℕ)
    (products : ℕ → Matrix) : System → Type 0 where
  start :
      {q : Queue Wrapper}
      → create allocator (λ _. none) ≡ ok q
      → Reach allocator ops operations n products (init ops operations n q products)
  later :
      {s t : System}
      → Reach allocator ops operations n products s
      → Step allocator ops n s t
      → Reach allocator ops operations n products t

-- All that `WP_join` waits for.
abbrev pub IsJoined : ℕ → System → Type 0
IsJoined n s = (s.todo ≡ []) × ((i : ℕ) → i < n → s.workers i ≡ exited)
