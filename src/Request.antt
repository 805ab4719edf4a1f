-- ===== src/Request.antt =====
-- `request_multiplication` and `WP_request_stop` of task2/matrix_mul: what `main` of parallel.c puts into
-- the queue of its worker pool, in order.
pub mod Cover
pub mod Line
pub mod Guard
use pc_project_2024_mtr.Prelude.{
  ℕ, zero, suc, ◌+◌, ◌-◌, ◌*◌, List, [], ◌∷◌, ◌++◌, map, true, false, ltb, leb, if◌then◌else◌,
  replicate,
}

abbrev pub task_chunk_size : ℕ
task_chunk_size = 1000

abbrev pub worker_pool_thread_count : ℕ
worker_pool_thread_count = 16

-- `struct MultiplicationTask`. `operation` is the index `i` of the call
-- `request_multiplication(operand_as[i], operand_bs[i], products[i], …)` that made the task, so it
-- stands for the three pointers `op1`, `op2` and `res`.
pub record Task : Type 0 where
  pub operation : ℕ
  pub start_idx : ℕ
  pub end_idx : ℕ

-- `struct WP_TaskWrapper`, by its `task_type`: a task for the handler, or the request to stop.
pub data Wrapper : Type 0 where
  exec : Task → Wrapper
  kill : Wrapper

-- The end of the chunk that begins at `i`.
abbrev pub chunk_end : ℕ → ℕ → ℕ
chunk_end i max_idx = if leb task_chunk_size (max_idx - i) then i + task_chunk_size else max_idx

-- The loop of `request_multiplication` from `idx = i` on. One unit of fuel is a round.
unfoldable pub request_chunks : ℕ → ℕ → ℕ → ℕ → List Wrapper
request_chunks zero operation i max_idx = []
request_chunks (suc fuel) operation i max_idx = elim (ltb i max_idx) [
  | true ↦
      exec (record { operation = operation; start_idx = i; end_idx = chunk_end i max_idx })
      ∷ request_chunks fuel operation (i + task_chunk_size) max_idx
  | false ↦ []
]

-- The tasks of one call of `request_multiplication`, behind its test of the dimensions, for a product of
-- `max_idx` cells.
unfoldable pub request_multiplication : ℕ → ℕ → List Wrapper
request_multiplication operation max_idx = request_chunks max_idx operation 0 max_idx

-- The calls of `request_multiplication` for `n` operations from `i` on, of products with `size` cells.
unfoldable pub request_operations : (ℕ → ℕ) → ℕ → ℕ → List Wrapper
request_operations size zero i = []
request_operations size (suc n) i =
    request_multiplication i (size i) ++ request_operations size n (suc i)

-- `WP_request_stop`
unfoldable pub request_stop : ℕ → List Wrapper
request_stop thread_count = replicate thread_count kill

-- All that `main` adds to the queue.
unfoldable pub requests : (ℕ → ℕ) → ℕ → ℕ → List Wrapper
requests size operations thread_count =
    request_operations size operations 0 ++ request_stop thread_count
