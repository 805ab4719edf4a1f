-- ===== src/Pool/Termination.antt =====
-- How many steps the threads of the pool of task2/matrix_mul/parallel.c take.
use pc_project_2024_mtr.Prelude.{
  ap, ℕ, zero, suc, ◌+◌, ◌-◌, ◌≤◌, ◌<◌, ◌≡◌, refl, List, [], ◌∷◌, ◌++◌, length, arith, ◌*◌, ltb,
  Bool-cases, inl, inr, length-append, replicate,
}
use pc_project_2024_mtr.Prelude.Family.{assign, total, total-assign, total_of_zero}
use pc_project_2024_mtr.Queue.{Allocator}
use pc_project_2024_mtr.Queue.Chain.{Represents}
use pc_project_2024_mtr.Queue.Take.{take-ok}
use pc_project_2024_mtr.Queue.Add.{add-ok}
use pc_project_2024_mtr.Queue.Lifetime.{create-ok}
use pc_project_2024_mtr.Queue.Dispatch.{
  register_dispatch-Represents, register_completion-Represents,
}
use pc_project_2024_mtr.Matrix.{Matrix}
use pc_project_2024_mtr.Product.{next_row, next_col}
use pc_project_2024_mtr.Request.{
  Wrapper, exec, kill, requests, request_chunks, request_operations, request_multiplication,
  request_stop, task_chunk_size,
}
use pc_project_2024_mtr.Pool.{
  Worker, idle, got, running, finished, stopping, exited, Operands, size, System, begin, Step,
  enqueue, dequeue, dispatch, compute, finish, complete, stop, Reach, start, later,
}

-- The steps that a worker takes for a wrapper in the queue: one for each cell, and four around them.
abbrev pub work : Wrapper → ℕ
work (exec t) = t.end_idx - t.start_idx + 4
work kill = 3

abbrev pub all_work : List Wrapper → ℕ
all_work [] = 0
all_work (w ∷ ws) = work w + all_work ws

-- The steps that a worker has still to take for what it has taken.
abbrev pub effort : Worker → ℕ
effort (got (exec t)) = t.end_idx - t.start_idx + 3
effort (got kill) = 2
effort (running t i row col) = t.end_idx - i + 2
effort finished = 1
effort stopping = 1
effort _ = 0

all_work-append : (v w : List Wrapper) → all_work (v ++ w) ≡ all_work v + all_work w
all_work-append [] w = omega arith
all_work-append (x ∷ v) w = omega (arith, all_work-append v w)

-- After `k` steps of `bound`.
record Budget (n bound k : ℕ) (s : System) : Type 0 where
  pending : List Wrapper
  represents : Represents s.queue pending
  balance :
      k + all_work pending + all_work s.todo + length s.todo + total effort n s.workers ≡ bound

module _ (allocator : Allocator Wrapper) (ops : Operands) (operations n : ℕ) (bound : ℕ) where
  effort-begin : (s : System) (w : Wrapper) → suc (effort (begin s w)) ≡ effort (got w)
  effort-begin s (exec t) = omega arith
  effort-begin s kill = omega arith

  effort-got : (w : Wrapper) → suc (effort (got w)) ≡ work w
  effort-got (exec t) = omega arith
  effort-got kill = omega arith

  -- The total after worker `i` has taken a step of its own.
  spent :
      (s : System) (i : ℕ) (p p' : Worker)
      → i < n
      → s.workers i ≡ p
      → suc (effort p') ≡ effort p
      → suc (total effort n (assign s.workers i p')) ≡ total effort n s.workers
  spent s i p p' h e less = omega (arith, ap effort e, less, total-assign effort n s.workers i p' h)

  Budget-Step :
      {k : ℕ} {s t : System}
      → Budget n bound k s
      → Step allocator ops n s t
      → Budget n bound (suc k) t
  Budget-Step {s} b (enqueue {w} {rest} {q} e a) =
      let (rep, d) = add-ok allocator s.queue b.pending b.represents w q a in
      record {
        pending = b.pending ++ (w ∷ []);
        represents = rep;
        balance =
            omega
              (arith, b.balance, all_work-append b.pending (w ∷ []), ap all_work e, ap length e);
      }
  Budget-Step {s} b (dequeue i {w} {q} h e a) =
      let (ys, cons, rep, d) = take-ok allocator s.queue b.pending b.represents w q a in
      record {
        pending = ys;
        represents = rep;
        balance = omega (
          arith,
          b.balance,
          ap all_work cons,
          effort-got w,
          ap effort e,
          total-assign effort n s.workers i (got w) h,
        );
      }
  Budget-Step {s} b (dispatch i {w} h e) = record {
    pending = b.pending;
    represents = register_dispatch-Represents b.represents;
    balance = omega (arith, b.balance, spent s i (got w) (begin s w) h e (effort-begin s w));
  }
  Budget-Step {s} b (compute j {t} {i} {row} {col} h e more c) = record {
    pending = b.pending;
    represents = b.represents;
    balance = omega (
      arith,
      b.balance,
      spent s j (running t i row col)
          (running t (suc i) (next_row (s.products t.operation).cols row col)
            (next_col (s.products t.operation).cols col))
          h e (omega arith),
    );
  }
  Budget-Step {s} b (finish j {t} {i} {row} {col} h e done) = record {
    pending = b.pending;
    represents = b.represents;
    balance = omega (arith, b.balance, ap effort e, total-assign effort n s.workers j finished h);
  }
  Budget-Step {s} b (complete i h e) = record {
    pending = b.pending;
    represents = register_completion-Represents b.represents;
    balance = omega (arith, b.balance, spent s i finished idle h e refl);
  }
  Budget-Step {s} b (stop i h e) = record {
    pending = b.pending;
    represents = register_completion-Represents b.represents;
    balance = omega (arith, b.balance, spent s i stopping exited h e refl);
  }

-- The cells of the products of `count` operations from `i` on.
abbrev pub cells_from : (ℕ → ℕ) → ℕ → ℕ → ℕ
cells_from size zero i = 0
cells_from size (suc count) i = size i + cells_from size count (suc i)

request_chunks-work :
    (fuel o i max_idx : ℕ)
    → all_work (request_chunks fuel o i max_idx) + length (request_chunks fuel o i max_idx)
      ≤ 6 * (max_idx - i)
unfolding request_chunks
request_chunks-work zero o i max_idx = omega arith
request_chunks-work (suc fuel) o i max_idx = elim (Bool-cases (ltb i max_idx)) [
  | inl more ↦
      rw (more, request_chunks)
        (ground (arith, more, request_chunks-work fuel o (i + task_chunk_size) max_idx))
  | inr done ↦ rw (done, request_chunks) (omega arith)
]

request_operations-work :
    (size : ℕ → ℕ) (count i : ℕ)
    → all_work (request_operations size count i) + length (request_operations size count i)
      ≤ 6 * cells_from size count i
unfolding request_operations request_multiplication
request_operations-work size zero i = omega arith
request_operations-work size (suc count) i =
    let tasks = request_chunks (size i) i 0 (size i) in
    let others = request_operations size count (suc i) in
    omega (
      arith,
      request_chunks-work (size i) i 0 (size i),
      request_operations-work size count (suc i),
      all_work-append tasks others,
      length-append tasks others,
    )

replicate-work : (n : ℕ) → all_work (replicate n kill) + length (replicate n kill) ≡ 4 * n
replicate-work zero = refl
replicate-work (suc n) = omega (arith, replicate-work n)

-- All steps of a run of the pool, `main`'s included.
unfoldable pub all_steps : Operands → ℕ → ℕ → ℕ
all_steps ops operations n =
    all_work (requests (size ops) operations n) + length (requests (size ops) operations n)

module _ (allocator : Allocator Wrapper) (ops : Operands) (operations n : ℕ)
    (products : ℕ → Matrix) where
  -- How many steps have been taken.
  abbrev pub steps : {s : System} → Reach allocator ops operations n products s → ℕ
  steps (start e) = 0
  steps (later reach step) = suc (steps reach)

  Reach-Budget :
      {s : System} (reach : Reach allocator ops operations n products s)
      → Budget n (all_steps ops operations n) (steps reach) s
  unfolding all_steps
  Reach-Budget (start {q} e) = record {
    pending = [];
    represents = (create-ok allocator q e).0;
    balance = omega (arith, total_of_zero effort n (λ _. idle) (λ i h. refl));
  }
  Reach-Budget (later reach step) =
      Budget-Step allocator ops operations n (all_steps ops operations n) (Reach-Budget reach) step

  requests-work : all_steps ops operations n ≤ 6 * cells_from (size ops) operations 0 + 4 * n
  unfolding all_steps requests request_stop
  requests-work = omega (
    arith,
    request_operations-work (size ops) operations 0,
    replicate-work n,
    all_work-append (request_operations (size ops) operations 0) (replicate n kill),
    length-append (request_operations (size ops) operations 0) (replicate n kill),
  )

  -- Every run of the pool, `main`'s steps included, has at most six steps for each cell of the products
  -- and four for each thread, whatever the interleaving is.
  pub steps-bound :
      (s : System) (reach : Reach allocator ops operations n products s)
      → steps reach ≤ 6 * cells_from (size ops) operations 0 + 4 * n
  steps-bound s reach = omega (arith, (Reach-Budget reach).balance, requests-work)
