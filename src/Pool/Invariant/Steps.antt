-- ===== src/Pool/Invariant/Steps.antt =====
-- The invariant of the pool and the steps of its threads.
use pc_project_2024_mtr.Prelude.{
  ◌∙◌, ap, sym, subst, ℕ, ◌+◌, ◌*◌, ◌/◌, ◌%◌, ◌≤◌, ◌<◌, ◌≡◌, refl, List, [], ◌∷◌, ◌++◌,
  append_assoc, arith, ok,
}
use pc_project_2024_mtr.Prelude.Int.{pos}
use pc_project_2024_mtr.Prelude.Family.{assign, total, total-assign, weight-le-total}
use pc_project_2024_mtr.Queue.{Queue, Allocator, take, add, register_dispatch, register_completion}
use pc_project_2024_mtr.Queue.Chain.{Represents}
use pc_project_2024_mtr.Queue.Take.{take-ok}
use pc_project_2024_mtr.Queue.Add.{add-ok}
use pc_project_2024_mtr.Queue.Dispatch.{
  register_dispatch-Represents, register_completion-Represents, dispatched-dispatch,
  dispatched-completion,
}
use pc_project_2024_mtr.Request.{Task, Wrapper, exec, kill}
use pc_project_2024_mtr.Request.Cover.{tasks_left, Ordered, AllTasks}
use pc_project_2024_mtr.Pool.{
  Worker, idle, got, running, finished, stopping, exited, Operands, size, System, begin,
}
use pc_project_2024_mtr.Pool.Invariant.Ledger.{
  busy, stopped, holds, IsWorker, Ledger, Passes, Ledger-assign,
}

-- The queue holds the front part of the line, and counts the busy workers.
pub record Inv (ops : Operands) (operations n : ℕ) (s : System) : Type 0 where
  pub pending : List Wrapper
  pub represents : Represents s.queue pending
  pub counted : s.queue.dispatched ≡ pos (total busy n s.workers)
  pub ledger : Ledger ops operations n (pending ++ s.todo) s.workers s.products

module _ (ops : Operands) (operations : ℕ) where
  -- A worker takes the head of the line.
  Passes-head :
      (w : Wrapper) (line : List Wrapper) (p : Worker)
      → p ≡ idle
      → Ordered (w ∷ line)
      → AllTasks (size ops) operations (w ∷ line)
      → Passes ops operations (w ∷ line) line p (got w)
  Passes-head (exec t) line p e o a = ground (arith, e)
  Passes-head kill line p e o a = ground (arith, e)

  -- A worker changes what it holds, and the line stays.
  Passes-line :
      (line : List Wrapper) (p p' : Worker)
      → Ordered line
      → AllTasks (size ops) operations line
      → ((o j : ℕ) → holds o j p' ≡ holds o j p)
      → stopped p' ≡ stopped p
      → (0 < stopped p → tasks_left line ≡ 0)
      → IsWorker ops operations p'
      → Passes ops operations line line p p'
  Passes-line line p p' o a same e late m = record {
    cells = λ o j. omega (arith, same o j);
    requests = omega arith;
    ordered = o;
    tasks = a;
    member = m;
    late = λ h. late (omega (arith, h));
    fewer = λ h. h;
  }

-- The row and column by which a handler begins.
row_and_col :
    (i rows cols cols' : ℕ)
    → cols ≡ cols'
    → i < rows * cols
    → (i / cols' * cols + i % cols' ≡ i) × (i % cols' < cols)
row_and_col i rows cols cols' e h = rw (← e) (grind arith, grind arith)

busy_got : (w : Wrapper) → busy (got w) ≡ 0
busy_got (exec t) = refl
busy_got kill = refl

module _ (allocator : Allocator Wrapper) (ops : Operands) (operations n : ℕ) (s : System)
    (inv : Inv ops operations n s) where
  open inv use {pending, represents, counted, ledger}

  late : (k : ℕ) → k < n → 0 < stopped (s.workers k) → tasks_left (pending ++ s.todo) ≡ 0
  late k h p = ledger.ended (omega (arith, p, weight-le-total stopped n s.workers k h))

  -- A worker moves without a change of the line, of the products and of what it is to compute.
  line_kept :
      (k : ℕ) (p p' : Worker)
      → k < n
      → s.workers k ≡ p
      → ((o j : ℕ) → holds o j p' ≡ holds o j p)
      → stopped p' ≡ stopped p
      → IsWorker ops operations p'
      → Ledger ops operations n (pending ++ s.todo) (assign s.workers k p') s.products
  line_kept k p p' h at_k same e m =
      Ledger-assign ops operations (pending ++ s.todo) k p' h ledger (
        subst (λ x. Passes ops operations (pending ++ s.todo) (pending ++ s.todo) x p') (sym at_k)
          (Passes-line ops operations (pending ++ s.todo) p p' ledger.ordered ledger.tasks same e
            (λ some. late k h (rw at_k some)) m))

  busy_kept :
      (k : ℕ) (p p' : Worker)
      → k < n
      → s.workers k ≡ p
      → total busy n (assign s.workers k p') + busy p ≡ total busy n s.workers + busy p'
  busy_kept k p p' h at_k = omega (arith, ap busy at_k, total-assign busy n s.workers k p' h)

  pub enqueue-Inv :
      (w : Wrapper) (rest : List Wrapper) (q : Queue Wrapper)
      → s.todo ≡ w ∷ rest
      → add allocator s.queue w ≡ ok q
      → Inv ops operations n (record s { queue = q; todo = rest })
  enqueue-Inv w rest q et ea =
      let (rep, d) = add-ok allocator s.queue pending represents w q ea in
      record {
        pending = pending ++ (w ∷ []);
        represents = rep;
        counted = d ∙ counted;
        ledger =
            subst (λ line. Ledger ops operations n line s.workers s.products)
              (ap (λ l. pending ++ l) et ∙ sym (append_assoc pending (w ∷ []) rest)) ledger;
      }

  pub dequeue-Inv :
      (i : ℕ) (w : Wrapper) (q : Queue Wrapper)
      → i < n
      → s.workers i ≡ idle
      → take allocator s.queue ≡ ok (w, q)
      → Inv ops operations n (record s { queue = q; workers = assign s.workers i (got w) })
  dequeue-Inv i w q h at_i et =
      let (ys, cons, rep, d) = take-ok allocator s.queue pending represents w q et in
      let same : pending ++ s.todo ≡ w ∷ (ys ++ s.todo) = ap (λ l. l ++ s.todo) cons in
      let led : Ledger ops operations n (w ∷ (ys ++ s.todo)) s.workers s.products =
        subst (λ line. Ledger ops operations n line s.workers s.products) same ledger in
      record {
        pending = ys;
        represents = rep;
        counted = d ∙ counted ∙ ap pos (omega (arith, busy_kept i idle (got w) h at_i, busy_got w));
        ledger =
            Ledger-assign ops operations (ys ++ s.todo) i (got w) h led (
              Passes-head ops operations w (ys ++ s.todo) (s.workers i) at_i led.ordered led.tasks);
      }

  pub dispatch-Inv :
      (i : ℕ) (w : Wrapper)
      → i < n
      → s.workers i ≡ got w
      → Inv ops operations n
          (record s { queue = register_dispatch s.queue; workers = assign s.workers i (begin s w) })
  dispatch-Inv i w h at_i = record {
    pending = pending;
    represents = register_dispatch-Represents represents;
    counted =
        dispatched-dispatch s.queue _ _ counted
          (omega (arith, busy_kept i (got w) (begin s w) h at_i, busy_got w, busy_begin w));
    ledger =
        line_kept i (got w) (begin s w) h at_i (holds_begin w) (stopped_begin w)
          (member_begin w (subst (IsWorker ops operations) at_i (ledger.members i)));
  }
    where
      busy_begin : (w : Wrapper) → busy (begin s w) ≡ 1
      busy_begin (exec t) = refl
      busy_begin kill = refl

      holds_begin : (w : Wrapper) (o j : ℕ) → holds o j (begin s w) ≡ holds o j (got w)
      holds_begin (exec t) o j = refl
      holds_begin kill o j = refl

      stopped_begin : (w : Wrapper) → stopped (begin s w) ≡ stopped (got w)
      stopped_begin (exec t) = refl
      stopped_begin kill = refl

      member_begin :
          (w : Wrapper) → IsWorker ops operations (got w) → IsWorker ops operations (begin s w)
      member_begin (exec t) m =
          let at_start =
            row_and_col t.start_idx (ops.operand_as t.operation).rows
              (ops.operand_bs t.operation).cols (s.products t.operation).cols
              (ledger.shapes t.operation m.0).same_cols (omega arith) in
          (m, omega arith, at_start.0, at_start.1)
      member_begin kill m = tt

  pub finish-Inv :
      (k : ℕ) (t : Task) (i row col : ℕ)
      → k < n
      → s.workers k ≡ running t i row col
      → t.end_idx ≤ i
      → Inv ops operations n (record s { workers = assign s.workers k finished })
  finish-Inv k t i row col h at_k done = record {
    pending = pending;
    represents = represents;
    counted = counted ∙ ap pos (omega (arith, busy_kept k (running t i row col) finished h at_k));
    ledger = line_kept k (running t i row col) finished h at_k (λ o j. ground arith) refl tt;
  }

  pub complete-Inv :
      (i : ℕ)
      → i < n
      → s.workers i ≡ finished
      → Inv ops operations n
          (record s { queue = register_completion s.queue; workers = assign s.workers i idle })
  complete-Inv i h at_i = record {
    pending = pending;
    represents = register_completion-Represents represents;
    counted =
        dispatched-completion s.queue _ _ counted (omega (arith, busy_kept i finished idle h at_i));
    ledger = line_kept i finished idle h at_i (λ o j. refl) refl tt;
  }

  pub stop-Inv :
      (i : ℕ)
      → i < n
      → s.workers i ≡ stopping
      → Inv ops operations n
          (record s { queue = register_completion s.queue; workers = assign s.workers i exited })
  stop-Inv i h at_i = record {
    pending = pending;
    represents = register_completion-Represents represents;
    counted =
        dispatched-completion s.queue _ _ counted
          (omega (arith, busy_kept i stopping exited h at_i));
    ledger = line_kept i stopping exited h at_i (λ o j. refl) refl tt;
  }
