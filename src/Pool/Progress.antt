-- ===== src/Pool/Progress.antt =====
-- Which threads of the pool of task2/matrix_mul/parallel.c can take a step.
use pc_project_2024_mtr.Prelude.{
  ◌∙◌, ap, subst, ℕ, ◌≤◌, ◌<◌, ◌≡◌, ◌≢◌, ◌⊎◌, inl, inr, refl, List, [], ◌∷◌, ◌++◌, Bool, true,
  false, length, arith, Outcome, exit, Error, dec_lt, List-cases,
}
use pc_project_2024_mtr.Prelude.Family.{total, total-lt, total-eq-count, find_below}
use pc_project_2024_mtr.Queue.{Queue, Allocator, take, add}
use pc_project_2024_mtr.Queue.Take.{Takes, taken, waits, out_of_memory, take_refines}
use pc_project_2024_mtr.Queue.Add.{Adds, add_refines}
use pc_project_2024_mtr.Matrix.{Matrix}
use pc_project_2024_mtr.Product.Sequential.{Fits}
use pc_project_2024_mtr.Request.{Wrapper, exec, kill}
use pc_project_2024_mtr.Request.Cover.{tasks_left, kills_left}
use pc_project_2024_mtr.Pool.{
  Worker, idle, got, running, finished, stopping, exited, Operands, System, Step, enqueue, dequeue,
  dispatch, compute, finish, complete, stop, Reach, IsJoined,
}
use pc_project_2024_mtr.Pool.Invariant.Ledger.{stopped}
use pc_project_2024_mtr.Pool.Invariant.Compute.{round_runs}
use pc_project_2024_mtr.Pool.Invariant.Reach.{Reach-Inv}
use pc_project_2024_mtr.Pool.Invariant.Steps.{Inv}

-- A worker that needs nothing from the queue to go on.
acts : Worker → Bool
acts idle = false
acts exited = false
acts _ = true

is_idle : Worker → Bool
is_idle idle = true
is_idle _ = false

exited_of : (p : Worker) → acts p ≡ false → is_idle p ≡ false → p ≡ exited
unfolding acts is_idle
exited_of idle a b = cc
exited_of (got w) a b = cc
exited_of (running t i row col) a b = cc
exited_of finished a b = cc
exited_of stopping a b = cc
exited_of exited a b = refl

idle_of : (p : Worker) → is_idle p ≡ true → p ≡ idle
unfolding is_idle
idle_of idle a = refl
idle_of (got w) a = cc
idle_of (running t i row col) a = cc
idle_of finished a = cc
idle_of stopping a = cc
idle_of exited a = cc

stopped-le : (p : Worker) → stopped p ≤ 1
stopped-le idle = omega arith
stopped-le (got (exec t)) = omega arith
stopped-le (got kill) = omega arith
stopped-le (running t i row col) = omega arith
stopped-le finished = omega arith
stopped-le stopping = omega arith
stopped-le exited = omega arith

no_wrapper : (w : Wrapper) (v : List Wrapper) → tasks_left (w ∷ v) ≡ 0 → kills_left (w ∷ v) ≢ 0
no_wrapper (exec t) v a b = omega arith
no_wrapper kill v a b = omega arith

no_task : (v w : List Wrapper) → tasks_left (v ++ w) ≡ 0 → tasks_left w ≡ 0
no_task [] w e = e
no_task (exec t ∷ v) w e = absurd (omega arith)
no_task (kill ∷ v) w e = no_task v w e

no_kill : (v w : List Wrapper) → kills_left (v ++ w) ≡ 0 → kills_left w ≡ 0
no_kill [] w e = e
no_kill (exec t ∷ v) w e = no_kill v w e
no_kill (kill ∷ v) w e = absurd (omega arith)

module _ (allocator : Allocator Wrapper) (ops : Operands) (operations n : ℕ) (s : System)
    (inv : Inv ops operations n s) where
  abbrev pub CanStep : Type 0
  CanStep = (t : System) × Step allocator ops n s t

  worker_steps : (i : ℕ) → i < n → (p : Worker) → s.workers i ≡ p → acts p ≡ true → CanStep
  unfolding acts
  worker_steps i h idle e a = absurd (cc)
  worker_steps i h (got w) e a = (_, dispatch i h e)
  worker_steps i h (running t x row col) e a = elim (dec_lt x t.end_idx) [
    | yes more ↦ (
      _,
      compute i h e more (
          round_runs ops operations n (inv.pending ++ s.todo) s.workers s.products inv.ledger i t x
            row col h e more),
    )
    | no done ↦ (_, finish i h e (omega arith))
  ]
  worker_steps i h finished e a = (_, complete i h e)
  worker_steps i h stopping e a = (_, stop i h e)
  worker_steps i h exited e a = absurd (cc)

  module _ (can_add : (w : Wrapper) → add allocator s.queue w ≢ exit Error.no_memory)
      (can_take : take allocator s.queue ≢ exit Error.no_memory) where
    -- With nothing in the queue `main` can add what it has.
    main_steps :
        inv.pending ≡ [] → (w : Wrapper) (rest : List Wrapper) → s.todo ≡ w ∷ rest → CanStep
    main_steps none_pending w rest e =
        go (add allocator s.queue w) refl
          (add_refines allocator s.queue inv.pending inv.represents w)
      where
        go :
            (r : Outcome (Queue Wrapper))
            → add allocator s.queue w ≡ r
            → Adds allocator s.queue inv.pending w r
            → (t : System) × Step allocator ops n s t
        go r a (Adds.added q room rep d) = (_, enqueue e a)
        go r a (Adds.waits full) = absurd (omega (arith, full, ap length none_pending))
        go r a (Adds.out_of_memory refused) = absurd (can_add w a)

    idle_steps : (i : ℕ) → i < n → s.workers i ≡ idle → CanStep
    idle_steps i h e =
        go (take allocator s.queue) refl (take_refines allocator s.queue inv.pending inv.represents)
      where
        go :
            (r : Outcome (Wrapper × Queue Wrapper))
            → take allocator s.queue ≡ r
            → Takes allocator s.queue inv.pending r
            → (t : System) × Step allocator ops n s t
        go r a (taken x ys q cons rep d) = (_, dequeue i h e a)
        go r a (waits none_pending) = elim (List-cases s.todo) [
          | inl none_todo ↦ absurd (
              omega (
                arith,
                inv.ledger.kills,
                ap kills_left (ap (λ l. l ++ s.todo) none_pending ∙ none_todo),
                total-lt stopped stopped-le n s.workers i h (ap stopped e),
              ))
          | inr (w, rest, cons) ↦ main_steps none_pending w rest cons
        ]
        go r a (out_of_memory x c single at_front last made) = absurd (can_take a)

    -- All workers have exited, so nothing is left to add.
    all_exited : 0 < n → ((i : ℕ) → i < n → s.workers i ≡ exited) → s.todo ≡ []
    all_exited some_thread gone = elim (List-cases s.todo) [
      | inl e ↦ e
      | inr (w, rest, e) ↦ absurd (
          no_wrapper w rest (subst (λ l. tasks_left l ≡ 0) e no_tasks)
            (subst (λ l. kills_left l ≡ 0) e no_kills))
    ]
      where
        all_stopped : total stopped n s.workers ≡ n
        all_stopped = total-eq-count stopped n s.workers (λ i h. ap stopped (gone i h))

        no_tasks : tasks_left s.todo ≡ 0
        no_tasks = no_task inv.pending s.todo (inv.ledger.ended (omega (arith, all_stopped)))

        no_kills : kills_left s.todo ≡ 0
        no_kills = no_kill inv.pending s.todo (omega (arith, inv.ledger.kills, all_stopped))

    progress : 0 < n → IsJoined n s ⊎ CanStep
    progress some_thread = elim (find_below (λ i. acts (s.workers i)) n) [
      | inl (i, h, e) ↦ inr (worker_steps i h (s.workers i) refl e)
      | inr quiet ↦ elim (find_below (λ i. is_idle (s.workers i)) n) [
        | inl (i, h, e) ↦ inr (idle_steps i h (idle_of (s.workers i) e))
        | inr busy ↦
            let gone : (i : ℕ) → i < n → s.workers i ≡ exited =
              λ i h. exited_of (s.workers i) (quiet i h) (busy i h) in
            inl (all_exited some_thread gone, gone)
      ]
    ]

-- No deadlock: in every state that the pool reaches with at least one thread, either `main` has
-- joined all workers or some thread can take a step, unless `malloc` refuses a chunk to the next call of
-- `QUEUE_add` or `QUEUE_get` and so ends the program.
pub no_deadlock :
    (allocator : Allocator Wrapper) (ops : Operands) (operations n : ℕ) (products : ℕ → Matrix)
    → ((o : ℕ) → o < operations → Fits (ops.operand_as o) (ops.operand_bs o) (products o))
    → 0 < n
    → (s : System) → Reach allocator ops operations n products s
    → ((w : Wrapper) → add allocator s.queue w ≢ exit Error.no_memory)
    → take allocator s.queue ≢ exit Error.no_memory
    → IsJoined n s ⊎ ((t : System) × Step allocator ops n s t)
no_deadlock allocator ops operations n products fit some_thread s reach can_add can_take =
    progress allocator ops operations n s
      (Reach-Inv allocator ops operations n products fit s reach) can_add can_take some_thread
