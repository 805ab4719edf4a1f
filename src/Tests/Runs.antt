-- ===== src/Tests/Runs.antt =====
-- A small allocator, a queue, matrices, and runs of the pool in a given order of its threads.
use pc_project_2024_mtr.Prelude.{
  subst, ℕ, ◌<◌, ◌≡◌, refl, List, [], ◌∷◌, Option, none, some, true, arith, Outcome, ok, dec_lt,
  replicate,
}
use mathlib.Core.Option.{some-injective}
use pc_project_2024_mtr.Prelude.Int.{ℤ, pos, negsuc, ◌+ℤ◌, ◌-ℤ◌, ◌*ℤ◌}
use pc_project_2024_mtr.Queue.{
  Queue, Allocator, create, add, take, put, create_chunk, write_task, read_task, register_dispatch,
  register_completion, update, empty_chunk,
}
use pc_project_2024_mtr.Matrix.{Matrix, load, store}
use pc_project_2024_mtr.Product.{compute_cell, add_products, add_product}
use pc_project_2024_mtr.Request.{
  Wrapper, requests, request_operations, request_multiplication, request_chunks, request_stop,
}
use pc_project_2024_mtr.Pool.{
  Worker, idle, got, running, finished, stopping, exited, Operands, System, Step, Reach, start,
  later,
}

module _ {ℓ} {B : Type ℓ} where
  -- The first free address of two.
  abbrev pub two_places : (ℕ → Option B) → Option ℕ
  two_places h = elim (h 1) [
    | none ↦ some 1
    | some _ ↦ elim (h 2) [ none ↦ some 2 | some _ ↦ none ]
  ]

  pub two_places-fresh : (h : (ℕ → Option B)) (p : ℕ) → two_places h ≡ some p → h p ≡ none
  two_places-fresh h p e = go (h 1) (h 2) refl refl e
    where
      go :
          (a b : Option B)
          → h 1 ≡ a
          → h 2 ≡ b
          → (let second : Option ℕ = elim b [ none ↦ some 2 | some _ ↦ none ] in
              let first : Option ℕ = elim a [ none ↦ some 1 | some _ ↦ second ] in first)
            ≡ some p
          → h p ≡ none
      go none b ea eb e' = subst (λ x. h x ≡ none) (some-injective _ _ e') ea
      go (some a) none ea eb e' = subst (λ x. h x ≡ none) (some-injective _ _ e') eb
      go (some a) (some b) ea eb e' = cc

module _ {ℓ} {A : Type ℓ} where
  abbrev pub small_allocator : Allocator A
  small_allocator = record {
    malloc_chunk = two_places;
    malloc_tasks = λ _. true;
    fresh = two_places-fresh;
  }

abbrev pub row_matrix : Matrix
row_matrix = record { rows = 1; cols = 2; cells = pos 2 ∷ negsuc 0 ∷ [] }

abbrev pub col_matrix : Matrix
col_matrix = record { rows = 2; cols = 1; cells = pos 3 ∷ pos 4 ∷ [] }

-- Not yet written: any value stands there.
abbrev pub raw_matrix : Matrix
raw_matrix = record { rows = 1; cols = 1; cells = pos 99 ∷ [] }

abbrev pub operands : Operands
operands = record { operand_as = λ _. row_matrix; operand_bs = λ _. col_matrix }

module _ (ops : Operands) (products : ℕ → Matrix) where
  -- What worker `i` does next, if it can; `none` if it waits or has exited.
  Next : ℕ → System → Type 0
  Next n s = Option ((t : System) × Step small_allocator ops n s t)

  worker_next : (n i : ℕ) → i < n → (s : System) (p : Worker) → s.workers i ≡ p → Next n s
  unfolding Next dec_lt
  worker_next n i h s idle e = go (take small_allocator s.queue) refl
    where
      go : (r : Outcome (Wrapper × Queue Wrapper)) → take small_allocator s.queue ≡ r → Next n s
      go (ok (w, q)) a = some (_, Step.dequeue i h e a)
      go _ a = none
  worker_next n i h s (got w) e = some (_, Step.dispatch i h e)
  worker_next n i h s (running t x row col) e = elim (dec_lt x t.end_idx) [
    | yes more ↦ go more _ refl
    | no done ↦ some (_, Step.finish i h e (omega arith))
  ]
    where
      go :
          x < t.end_idx
          → (r : Outcome (List ℤ))
          → compute_cell
              (ops.operand_as t.operation)
              (ops.operand_bs t.operation)
              row
              col
              x
              (s.products t.operation).cells
            ≡ r
          → Next n s
      go more (ok cells) c = some (_, Step.compute i h e more c)
      go more _ c = none
  worker_next n i h s finished e = some (_, Step.complete i h e)
  worker_next n i h s stopping e = some (_, Step.stop i h e)
  worker_next n i h s exited e = none

  main_next : (n : ℕ) (s : System) (l : List Wrapper) → s.todo ≡ l → Next n s
  unfolding Next
  main_next n s [] e = none
  main_next n s (w ∷ rest) e = go (add small_allocator s.queue w) refl
    where
      go : (r : Outcome (Queue Wrapper)) → add small_allocator s.queue w ≡ r → Next n s
      go (ok q) a = some (_, Step.enqueue e a)
      go _ a = none

  pub record Run (operations n : ℕ) : Type 0 where
    pub last : System
    pub reach : Reach small_allocator ops operations n products last

  -- The turn of `main` for `none`, of a worker for `some`.
  turn : {operations n : ℕ} → Run operations n → Option ℕ → Run operations n
  unfolding Next worker_next main_next dec_lt
  turn {n} r none = elim (main_next n r.last r.last.todo refl) [
    | some (t, step) ↦ record { last = t; reach = later r.reach step }
    | none ↦ r
  ]
  turn {n} r (some i) = elim (dec_lt i n) [
    | yes h ↦ elim (worker_next n i h r.last (r.last.workers i) refl) [
      | some (t, step) ↦ record { last = t; reach = later r.reach step }
      | none ↦ r
    ]
    | no _ ↦ r
  ]

  turns : {operations n : ℕ} → Run operations n → List (Option ℕ) → Run operations n
  unfolding turn
  turns r [] = r
  turns r (i ∷ is) = turns (turn r i) is

-- One operation by one worker, from beginning to end.
abbrev schedule : List (Option ℕ)
schedule = none ∷ none ∷ some 0 ∷ some 0 ∷ some 0 ∷ some 0 ∷ some 0 ∷ some 0 ∷ some 0 ∷ some 0 ∷ []

abbrev pub begun : Queue Wrapper
begun = record {
  heap = update (λ _. none) 1 (some empty_chunk);
  front = 1;
  back = 1;
  live_chunk_count = pos 1;
  dispatched = pos 0;
}

pub create_begins : create small_allocator (λ _. none) ≡ ok begun
unfolding create create_chunk
create_begins = refl

unfoldable pub run : Run operands (λ _. raw_matrix) 1 1
unfolding turns requests request_operations request_multiplication request_chunks request_stop take
    add put write_task read_task register_dispatch register_completion compute_cell add_products
    add_product load store ◌+ℤ◌ ◌*ℤ◌ ◌-ℤ◌
run = turns operands (λ _. raw_matrix) (record { last = _; reach = start create_begins }) schedule

run_product : (run.last.products 0).cells ≡ pos 2 ∷ []
unfolding run
run_product = refl

run_joined : (run.last.todo ≡ []) × (run.last.workers 0 ≡ exited)
unfolding run
run_joined = (refl, refl)

-- Products of more than one chunk, with a worker on each of the two.
abbrev pub tall_matrix : Matrix
tall_matrix = record { rows = 1001; cols = 1; cells = replicate 1001 (pos 1) }

abbrev pub unit_matrix : Matrix
unit_matrix = record { rows = 1; cols = 1; cells = pos 1 ∷ [] }

abbrev pub tall_operands : Operands
tall_operands = record { operand_as = λ _. tall_matrix; operand_bs = λ _. unit_matrix }

unfoldable pub tall_run : Run tall_operands (λ _. tall_matrix) 1 2
unfolding turns requests request_operations request_multiplication request_chunks request_stop take
    add put write_task read_task register_dispatch register_completion compute_cell add_products
    add_product load store ◌+ℤ◌ ◌*ℤ◌ ◌-ℤ◌
tall_run =
    turns tall_operands (λ _. tall_matrix) (record { last = _; reach = start create_begins })
      (none ∷ none ∷ some 0 ∷ some 1 ∷ some 0 ∷ some 1 ∷ [])

tall_run_workers :
    (tall_run.last.workers 0
      ≡ running (record { operation = 0; start_idx = 0; end_idx = 1000 }) 0 0 0)
    × (tall_run.last.workers 1
        ≡ running (record { operation = 0; start_idx = 1000; end_idx = 1001 }) 1000 1000 0)
unfolding tall_run
tall_run_workers = (refl, refl)
