-- ===== src/Tests/Witnesses.antt =====
-- The theorems at concrete inputs.
use pc_project_2024_mtr.Prelude.{
  ℕ, ◌+◌, ◌*◌, ◌≤◌, ◌<◌, ◌≡◌, ◌≢◌, ◌⊎◌, refl, [], ◌∷◌, none, some, arith, ok, length-replicate,
}
use pc_project_2024_mtr.Prelude.Int.{pos}
use pc_project_2024_mtr.Queue.{Heap, Chunk, Queue, update, add, take, empty_chunk}
use pc_project_2024_mtr.Queue.Chain.{Represents, empty-Represents, update_self}
use pc_project_2024_mtr.Queue.Take.{Takes, take_refines}
use pc_project_2024_mtr.Queue.Add.{Adds, add_refines}
use pc_project_2024_mtr.Matrix.Cells.{fill}
use pc_project_2024_mtr.Product.{cell, multiply, handle_task}
use pc_project_2024_mtr.Product.Sequential.{Fits, multiply_lem}
use pc_project_2024_mtr.Product.Parallel.{handle_task_lem}
use pc_project_2024_mtr.Request.{Wrapper, requests}
use pc_project_2024_mtr.Request.Cover.{covers}
use pc_project_2024_mtr.Request.Line.{requests-covers}
use pc_project_2024_mtr.Pool.{exited, System, Step, size}
use pc_project_2024_mtr.Pool.Safety.{no_data_race, pool-eq-multiply}
use pc_project_2024_mtr.Pool.End.{end_main, end_main-Joined}
use pc_project_2024_mtr.Pool.Termination.{steps, cells_from, steps-bound}
use pc_project_2024_mtr.Pool.Progress.{no_deadlock}
use pc_project_2024_mtr.Tests.Runs.{
  small_allocator, row_matrix, col_matrix, raw_matrix, operands, begun, run, tall_matrix,
  unit_matrix, tall_operands, tall_run,
}

pub small_fit : Fits row_matrix col_matrix raw_matrix
small_fit = omega arith

begun-Represents : Represents {A = Wrapper} begun []
begun-Represents =
    empty-Represents begun (update_self {A = Wrapper} (λ _. none) 1 (some empty_chunk)) refl refl
      (λ p ne. ground arith)

pool-eq-multiply_example : multiply row_matrix col_matrix raw_matrix ≡ ok (run.last.products 0)
unfolding run
pool-eq-multiply_example =
    pool-eq-multiply small_allocator operands 1 1 (λ _. raw_matrix) (λ o h. small_fit) run.last
      run.reach (omega arith) (refl, λ i h. ground arith) 0 (omega arith)

end_main-Joined_example :
    (h : Heap Wrapper) × (end_main run.last.queue ≡ ok h) × ((p : ℕ) → h p ≡ none)
unfolding run
end_main-Joined_example =
    end_main-Joined small_allocator operands 1 1 (λ _. raw_matrix) (λ o h. small_fit) run.last
      run.reach (omega arith) (refl, λ i h. ground arith)

steps-bound_example :
    steps small_allocator operands 1 1 (λ _. raw_matrix) run.reach
    ≤ 6 * cells_from (size operands) 1 0 + 4 * 1
steps-bound_example = steps-bound small_allocator operands 1 1 (λ _. raw_matrix) run.last run.reach

tall_fit : Fits tall_matrix unit_matrix tall_matrix
tall_fit = record {
  left = length-replicate 1001 (pos 1);
  right = refl;
  target = length-replicate 1001 (pos 1);
  inner = refl;
  same_rows = refl;
  same_cols = refl;
}

no_deadlock_example :
    ((tall_run.last.todo ≡ []) × ((i : ℕ) → i < 2 → tall_run.last.workers i ≡ exited))
    ⊎ ((t : System) × Step small_allocator tall_operands 2 tall_run.last t)
unfolding tall_run
no_deadlock_example =
    no_deadlock small_allocator tall_operands 1 2 (λ _. tall_matrix) (λ o h. tall_fit) (omega arith)
      tall_run.last tall_run.reach (λ w e. cc) (λ e. cc)

no_data_race_example : ◌≢◌ {A = ℕ} 0 1000
unfolding tall_run
no_data_race_example =
    no_data_race small_allocator tall_operands 1 2 (λ _. tall_matrix) (λ o h. tall_fit)
      tall_run.last tall_run.reach 0 1 (record { operation = 0; start_idx = 0; end_idx = 1000 })
      (record { operation = 0; start_idx = 1000; end_idx = 1001 }) 0 0 0 1000 1000 0 (omega arith)
      (omega arith) (omega arith) refl refl (omega arith) (omega arith) refl

-- A queue with one task, in the last slot of its only chunk.
abbrev last_chunk : Chunk Wrapper
last_chunk = record { tasks = λ _. some Wrapper.kill; next_chunk = none; filled = 1000; next = 999 }

abbrev last_queue : Queue Wrapper
last_queue = record {
  heap = update (λ _. none) 1 (some last_chunk);
  front = 1;
  back = 1;
  live_chunk_count = pos 1;
  dispatched = pos 0;
}

last_queue-Represents : Represents last_queue (Wrapper.kill ∷ [])
last_queue-Represents = record {
  node = record { address = 1; chunk = last_chunk; pending = Wrapper.kill ∷ [] };
  rest = [];
  chain = (
    record {
      stored = refl;
      slots = (refl, tt);
      count = omega arith;
      fits = omega arith;
      unread = omega arith;
    },
    refl,
    refl,
  );
  at_front = refl;
  tasks = refl;
  counted = refl;
  few = omega arith;
  owned = λ p apart. ground (arith, apart.0);
}

take_refines_example :
    Takes small_allocator last_queue (Wrapper.kill ∷ []) (take small_allocator last_queue)
take_refines_example =
    take_refines small_allocator last_queue (Wrapper.kill ∷ []) last_queue-Represents

add_refines_example :
    Adds small_allocator begun [] Wrapper.kill (add small_allocator begun Wrapper.kill)
add_refines_example = add_refines small_allocator begun [] begun-Represents Wrapper.kill

multiply_lem_example :
    multiply row_matrix col_matrix raw_matrix
    ≡ ok (record raw_matrix { cells = fill (cell row_matrix col_matrix) 0 1 (pos 99 ∷ []) })
multiply_lem_example = multiply_lem row_matrix col_matrix raw_matrix small_fit

handle_task_lem_example :
    handle_task row_matrix col_matrix raw_matrix 0 1
    ≡ ok (record raw_matrix { cells = fill (cell row_matrix col_matrix) 0 1 (pos 99 ∷ []) })
handle_task_lem_example =
    handle_task_lem row_matrix col_matrix raw_matrix small_fit 0 1 (omega arith) (omega arith)

requests-covers_example : covers (requests (λ _. 2500) 3 16) 2 1999 ≡ 1
requests-covers_example = requests-covers (λ _. 2500) 3 16 2 1999
