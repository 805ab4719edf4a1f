-- ===== src/Queue.antt =====
-- task2/matrix_mul/queue.h and queue.c: the chunked task queue, over a heap of chunks.
-- A call runs to the end of its critical section in one go, as `rw_mutex` lets one thread in. Where
-- the C code would wait on a condition variable the outcome is `wait`.
pub mod Chain
pub mod Paths
pub mod Splice
pub mod Front
pub mod Take
pub mod Back
pub mod Capacity
pub mod Add
pub mod Lifetime
pub mod Dispatch
use pc_project_2024_mtr.Prelude.{
  ℕ, zero, suc, ◌≡◌, Bool, ◌&&◌, Option, none, some, ltb, leb, ◌==◌, if◌then◌else◌, Outcome, ok,
  wait, exit, fault, ◌>>=◌, or_fault, Error,
}
use pc_project_2024_mtr.Prelude.Int.{ℤ, pos, ◌+ℤ◌, ◌-ℤ◌, leb_ℤ}

abbrev pub chunk_size : ℕ
chunk_size = 1000

abbrev pub max_live_chunks : ℕ
max_live_chunks = 1000

-- `tasks` is the array that only this chunk points to: `none` is a slot never written. `NULL` is
-- `none` in `next_chunk`.
pub record Chunk {ℓ} (A : Type ℓ) : Type ℓ where
  pub tasks : ℕ → Option A
  pub next_chunk : Option ℕ
  pub filled : ℕ
  pub next : ℕ

-- The chunks by their addresses; `none` is an address that holds no live chunk.
abbrev pub Heap {ℓ} : Type ℓ → Type ℓ
Heap A = ℕ → Option (Chunk A)

abbrev pub update {ℓ} : {B : Type ℓ} → (ℕ → B) → ℕ → B → ℕ → B
update f p v q = if p == q then v else f q

-- `struct Queue`, with the heap beside it.
pub record Queue {ℓ} (A : Type ℓ) : Type ℓ where
  pub heap : Heap A
  pub front : ℕ
  pub back : ℕ
  pub live_chunk_count : ℤ
  pub dispatched : ℤ

-- The C library's `malloc`, for a chunk and for its array: it may refuse, and what it returns was not
-- in use.
pub record Allocator {ℓ} (A : Type ℓ) : Type ℓ where
  pub malloc_chunk : Heap A → Option ℕ
  pub malloc_tasks : Heap A → Bool
  pub fresh : (h : Heap A) (p : ℕ) → malloc_chunk h ≡ some p → h p ≡ none

abbrev pub empty_chunk {ℓ} : {A : Type ℓ} → Chunk A
empty_chunk = record { tasks = λ _. none; next_chunk = none; filled = 0; next = 0 }

module _ {ℓ} {A : Type ℓ} where
  -- `QUEUE_free_chunk`: first the children, then the chunk, which must still be live. The fuel bounds
  -- the depth of the calls.
  unfoldable pub free_chunk : ℕ → Option ℕ → Heap A → Outcome (Heap A)
  free_chunk fuel none h = ok h
  free_chunk zero (some p) h = fault
  free_chunk (suc fuel) (some p) h = do
    c ← or_fault (h p)
    h' ← free_chunk fuel c.next_chunk h
    _ ← or_fault (h' p)
    ok (update h' p none)

  -- `QUEUE_free`, for the chunks: the queue itself is given up.
  unfoldable pub free : ℕ → Queue A → Outcome (Heap A)
  free fuel q = free_chunk fuel (some q.front) q.heap

  -- `QUEUE_register_completion`
  unfoldable pub register_completion : Queue A → Queue A
  register_completion q = record q { dispatched = q.dispatched -ℤ pos 1 }

  -- The end of `QUEUE_get`, under `dispatch_counter_mutex`.
  unfoldable pub register_dispatch : Queue A → Queue A
  register_dispatch q = record q { dispatched = q.dispatched +ℤ pos 1 }

  -- `tasks[i]`, inside the array and of a slot that was written.
  unfoldable pub read_task : Chunk A → ℕ → Outcome A
  read_task c i = if ltb i chunk_size then or_fault (c.tasks i) else fault

  -- `tasks[filled++] = task`
  unfoldable pub write_task : Chunk A → A → Outcome (Chunk A)
  write_task c task =
      if ltb c.filled chunk_size
      then ok (record c { tasks = update c.tasks c.filled (some task); filled = suc c.filled })
      else fault

  -- The end of `QUEUE_add`, where the back chunk has room.
  unfoldable pub put : Queue A → A → Outcome (Queue A)
  put q task = do
    back ← or_fault (q.heap q.back)
    back' ← write_task back task
    ok (record q { heap = update q.heap q.back (some back') })

module _ {ℓ} {A : Type ℓ} (allocator : Allocator A) where
  open allocator use {malloc_chunk, malloc_tasks}

  -- `QUEUE_create_chunk`
  unfoldable pub create_chunk : Heap A → Outcome (ℕ × Heap A)
  create_chunk h = elim (malloc_chunk h) [
    | none ↦ exit Error.no_memory
    | some p ↦
        if malloc_tasks h then ok (p, update h p (some empty_chunk)) else exit Error.no_memory
  ]

  -- `QUEUE_create`
  unfoldable pub create : Heap A → Outcome (Queue A)
  create h = do
    (p, h') ← create_chunk h
    ok (record { heap = h'; front = p; back = p; live_chunk_count = pos 1; dispatched = pos 0 })

  -- `QUEUE_get`, where the last task of the front chunk has been read: the chunk `front` leaves the
  -- queue and is freed, and an empty chunk takes the place of the last one.
  unfoldable pub drop_front : Queue A → Chunk A → Outcome (Queue A)
  drop_front q front = do
    h ←
        free_chunk 2 (some q.front)
          (update q.heap q.front (some (record front { next_chunk = none })))
    elim front.next_chunk [
      | none ↦ do (p, h') ← create_chunk h; ok (record q { heap = h'; front = p; back = p })
      | some p ↦
          ok (record q { heap = h; front = p; live_chunk_count = q.live_chunk_count -ℤ pos 1 })
    ]

  -- `QUEUE_get` up to the release of `rw_mutex`.
  unfoldable pub take : Queue A → Outcome (A × Queue A)
  take q = do
    front ← or_fault (q.heap q.front)
    if leb front.filled front.next then wait else do
      task ← read_task front front.next
      let front' = record front { next = suc front.next }
      let q' = record q { heap = update q.heap q.front (some front') }
      q'' ← (if leb chunk_size front'.next then drop_front q' front' else ok q')
      ok (task, q'')

  -- `QUEUE_get`
  unfoldable pub get : Queue A → Outcome (A × Queue A)
  get q = do (task, q') ← take q; ok (task, register_dispatch q')

  -- `QUEUE_add`, where the back chunk is full: a new chunk goes behind it.
  unfoldable pub add_chunk : Queue A → Chunk A → Outcome (Queue A)
  add_chunk q back = do
    (p, h) ← create_chunk q.heap
    ok (record q {
      heap = update h q.back (some (record back { next_chunk = some p }));
      back = p;
      live_chunk_count = q.live_chunk_count +ℤ pos 1;
    })

  -- `QUEUE_add`
  unfoldable pub add : Queue A → A → Outcome (Queue A)
  add q task = do
    back ← or_fault (q.heap q.back)
    if leb chunk_size back.filled && leb_ℤ (pos max_live_chunks) q.live_chunk_count
        then wait
        else do q' ← (if leb chunk_size back.filled then add_chunk q back else ok q); put q' task
