-- ===== src/Queue/Paths.antt =====
-- The paths through `QUEUE_create_chunk`, `QUEUE_get` and `QUEUE_add`, one equation for each.
use pc_project_2024_mtr.Prelude.{
  true, false, ℕ, suc, ◌≤◌, ◌<◌, ◌≡◌, refl, none, some, arith, Outcome, ok, wait, exit, ◌>>=◌,
  Error, lt→ltb, le→leb, lt→leb_false, Option-cases, Bool-cases, inl, inr,
}
use pc_project_2024_mtr.Prelude.Int.{leb_ℤ, pos, pos, ◌-ℤ◌}
use pc_project_2024_mtr.Queue.{
  max_live_chunks, add, put, add_chunk, write_task, chunk_size, Chunk, Heap, Queue, update,
  empty_chunk, Allocator, free_chunk, read_task, create_chunk, drop_front, take,
}
use pc_project_2024_mtr.Queue.Chain.{update_self}

module _ {ℓ} {A : Type ℓ} where
  free_chunk-alone :
      (h : Heap A) (p : ℕ) (c : Chunk A)
      → c.next_chunk ≡ none
      → h p ≡ some c
      → free_chunk 2 (some p) h ≡ ok (update h p none)
  unfolding free_chunk
  free_chunk-alone h p c e at_p = rw (at_p, e, at_p)

module _ {ℓ} {A : Type ℓ} where
  -- The queue after the counter `next` of the front chunk has moved on.
  abbrev pub advance : Queue A → Chunk A → Queue A
  advance q c = record q { heap = update q.heap q.front (some (record c { next = suc c.next })) }

  -- The heap once the chunk at `p` has been unlinked, as `c`, and freed.
  abbrev pub without : Heap A → ℕ → Chunk A → Heap A
  without h p c = update (update h p (some (record c { next_chunk = none }))) p none

module _ {ℓ} {A : Type ℓ} where
  -- `task` in the next free slot of the chunk.
  abbrev pub with_task : Chunk A → A → Chunk A
  with_task c task = record c { tasks = update c.tasks c.filled (some task); filled = suc c.filled }

  pub put-room :
      (q : Queue A) (task : A) (c : Chunk A)
      → q.heap q.back ≡ some c
      → c.filled < chunk_size
      → put q task ≡ ok (record q { heap = update q.heap q.back (some (with_task c task)) })
  unfolding put write_task
  put-room q task c e room = rw (e, lt→ltb _ _ room)

module _ {ℓ} {A : Type ℓ} (allocator : Allocator A) where
  -- A chunk that is created is empty and lies where nothing was.
  pub data Creates (h : Heap A) : Outcome (ℕ × Heap A) → Type ℓ where
    created : (p : ℕ) → h p ≡ none → Creates h (ok (p, update h p (some empty_chunk)))
    refused : Creates h (exit Error.no_memory)

  pub create_chunk-Creates : (h : Heap A) → Creates h (create_chunk allocator h)
  unfolding create_chunk
  create_chunk-Creates h = elim (Option-cases (allocator.malloc_chunk h)) [
    | inl e ↦ rw (e, create_chunk) refused
    | inr (p, e) ↦ elim (Bool-cases (allocator.malloc_tasks h)) [
      | inl t ↦ rw (e, t, create_chunk) (created p (allocator.fresh h p e))
      | inr f ↦ rw (e, f, create_chunk) refused
    ]
  ]

  pub take-wait :
      (q : Queue A) (c : Chunk A)
      → q.heap q.front ≡ some c
      → c.filled ≤ c.next
      → take allocator q ≡ wait
  unfolding take
  take-wait q c e done = rw (e, le→leb _ _ done)

  pub take-keep :
      (q : Queue A) (c : Chunk A) (x : A)
      → q.heap q.front ≡ some c
      → c.next < c.filled
      → suc c.next < chunk_size
      → c.tasks c.next ≡ some x
      → take allocator q ≡ ok (x, advance q c)
  unfolding take read_task
  take-keep q c x e more fits at_next = rw (
    e,
    lt→leb_false _ _ more,
    lt→ltb c.next chunk_size (omega arith),
    at_next,
    lt→leb_false _ _ fits,
  )

  pub take-drop :
      (q : Queue A) (c : Chunk A) (x : A)
      → q.heap q.front ≡ some c
      → c.next < c.filled
      → suc c.next ≡ chunk_size
      → c.tasks c.next ≡ some x
      → take allocator q
        ≡ (drop_front allocator (advance q c) (record c { next = suc c.next }) >>= λ q'. ok (x, q'))
  unfolding take read_task
  take-drop q c x e more last at_next =
      rw (e, lt→leb_false _ _ more, lt→ltb c.next chunk_size (omega arith), at_next, last)

  pub drop_front-last :
      (q : Queue A) (c : Chunk A)
      → c.next_chunk ≡ none
      → drop_front allocator q c ≡ (
          create_chunk allocator (without q.heap q.front c) >>= λ r.
          ok (record q { heap = r.1; front = r.0; back = r.0 }))
  unfolding drop_front
  drop_front-last q c e = rw (
    free_chunk-alone _ q.front (record c { next_chunk = none }) refl (update_self q.heap q.front _),
    e,
  )

  pub drop_front-next :
      (q : Queue A) (c : Chunk A) (p : ℕ)
      → c.next_chunk ≡ some p
      → drop_front allocator q c
        ≡ ok (record q {
          heap = without q.heap q.front c;
          front = p;
          live_chunk_count = q.live_chunk_count -ℤ pos 1;
        })
  unfolding drop_front
  drop_front-next q c p e = rw (
    free_chunk-alone _ q.front (record c { next_chunk = none }) refl (update_self q.heap q.front _),
    e,
  )

module _ {ℓ} {A : Type ℓ} (allocator : Allocator A) where
  pub add-wait :
      (q : Queue A) (task : A) (c : Chunk A)
      → q.heap q.back ≡ some c
      → chunk_size ≤ c.filled
      → leb_ℤ (pos max_live_chunks) q.live_chunk_count ≡ true
      → add allocator q task ≡ wait
  unfolding add
  add-wait q task c e full many = rw (e, le→leb _ _ full, many)

  pub add-room :
      (q : Queue A) (task : A) (c : Chunk A)
      → q.heap q.back ≡ some c
      → c.filled < chunk_size
      → add allocator q task ≡ put q task
  unfolding add
  add-room q task c e room = rw (e, lt→leb_false _ _ room)

  pub add-full :
      (q : Queue A) (task : A) (c : Chunk A)
      → q.heap q.back ≡ some c
      → chunk_size ≤ c.filled
      → leb_ℤ (pos max_live_chunks) q.live_chunk_count ≡ false
      → add allocator q task ≡ (add_chunk allocator q c >>= λ q'. put q' task)
  unfolding add
  add-full q task c e full few = rw (e, le→leb _ _ full, few)
