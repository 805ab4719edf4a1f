-- ===== src/Queue/Add.antt =====
-- `QUEUE_add` against the list of tasks that the queue holds.
use pc_project_2024_mtr.Prelude.{
  ok-injective, subst, ℕ, suc, ◌+◌, ◌*◌, ◌≤◌, ◌<◌, ◌≡◌, refl, List, [], ◌∷◌, ◌++◌, some, arith,
  dec_lt, length, Outcome, ok, wait, exit, ◌>>=◌, Error, lt→leb_false, le→leb,
}
use pc_project_2024_mtr.Prelude.Int.{pos, ◌+ℤ◌}
use pc_project_2024_mtr.Queue.{
  chunk_size, max_live_chunks, Chunk, Heap, Queue, update, Allocator, create_chunk, add, add_chunk,
  put,
}
use pc_project_2024_mtr.Queue.Chain.{Represents}
use pc_project_2024_mtr.Queue.Paths.{
  Creates, created, refused, create_chunk-Creates, add-room, add-full, add-wait,
}
use pc_project_2024_mtr.Queue.Back.{
  back_node, back-IsNode, back-stored, put_refines, extended, extended-stored, extended-Represents,
}
use pc_project_2024_mtr.Queue.Capacity.{length-tasks, front-unread}

module _ {ℓ} {A : Type ℓ} (allocator : Allocator A) where
  -- What `QUEUE_add` does to a queue that holds `xs`.
  pub data Adds (q : Queue A) (xs : List A) (task : A) : Outcome (Queue A) → Type ℓ where
    added :
        (q' : Queue A)
        → length xs < chunk_size * max_live_chunks
        → Represents q' (xs ++ (task ∷ []))
        → q'.dispatched ≡ q.dispatched
        → Adds q xs task (ok q')
    waits : chunk_size * max_live_chunks < length xs + chunk_size → Adds q xs task wait
    out_of_memory :
        create_chunk allocator q.heap ≡ exit Error.no_memory → Adds q xs task (exit Error.no_memory)

module _ {ℓ} {A : Type ℓ} (allocator : Allocator A) (q : Queue A) (xs : List A)
    (rep : Represents q xs) (task : A) where
  open rep use {node, rest, counted, few}

  abbrev back_chunk : Chunk A
  back_chunk = (back_node q xs rep).chunk

  Adds-put : (back_chunk.filled < chunk_size) → Adds allocator q xs task (add allocator q task)
  Adds-put room =
      let (q', e, r, d) = put_refines q xs rep task room in
      rw (add-room allocator q task back_chunk (back-stored q xs rep) room, e)
        (added q' (omega (arith, length-tasks rep)) r d)

  Adds-wait :
      back_chunk.filled ≡ chunk_size
      → max_live_chunks ≤ suc (length rest)
      → Adds allocator q xs task (add allocator q task)
  Adds-wait full many =
      rw
        (add-wait allocator q task back_chunk (back-stored q xs rep) (omega (arith, full))
          (rw counted (le→leb _ _ (omega (arith, many)))))
        (waits (omega (arith, length-tasks rep, full, front-unread rep)))

  Adds-extend :
      back_chunk.filled ≡ chunk_size
      → suc (length rest) < max_live_chunks
      → Adds allocator q xs task (add allocator q task)
  unfolding add_chunk
  Adds-extend full room =
      rw
        (add-full allocator q task back_chunk (back-stored q xs rep) (omega (arith, full))
          (rw counted (lt→leb_false _ _ (omega (arith, room)))))
        (go (create_chunk allocator q.heap) refl (create_chunk-Creates allocator q.heap))
    where
      go :
          (c : Outcome (ℕ × Heap A))
          → create_chunk allocator q.heap ≡ c
          → Creates allocator q.heap c
          → Adds allocator q xs task (
              c
              >>= (λ r. ok (record q {
                heap = update r.1 q.back (some (record back_chunk { next_chunk = some r.0 }));
                back = r.0;
                live_chunk_count = q.live_chunk_count +ℤ pos 1;
              }))
              >>= λ q'. put q' task)
      go c made (created p free) =
          let again = extended-Represents q xs rep p free full room in
          let (q', e, r, d) = put_refines (extended q xs rep p) xs again task (
            ground (
              arith,
              back-stored (extended q xs rep p) xs again,
              extended-stored q xs rep p free,
            )) in
          rw e (added q' (omega (arith, length-tasks rep, full)) r d)
      go c made refused = out_of_memory made

  -- `QUEUE_add` appends the task to a queue that holds `xs`, with the same count of dispatched tasks, and
  -- then there was room for it. It waits only if less than one chunk is free, and exits only if `malloc`
  -- refuses a new chunk.
  pub add_refines : Adds allocator q xs task (add allocator q task)
  add_refines =
      go (dec_lt back_chunk.filled chunk_size) (dec_lt (suc (length rest)) max_live_chunks)
    where
      go :
          Dec (back_chunk.filled < chunk_size)
          → Dec (suc (length rest) < max_live_chunks)
          → Adds allocator q xs task (add allocator q task)
      go (yes room) d = Adds-put room
      go (no full) (yes few) = Adds-extend (omega (arith, (back-IsNode q xs rep).fits)) few
      go (no full) (no many) = Adds-wait (omega (arith, (back-IsNode q xs rep).fits)) (omega arith)

  -- What a call of `QUEUE_add` that returns has done.
  pub add-ok :
      (q' : Queue A)
      → add allocator q task ≡ ok q'
      → Represents q' (xs ++ (task ∷ [])) × (q'.dispatched ≡ q.dispatched)
  add-ok q' e = go (add allocator q task) e add_refines
    where
      go :
          (r : Outcome (Queue A))
          → r ≡ ok q'
          → Adds allocator q xs task r
          → Represents q' (xs ++ (task ∷ [])) × (q'.dispatched ≡ q.dispatched)
      go r e (added q'' room rep d) =
          subst (λ p. Represents p (xs ++ (task ∷ [])) × (p.dispatched ≡ q.dispatched))
            (ok-injective q'' q' e) (rep, d)
      go r e (waits full) = cc
      go r e (out_of_memory h) = cc
