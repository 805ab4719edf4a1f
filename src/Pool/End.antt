-- ===== src/Pool/End.antt =====
-- The end of `main` of task2/matrix_mul/parallel.c, behind `WP_join`: its checks of the queue, and `WP_free`.
use pc_project_2024_mtr.Prelude.{
  ℕ, ◌<◌, ◌≡◌, none, some, false, neb, if◌then◌else◌, Outcome, ok, exit, ◌>>=◌, or_fault, Error,
  arith,
}
use pc_project_2024_mtr.Prelude.Int.{pos, neb_ℤ}
use pc_project_2024_mtr.Queue.{Queue, Chunk, Heap, Allocator, free, max_live_chunks}
use pc_project_2024_mtr.Queue.Lifetime.{free_leaves_nothing}
use pc_project_2024_mtr.Matrix.{Matrix}
use pc_project_2024_mtr.Product.Sequential.{Fits}
use pc_project_2024_mtr.Request.{Wrapper}
use pc_project_2024_mtr.Pool.{Operands, System, Reach, IsJoined}
use pc_project_2024_mtr.Pool.Invariant.Reach.{Reach-Inv}
use pc_project_2024_mtr.Pool.Safety.{final_checks_pass}

module _ {ℓ} {A : Type ℓ} where
  -- The three checks, in the order in which `main` makes them.
  unfoldable pub check_queue : Queue A → Outcome (Queue A)
  check_queue q =
      if neb_ℤ q.dispatched (pos 0)
      then exit Error.stale_dispatch
      else if neb_ℤ q.live_chunk_count (pos 1)
      then exit Error.stale_chunks
      else do
        back ← or_fault (q.heap q.back)
        if neb back.filled back.next then exit Error.stale_tasks else ok q

  -- The checks and `WP_free`, for the chunks of the queue.
  unfoldable pub end_main : Queue A → Outcome (Heap A)
  unfolding check_queue
  end_main q = do q' ← check_queue q; free max_live_chunks q'

module _ {ℓ} {A : Type ℓ} where
  back-passes :
      (q : Queue A) (c : Chunk A)
      → c.filled ≡ c.next
      → (if neb c.filled c.next then exit Error.stale_tasks else ok q) ≡ ok q
  back-passes q c read = let e : neb c.filled c.next ≡ false = ground arith in rw e

  check_queue-passes :
      (q : Queue A) (c : Chunk A)
      → q.dispatched ≡ pos 0
      → q.live_chunk_count ≡ pos 1
      → q.heap q.back ≡ some c
      → c.filled ≡ c.next
      → check_queue q ≡ ok q
  unfolding check_queue
  check_queue-passes q c dispatched live at_back read =
      let no_dispatched : neb_ℤ q.dispatched (pos 0) ≡ false = rw dispatched in
      let one_chunk : neb_ℤ q.live_chunk_count (pos 1) ≡ false = rw live in
      rw (no_dispatched, one_chunk, at_back) (back-passes q c read)

-- When `main` has joined the workers, its three checks pass, and `WP_free` goes through and leaves no
-- chunk of the queue on the heap.
pub end_main-Joined :
    (allocator : Allocator Wrapper) (ops : Operands) (operations n : ℕ) (products : ℕ → Matrix)
    → ((o : ℕ) → o < operations → Fits (ops.operand_as o) (ops.operand_bs o) (products o))
    → (s : System) → Reach allocator ops operations n products s
    → 0 < n
    → IsJoined n s
    → (h : Heap Wrapper) × (end_main s.queue ≡ ok h) × ((p : ℕ) → h p ≡ none)
unfolding end_main
end_main-Joined allocator ops operations n products fit s reach some_thread joined =
    let (dispatched, live, (c, at_back, read)) =
      final_checks_pass allocator ops operations n products fit s reach some_thread joined in
    let inv = Reach-Inv allocator ops operations n products fit s reach in
    let (h, freed, gone) = free_leaves_nothing s.queue inv.pending inv.represents in
    (h, rw (check_queue-passes s.queue c dispatched live at_back read) freed, gone)
