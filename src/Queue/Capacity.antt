-- ===== src/Queue/Capacity.antt =====
-- How many tasks the chunks of a queue hold.
use pc_project_2024_mtr.Prelude.{
  some, none, ap, ℕ, suc, ◌+◌, ◌*◌, ◌≤◌, ◌<◌, ◌≡◌, List, [], ◌∷◌, arith, length, length-append,
  refl, ◌∙◌, subst,
}
use pc_project_2024_mtr.Prelude.Int.{pos}
use pc_project_2024_mtr.Queue.{Chunk, chunk_size, max_live_chunks, Heap, Queue}
use pc_project_2024_mtr.Queue.Chain.{Node, IsNode, Chain, Represents, queued, Chain-IsNode}
use pc_project_2024_mtr.Queue.Splice.{last, last-Chain}

module _ {ℓ} {A : Type ℓ} where
  length-zero : (r : List A) → length r ≡ 0 → r ≡ []
  length-zero [] e = refl
  length-zero (n ∷ r) e = absurd (omega arith)

module _ {ℓ} {A : Type ℓ} where
  -- All chunks but the last are full, and only the first has been read from.
  Chain-length :
      (h : Heap A) (n : Node A) (r : List (Node A)) (b : ℕ)
      → Chain h n r b
      → length (queued (n ∷ r)) + n.chunk.next ≡ chunk_size * length r + (last n r).chunk.filled
  Chain-length h n [] b c = omega (arith, c.0.count, length-append n.pending [])
  Chain-length h n (m ∷ r) b c =
      omega (arith, c.0.count, length-append n.pending (queued (m ∷ r)), Chain-length h m r b c.5)

module _ {ℓ} {A : Type ℓ} {q : Queue A} {xs : List A} (rep : Represents q xs) where
  open rep use {node, rest, chain, tasks, few}

  pub length-tasks :
      length xs + node.chunk.next ≡ chunk_size * length rest + (last node rest).chunk.filled
  length-tasks = omega (arith, Chain-length q.heap node rest q.back chain, ap length tasks)

  -- A queue never holds more than `_QUEUE_MAX_LIVE_CHUNKS` full chunks.
  pub length_bound : length xs ≤ chunk_size * max_live_chunks
  length_bound = omega (arith, length-tasks, few, (last-Chain q.heap node rest q.back chain).0.fits)

  pub front-unread : node.chunk.next < chunk_size
  front-unread = (Chain-IsNode q.heap node rest q.back chain).unread

  -- The checks that `main` of parallel.c makes of the queue at its end pass if the queue holds nothing:
  -- one chunk is live, and it has been read as far as it is filled.
  pub drained :
      xs ≡ []
      → (c : Chunk A) × (q.heap q.back ≡ some c)
        × (c.filled ≡ c.next)
        × (q.live_chunk_count ≡ pos 1)
  drained e = (
    (last node rest).chunk,
    subst (λ p. q.heap p ≡ some (last node rest).chunk) at_back.2 at_back.0.stored,
    omega (arith, length-tasks, ap length e, none_behind, ap (λ r. (last node r).chunk.next) alone),
    rep.counted ∙ ap (λ r. pos (suc (length r))) alone,
  )
    where
      at_back :
          IsNode q.heap (last node rest)
          × ((last node rest).chunk.next_chunk ≡ none)
          × ((last node rest).address ≡ q.back)
      at_back = last-Chain q.heap node rest q.back chain

      none_behind : length rest ≡ 0
      none_behind = omega (arith, length-tasks, ap length e, front-unread)

      alone : rest ≡ []
      alone = length-zero rest none_behind
