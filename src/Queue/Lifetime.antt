-- ===== src/Queue/Lifetime.antt =====
-- `QUEUE_create` and `QUEUE_free`, and the chunks on the heap.
use pc_project_2024_mtr.Prelude.{
  ok-injective, subst, ℕ, zero, suc, ◌≤◌, ◌≡◌, refl, List, [], ◌∷◌, none, some, arith, length,
  ℕ_discrete, Outcome, ok, exit, Error, ◌>>=◌,
}
use pc_project_2024_mtr.Prelude.Int.{pos}
use pc_project_2024_mtr.Queue.{
  max_live_chunks, Heap, Queue, update, empty_chunk, Allocator, free_chunk, free, create_chunk,
  create,
}
use pc_project_2024_mtr.Queue.Chain.{empty-Represents, Node, Apart, Chain, Represents, update_self}
use pc_project_2024_mtr.Queue.Paths.{Creates, created, refused, create_chunk-Creates}

module _ {ℓ} {A : Type ℓ} where
  -- What `QUEUE_free_chunk` leaves of a heap: none of the chunks of the chain, and all the others.
  record Freed (h : Heap A) (n : Node A) (r : List (Node A)) (out : Outcome (Heap A)) : Type ℓ where
    heap : Heap A
    done : out ≡ ok heap
    kept : (p : ℕ) → Apart p (n ∷ r) → heap p ≡ h p
    gone : (p : ℕ) → (Apart p (n ∷ r) → h p ≡ none) → heap p ≡ none

  Freed-cons :
      (fuel : ℕ) (h : Heap A) (n m : Node A) (r : List (Node A)) (b : ℕ)
      → Chain h n (m ∷ r) b
      → Freed h m r (free_chunk fuel (some m.address) h)
      → Freed h n (m ∷ r) (free_chunk (suc fuel) (some n.address) h)
  unfolding free_chunk
  Freed-cons fuel h n m r b c rest = record {
    heap = update rest.heap n.address none;
    done = rw (c.0.stored, c.1, rest.done, rest.kept n.address c.4, c.0.stored);
    kept = λ p apart. ground (arith, apart.0, rest.kept p apart.1);
    gone = λ p free. elim (ℕ_discrete p n.address) [
      | yes e ↦ ground arith
      | no ne ↦ ground (arith, ne, rest.gone p (λ apart. free (ne, apart)))
    ];
  }

  free_chunk-Freed :
      (fuel : ℕ) (h : Heap A) (n : Node A) (r : List (Node A)) (b : ℕ)
      → length r ≤ fuel
      → Chain h n r b
      → Freed h n r (free_chunk (suc fuel) (some n.address) h)
  unfolding free_chunk
  free_chunk-Freed fuel h n [] b le c = record {
    heap = update h n.address none;
    done = rw (c.0.stored, c.1, c.0.stored);
    kept = λ p apart. ground (arith, apart.0);
    gone = λ p free. elim (ℕ_discrete p n.address) [
      | yes e ↦ ground arith
      | no ne ↦ ground (arith, ne, free (ne, tt))
    ];
  }
  free_chunk-Freed zero h n (m ∷ r) b le c = absurd (omega arith)
  free_chunk-Freed (suc fuel) h n (m ∷ r) b le c =
      Freed-cons (suc fuel) h n m r b c (free_chunk-Freed fuel h m r b (omega arith) c.5)

  -- Freeing a queue, whatever it holds, goes through with fuel for one call per chunk, and no chunk
  -- is left on the heap.
  pub free_leaves_nothing :
      (q : Queue A) (xs : List A)
      → Represents q xs
      → (h : Heap A) × (free max_live_chunks q ≡ ok h) × ((p : ℕ) → h p ≡ none)
  unfolding free
  free_leaves_nothing q xs rep = (
    freed.heap,
    subst (λ p. free_chunk max_live_chunks (some p) q.heap ≡ ok freed.heap) rep.at_front freed.done,
    λ p. freed.gone p (rep.owned p),
  )
    where
      freed :
          Freed q.heap rep.node rep.rest (free_chunk max_live_chunks (some rep.node.address) q.heap)
      freed =
          free_chunk-Freed 999 q.heap rep.node rep.rest q.back (omega (arith, rep.few)) rep.chain

abbrev new_queue {ℓ} : {A : Type ℓ} → ℕ → Heap A → Queue A
new_queue p h = record {
  heap = h;
  front = p;
  back = p;
  live_chunk_count = pos 1;
  dispatched = pos 0;
}

module _ {ℓ} {A : Type ℓ} (allocator : Allocator A) where
  pub data Begins : Outcome (Queue A) → Type ℓ where
    begun : (q : Queue A) → Represents q [] → q.dispatched ≡ pos 0 → Begins (ok q)
    out_of_memory :
        create_chunk allocator (λ _. none) ≡ exit Error.no_memory → Begins (exit Error.no_memory)

  -- `QUEUE_create` gives a queue that holds nothing, with no task dispatched, or exits because `malloc`
  -- refuses the first chunk.
  pub create_refines : Begins (create allocator (λ _. none))
  unfolding create
  create_refines =
      go (create_chunk allocator (λ _. none)) refl (create_chunk-Creates allocator (λ _. none))
    where
      go :
          (c : Outcome (ℕ × Heap A))
          → create_chunk allocator (λ _. none) ≡ c
          → Creates allocator (λ _. none) c
          → Begins (
              c >>= λ r. ok (record {
                heap = r.1;
                front = r.0;
                back = r.0;
                live_chunk_count = pos 1;
                dispatched = pos 0;
              }))
      go c made (created p fresh) =
          begun (new_queue p (update (λ _. none) p (some empty_chunk)))
            (empty-Represents (new_queue p (update (λ _. none) p (some empty_chunk)))
              (update_self (λ _. none) p (some empty_chunk)) refl refl (λ p' ne. ground arith))
            refl
      go c made refused = out_of_memory made

  -- What a call of `QUEUE_create` that returns has made.
  pub create-ok :
      (q : Queue A) → create allocator (λ _. none) ≡ ok q → Represents q [] × (q.dispatched ≡ pos 0)
  create-ok q e = go (create allocator (λ _. none)) e create_refines
    where
      go : (r : Outcome (Queue A)) → r ≡ ok q → Begins r → Represents q [] × (q.dispatched ≡ pos 0)
      go r e (begun q' rep d) =
          subst (λ p. Represents p [] × (p.dispatched ≡ pos 0)) (ok-injective q' q e) (rep, d)
      go r e (out_of_memory h) = cc
