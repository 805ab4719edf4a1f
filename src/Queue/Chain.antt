-- ===== src/Queue/Chain.antt =====
-- The chunks of a queue as a linked list on the heap, and the tasks that it holds.
use pc_project_2024_mtr.Prelude.{
  sym, ap, ◌∙◌, subst, ℕ, suc, ◌+◌, ◌≤◌, ◌<◌, ◌≡◌, ◌≢◌, refl, List, [], ◌∷◌, ◌++◌, Option, none,
  some, arith, length, append_assoc,
}
use pc_project_2024_mtr.Prelude.Int.{pos}
use pc_project_2024_mtr.Queue.{chunk_size, max_live_chunks, Chunk, Heap, update, Queue, empty_chunk}

-- A chunk, its address and the tasks in it that have not been read.
pub record Node {ℓ} (A : Type ℓ) : Type ℓ where
  pub address : ℕ
  pub chunk : Chunk A
  pub pending : List A

module _ {ℓ} {A : Type ℓ} where
  -- The tasks stand in the array from index `i` on.
  abbrev pub Slots : (ℕ → Option A) → ℕ → List A → Type ℓ
  Slots tasks i [] = Unit
  Slots tasks i (x ∷ xs) = (tasks i ≡ some x) × Slots tasks (suc i) xs

  pub record IsNode (h : Heap A) (n : Node A) : Type ℓ where
    pub stored : h n.address ≡ some n.chunk
    pub slots : Slots n.chunk.tasks n.chunk.next n.pending
    pub count : n.chunk.next + length n.pending ≡ n.chunk.filled
    pub fits : n.chunk.filled ≤ chunk_size
    pub unread : n.chunk.next < chunk_size

  abbrev pub Apart : ℕ → List (Node A) → Type 0
  Apart p [] = Unit
  Apart p (n ∷ r) = (p ≢ n.address) × Apart p r

  -- From the node on, the chunks are linked in order up to the one at `b`. All but the last are full,
  -- and nothing has been read of those behind the first.
  abbrev pub Chain : Heap A → Node A → List (Node A) → ℕ → Type ℓ
  Chain h n [] b = IsNode h n × (n.chunk.next_chunk ≡ none) × (n.address ≡ b)
  Chain h n (m ∷ r) b =
      IsNode h n
      × (n.chunk.next_chunk ≡ some m.address)
      × (n.chunk.filled ≡ chunk_size)
      × (m.chunk.next ≡ 0)
      × Apart n.address (m ∷ r)
      × Chain h m r b

  abbrev pub queued : List (Node A) → List A
  queued [] = []
  queued (n ∷ r) = n.pending ++ queued r

  -- The queue holds the tasks `xs`, oldest first, and its chunks are all the chunks on the heap.
  pub record Represents (q : Queue A) (xs : List A) : Type ℓ where
    pub node : Node A
    pub rest : List (Node A)
    pub chain : Chain q.heap node rest q.back
    pub at_front : node.address ≡ q.front
    pub tasks : queued (node ∷ rest) ≡ xs
    pub counted : q.live_chunk_count ≡ pos (suc (length rest))
    pub few : suc (length rest) ≤ max_live_chunks
    pub owned : (p : ℕ) → Apart p (node ∷ rest) → q.heap p ≡ none

module _ {ℓ} {A : Type ℓ} where
  pub Chain-IsNode :
      (h : Heap A) (n : Node A) (r : List (Node A)) (b : ℕ) → Chain h n r b → IsNode h n
  Chain-IsNode h n [] b c = c.0
  Chain-IsNode h n (m ∷ r) b c = c.0

  update_ne : (h : Heap A) {p i : ℕ} (v : Option (Chunk A)) → p ≢ i → update h p v i ≡ h i
  update_ne h v ne = ground arith

  pub update_self : (h : Heap A) (p : ℕ) (v : Option (Chunk A)) → update h p v p ≡ v
  update_self h p v = ground arith

  IsNode-update :
      {h : Heap A} {n : Node A} (p : ℕ) (v : Option (Chunk A))
      → p ≢ n.address
      → IsNode h n
      → IsNode (update h p v) n
  IsNode-update {h} p v ne i = record {
    stored = update_ne h v ne ∙ i.stored;
    slots = i.slots;
    count = i.count;
    fits = i.fits;
    unread = i.unread;
  }

  -- What happens at another address does not touch a chain.
  pub Chain-update :
      (h : Heap A) (n : Node A) (r : List (Node A)) (b p : ℕ) (v : Option (Chunk A))
      → Apart p (n ∷ r)
      → Chain h n r b
      → Chain (update h p v) n r b
  Chain-update h n [] b p v apart c = (IsNode-update p v apart.0 c.0, c.1, c.2)
  Chain-update h n (m ∷ r) b p v apart c =
      (IsNode-update p v apart.0 c.0, c.1, c.2, c.3, c.4, Chain-update h m r b p v apart.1 c.5)

  -- An address at which nothing is stored is none of the chain's.
  pub Chain-Apart :
      (h : Heap A) (n : Node A) (r : List (Node A)) (b p : ℕ)
      → h p ≡ none
      → Chain h n r b
      → Apart p (n ∷ r)
  Chain-Apart h n [] b p free c = (λ e. cc (c.0.stored, free, ap h e), tt)
  Chain-Apart h n (m ∷ r) b p free c =
      (λ e. cc (c.0.stored, free, ap h e), Chain-Apart h m r b p free c.5)

  -- The tasks of the last chunk end the queue.
  pub queued-append : (r s : List (Node A)) → queued (r ++ s) ≡ queued r ++ queued s
  queued-append [] s = refl
  queued-append (n ∷ r) s = rw (queued-append r s, append_assoc)

  pub Slots-append :
      (tasks : ℕ → Option A) (i : ℕ) (xs : List A) (x : A)
      → Slots tasks i xs
      → tasks (i + length xs) ≡ some x
      → Slots tasks i (xs ++ (x ∷ []))
  Slots-append tasks i [] x s e = (subst (λ k. tasks k ≡ some x) (omega arith) e, tt)
  Slots-append tasks i (y ∷ xs) x s e =
      (s.0, Slots-append tasks (suc i) xs x s.1 (subst (λ k. tasks k ≡ some x) (omega arith) e))

  -- A write above the tasks leaves them.
  pub Slots-update :
      (tasks : ℕ → Option A) (i k : ℕ) (xs : List A) (v : Option A)
      → i + length xs ≤ k
      → Slots tasks i xs
      → Slots (update tasks k v) i xs
  Slots-update tasks i k [] v le s = tt
  Slots-update tasks i k (x ∷ xs) v le s =
      (ground arith, Slots-update tasks (suc i) k xs v (omega arith) s.1)

  -- A queue of one new chunk.
  pub empty-Represents :
      (q : Queue A)
      → q.heap q.front ≡ some empty_chunk
      → q.back ≡ q.front
      → q.live_chunk_count ≡ pos 1
      → ((p : ℕ) → p ≢ q.front → q.heap p ≡ none)
      → Represents q []
  empty-Represents q at_front e live others = record {
    node = record { address = q.front; chunk = empty_chunk; pending = [] };
    rest = [];
    chain = (
      record {
        stored = at_front;
        slots = tt;
        count = omega arith;
        fits = omega arith;
        unread = omega arith;
      },
      refl,
      sym e,
    );
    at_front = refl;
    tasks = refl;
    counted = live;
    few = omega arith;
    owned = λ p apart. others p apart.0;
  }
