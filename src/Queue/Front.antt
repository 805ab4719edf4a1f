-- ===== src/Queue/Front.antt =====
-- The front chunk of a queue, and the queue once `next` of that chunk has moved on.
use pc_project_2024_mtr.Prelude.{
  ap, ◌∙◌, sym, subst, ℕ, suc, ◌<◌, ◌≡◌, refl, List, [], ◌∷◌, ◌++◌, some, arith, length,
}
use pc_project_2024_mtr.Queue.{chunk_size, Heap, Queue, update}
use pc_project_2024_mtr.Queue.Chain.{
  Node, IsNode, Slots, Chain, Represents, queued, update_self, Chain-update, Chain-IsNode,
}
use pc_project_2024_mtr.Queue.Paths.{advance}

-- The head of a chain after its counter `next` has moved past the task `x`.
module _ {ℓ} {A : Type ℓ} where
  abbrev pub moved : Node A → List A → Node A
  moved n ys = record n { chunk = record n.chunk { next = suc n.chunk.next }; pending = ys }

  pub moved-IsNode :
      (h : Heap A) (n : Node A) (x : A) (ys : List A)
      → n.pending ≡ x ∷ ys
      → IsNode h n
      → suc n.chunk.next < chunk_size
      → IsNode (update h n.address (some (moved n ys).chunk)) (moved n ys)
  moved-IsNode h n x ys e i room = record {
    stored = update_self h n.address _;
    slots = (subst (Slots n.chunk.tasks n.chunk.next) e i.slots).1;
    count = omega (arith, i.count, ap length e);
    fits = i.fits;
    unread = room;
  }

  pub moved-Chain :
      (h : Heap A) (n : Node A) (r : List (Node A)) (b : ℕ) (x : A) (ys : List A)
      → n.pending ≡ x ∷ ys
      → suc n.chunk.next < chunk_size
      → Chain h n r b
      → Chain (update h n.address (some (moved n ys).chunk)) (moved n ys) r b
  moved-Chain h n [] b x ys e room c = (moved-IsNode h n x ys e c.0 room, c.1, c.2)
  moved-Chain h n (m ∷ r) b x ys e room c = (
    moved-IsNode h n x ys e c.0 room,
    c.1,
    c.2,
    c.3,
    c.4,
    Chain-update h m r b n.address _ c.4 c.5,
  )

  -- A queue whose front chunk is used up has no other chunk.
  pub Chain-used_up :
      (h : Heap A) (n : Node A) (r : List (Node A)) (b : ℕ)
      → n.pending ≡ []
      → Chain h n r b
      → queued (n ∷ r) ≡ []
  Chain-used_up h n [] b e c = rw e
  Chain-used_up h n (m ∷ r) b e c = absurd (omega (arith, c.0.count, c.0.unread, c.2, ap length e))

module _ {ℓ} {A : Type ℓ} (q : Queue A) (xs : List A) (rep : Represents q xs) where
  open rep use {node, rest, chain, at_front, tasks, counted, few, owned}

  pub front-IsNode : IsNode q.heap node
  front-IsNode = Chain-IsNode q.heap node rest q.back chain

  pub front-stored : q.heap q.front ≡ some node.chunk
  front-stored = subst (λ p. q.heap p ≡ some node.chunk) at_front front-IsNode.stored

  pub front-slot :
      (x : A) (ys : List A) → node.pending ≡ x ∷ ys → node.chunk.tasks node.chunk.next ≡ some x
  front-slot x ys e = (subst (Slots node.chunk.tasks node.chunk.next) e front-IsNode.slots).0

  pub tasks-cons : (x : A) (ys : List A) → node.pending ≡ x ∷ ys → xs ≡ x ∷ (ys ++ queued rest)
  tasks-cons x ys e = sym tasks ∙ ap (λ l. l ++ queued rest) e

  -- The queue once `next` of the front chunk has moved on, with the chunk still in place.
  pub kept-Represents :
      (x : A) (ys : List A)
      → node.pending ≡ x ∷ ys
      → suc node.chunk.next < chunk_size
      → Represents (advance q node.chunk) (ys ++ queued rest)
  kept-Represents x ys e room = record {
    node = moved node ys;
    rest = rest;
    chain =
        subst
          (λ p. Chain (update q.heap p (some (moved node ys).chunk)) (moved node ys) rest q.back)
          at_front (moved-Chain q.heap node rest q.back x ys e room chain);
    at_front = at_front;
    tasks = refl;
    counted = counted;
    few = few;
    owned = λ p apart. ground (arith, owned p apart);
  }
