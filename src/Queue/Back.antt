-- ===== src/Queue/Back.antt =====
-- The two ways in which `QUEUE_add` changes the back of a queue.
use pc_project_2024_mtr.Prelude.{
  ap, ◌∙◌, sym, subst, ℕ, suc, ◌+◌, ◌≤◌, ◌<◌, ◌≡◌, ◌≢◌, refl, List, [], ◌∷◌, ◌++◌, none, some,
  arith, length, length-append, append_assoc, append-nil, ok,
}
use pc_project_2024_mtr.Prelude.Int.{pos, ◌+ℤ◌, pos-+ℤ}
use pc_project_2024_mtr.Queue.{chunk_size, max_live_chunks, Queue, update, empty_chunk, put}
use pc_project_2024_mtr.Queue.Chain.{
  Node, IsNode, Apart, Chain, Represents, queued, update_self, Slots-append, Slots-update,
}
use pc_project_2024_mtr.Queue.Splice.{
  last, first_with, rest_with, before_last, queued-last, queued-with, length-rest_with, last-Chain,
  first_with-address, Apart-last, Apart-without, Chain-splice,
}
use pc_project_2024_mtr.Queue.Paths.{with_task, put-room}

-- A queue whose last chunk is replaced by `l`, with the chunks `s` behind it.
module _ {ℓ} {A : Type ℓ} (q : Queue A) (xs : List A) (rep : Represents q xs) where
  open rep use {node, rest, chain, at_front, tasks, counted, few, owned}

  abbrev pub back_node : Node A
  back_node = last node rest

  pub back-IsNode : IsNode q.heap back_node
  back-IsNode = (last-Chain q.heap node rest q.back chain).0

  back-address : back_node.address ≡ q.back
  back-address = (last-Chain q.heap node rest q.back chain).2

  pub back-stored : q.heap q.back ≡ some back_node.chunk
  back-stored = subst (λ p. q.heap p ≡ some back_node.chunk) back-address back-IsNode.stored

  spliced-Represents :
      (q' : Queue A) (l : Node A) (s : List (Node A)) (ys : List A)
      → q'.front ≡ q.front
      → q'.live_chunk_count ≡ pos (suc (length rest) + length s)
      → suc (length rest) + length s ≤ max_live_chunks
      → ((p : ℕ) → p ≢ q.back → q.heap p ≢ none → q'.heap p ≡ q.heap p)
      → ((p : ℕ) → p ≢ q.back → q.heap p ≢ none → Apart p s)
      → ((p : ℕ) → p ≢ q.back → q.heap p ≡ none → Apart p s → q'.heap p ≡ none)
      → l.address ≡ back_node.address
      → l.chunk.next ≡ back_node.chunk.next
      → Chain q'.heap l s q'.back
      → l.pending ++ queued s ≡ back_node.pending ++ ys
      → Represents q' (xs ++ ys)
  spliced-Represents q' l s ys ef live room same apart gone el en c et = record {
    node = first_with node rest l;
    rest = rest_with node rest l ++ s;
    chain = Chain-splice q.heap q'.heap node rest q.back l s q'.back chain same apart el en c;
    at_front = first_with-address node rest l el ∙ at_front ∙ sym ef;
    tasks =
        queued-with node rest l s
        ∙ ap (λ k. before_last node rest ++ k) et
        ∙ sym (append_assoc (before_last node rest) back_node.pending ys)
        ∙ ap (λ k. k ++ ys) (sym (queued-last node rest) ∙ tasks);
    counted =
        live
        ∙ ap pos
            (omega (arith, length-append (rest_with node rest l) s, length-rest_with node rest l));
    few = omega (arith, length-append (rest_with node rest l) s, length-rest_with node rest l);
    owned = λ p far.
        let (off, off_s) = Apart-without p node rest l s el far in
        gone p (subst (λ k. p ≢ k) back-address (Apart-last p node rest off)) (owned p off) off_s;
  }

  -- The back chunk has room: the task is written into it.
  put-Represents :
      (task : A)
      → back_node.chunk.filled < chunk_size
      → Represents
          (record q { heap = update q.heap q.back (some (with_task back_node.chunk task)) })
          (xs ++ (task ∷ []))
  put-Represents task room =
      spliced-Represents _ written [] (task ∷ []) refl (counted ∙ ap pos (omega arith))
        (omega (arith, few)) (λ p ne there. ground arith) (λ p ne there. tt)
        (λ p ne free apart. ground (arith, free)) refl refl (at_back, next_null, back-address)
        (append-nil _)
    where
      written : Node A
      written = record back_node {
        chunk = with_task back_node.chunk task;
        pending = back_node.pending ++ (task ∷ []);
      }

      next_null : back_node.chunk.next_chunk ≡ none
      next_null = (last-Chain q.heap node rest q.back chain).1

      at_back : IsNode (update q.heap q.back (some (with_task back_node.chunk task))) written
      at_back = record {
        stored =
            subst
              (λ p.
                update q.heap q.back (some (with_task back_node.chunk task)) p
                ≡ some (with_task back_node.chunk task))
              (sym back-address) (update_self q.heap q.back _);
        slots =
            Slots-append _ back_node.chunk.next back_node.pending task
              (Slots-update back_node.chunk.tasks back_node.chunk.next back_node.chunk.filled
                back_node.pending (some task) (omega (arith, back-IsNode.count)) back-IsNode.slots)
              (ground (arith, back-IsNode.count));
        count = omega (arith, back-IsNode.count, length-append back_node.pending (task ∷ []));
        fits = room;
        unread = back-IsNode.unread;
      }

  pub put_refines :
      (task : A)
      → back_node.chunk.filled < chunk_size
      → (q' : Queue A) × (put q task ≡ ok q')
        × Represents q' (xs ++ (task ∷ []))
        × (q'.dispatched ≡ q.dispatched)
  put_refines task room =
      (_, put-room q task back_node.chunk back-stored room, put-Represents task room, refl)

  -- The back chunk is full: an empty chunk at a free address is linked behind it.
  abbrev pub extended : ℕ → Queue A
  extended p = record q {
    heap =
        update (update q.heap p (some empty_chunk)) q.back
          (some (record back_node.chunk { next_chunk = some p }));
    back = p;
    live_chunk_count = q.live_chunk_count +ℤ pos 1;
  }

  back-ne_free : (p : ℕ) → q.heap p ≡ none → q.back ≢ p
  back-ne_free p free e = cc (back-stored, free, ap q.heap e)

  pub extended-stored : (p : ℕ) → q.heap p ≡ none → (extended p).heap p ≡ some empty_chunk
  extended-stored p free = ground (arith, back-ne_free p free)

  pub extended-Represents :
      (p : ℕ)
      → q.heap p ≡ none
      → back_node.chunk.filled ≡ chunk_size
      → suc (length rest) < max_live_chunks
      → Represents (extended p) xs
  extended-Represents p free full room = subst (Represents (extended p)) (append-nil xs) (
      spliced-Represents (extended p) linked (empty ∷ []) [] refl
        (rw (counted, pos-+ℤ) (ap pos (omega arith))) (omega (arith, room))
        (λ p' ne there. ground arith) (λ p' ne there. ((λ e. there (ap q.heap e ∙ free)), tt))
        (λ p' ne gone apart. ground (arith, gone, apart.0)) refl refl
        (
          at_linked,
          refl,
          full,
          refl,
          (λ e. back-ne_free p free (sym back-address ∙ e), tt),
          (at_empty, refl, refl),
        )
        refl)
    where
      linked : Node A
      linked = record back_node { chunk = record back_node.chunk { next_chunk = some p } }

      empty : Node A
      empty = record { address = p; chunk = empty_chunk; pending = [] }

      at_linked : IsNode (extended p).heap linked
      at_linked = record {
        stored =
            subst (λ k. (extended p).heap k ≡ some linked.chunk) (sym back-address)
              (update_self (update q.heap p (some empty_chunk)) q.back _);
        slots = back-IsNode.slots;
        count = back-IsNode.count;
        fits = back-IsNode.fits;
        unread = back-IsNode.unread;
      }

      at_empty : IsNode (extended p).heap empty
      at_empty = record {
        stored = extended-stored p free;
        slots = tt;
        count = omega arith;
        fits = omega arith;
        unread = omega arith;
      }
