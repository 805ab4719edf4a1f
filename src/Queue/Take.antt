-- ===== src/Queue/Take.antt =====
-- `QUEUE_get` against the list of tasks that the queue holds.
use pc_project_2024_mtr.Prelude.{
  ok-injective, dec_lt, ℕ_discrete, ap, ◌∙◌, sym, subst, ℕ, suc, ◌<◌, ◌≡◌, ◌≢◌, refl, List, [], ◌∷◌,
  ◌++◌, none, some, arith, length, Outcome, ok, wait, exit, ◌>>=◌, Error,
}
use pc_project_2024_mtr.Prelude.Int.{pos, ◌-ℤ◌, pos-ℤ_one}
use pc_project_2024_mtr.Queue.{
  chunk_size, Chunk, Heap, Queue, update, empty_chunk, Allocator, create_chunk, take,
}
use pc_project_2024_mtr.Queue.Chain.{
  empty-Represents, Node, Apart, Chain, Represents, queued, update_self, Chain-update,
}
use pc_project_2024_mtr.Queue.Paths.{
  Creates, created, refused, create_chunk-Creates, take-wait, take-keep, take-drop, advance,
  drop_front-last, drop_front-next, without,
}
use pc_project_2024_mtr.Queue.Front.{
  moved, Chain-used_up, front-IsNode, front-stored, front-slot, tasks-cons, kept-Represents,
}

module _ {ℓ} {A : Type ℓ} where
  -- The heap once the last slot of the front chunk `c` has been read and the chunk has been freed.
  abbrev pub left_behind : Queue A → Chunk A → Heap A
  left_behind q c = without (advance q c).heap q.front (record c { next = suc c.next })

module _ {ℓ} {A : Type ℓ} (allocator : Allocator A) where
  -- What `QUEUE_get` does under `rw_mutex` to a queue that holds `xs`.
  pub data Takes (q : Queue A) (xs : List A) : Outcome (A × Queue A) → Type ℓ where
    taken :
        (x : A) (ys : List A) (q' : Queue A)
        → xs ≡ x ∷ ys
        → Represents q' ys
        → q'.dispatched ≡ q.dispatched
        → Takes q xs (ok (x, q'))
    waits : xs ≡ [] → Takes q xs wait
    out_of_memory :
        (x : A) (c : Chunk A)
        → xs ≡ x ∷ []
        → q.heap q.front ≡ some c
        → suc c.next ≡ chunk_size
        → create_chunk allocator (left_behind q c) ≡ exit Error.no_memory
        → Takes q xs (exit Error.no_memory)

module _ {ℓ} {A : Type ℓ} (allocator : Allocator A) (q : Queue A) (xs : List A)
    (rep : Represents q xs) where
  open rep use {node}

  Takes-empty : node.pending ≡ [] → Takes allocator q xs (take allocator q)
  Takes-empty e =
      rw
        (take-wait allocator q node.chunk (front-stored q xs rep)
          (omega (arith, (front-IsNode q xs rep).count, ap length e)))
        (waits (sym rep.tasks ∙ Chain-used_up q.heap node rep.rest q.back e rep.chain))

  Takes-keep :
      (x : A) (ys : List A)
      → node.pending ≡ x ∷ ys
      → suc node.chunk.next < chunk_size
      → Takes allocator q xs (take allocator q)
  Takes-keep x ys e room =
      rw
        (take-keep allocator q node.chunk x (front-stored q xs rep)
          (omega (arith, (front-IsNode q xs rep).count, ap length e)) room
          (front-slot q xs rep x ys e))
        (taken x (ys ++ queued rep.rest) _ (tasks-cons q xs rep x ys e)
          (kept-Represents q xs rep x ys e room) refl)

-- The last task of the front chunk has been read.
module _ {ℓ} {A : Type ℓ} (allocator : Allocator A) (q : Queue A) (xs : List A)
    (rep : Represents q xs) where
  open rep use {node, rest, at_front, counted, few, owned}

  abbrev used_up : Chunk A
  used_up = (moved node []).chunk

  abbrev left : Heap A
  left = without (advance q node.chunk).heap q.front used_up

  left_others : (p : ℕ) → p ≢ node.address → left p ≡ q.heap p
  left_others p ne = ground arith

  left_none : (p : ℕ) → Apart p rest → left p ≡ none
  left_none p apart = elim (ℕ_discrete p node.address) [
    | yes e ↦ ground arith
    | no ne ↦ left_others p ne ∙ owned p (ne, apart)
  ]

  -- The used-up chunk was the only one: an empty chunk takes its place.
  renewed-Represents :
      (p : ℕ)
      → rest ≡ []
      → Represents (record q { heap = update left p (some empty_chunk); front = p; back = p }) []
  renewed-Represents p e =
      empty-Represents _ (update_self left p (some empty_chunk)) refl
        (counted ∙ ap (λ l. pos (suc (length l))) e)
        (λ p' ne. ground (arith, ne, left_none p' (subst (Apart p') (sym e) tt)))

  -- Another chunk stands behind the used-up one.
  relinked-Represents :
      (m : Node A) (r : List (Node A))
      → rest ≡ m ∷ r
      → Represents
          (record q {
            heap = left;
            front = m.address;
            live_chunk_count = q.live_chunk_count -ℤ pos 1;
          })
          (queued rest)
  relinked-Represents m r e = record {
    node = m;
    rest = r;
    chain = Chain-update _ m r q.back q.front none apart (
        Chain-update _ m r q.back q.front _ apart
          (Chain-update q.heap m r q.back q.front _ apart linked.5));
    at_front = refl;
    tasks = ap queued (sym e);
    counted = rw (counted, e, pos-ℤ_one);
    few = omega (arith, few, ap length e);
    owned = λ p apart. left_none p (subst (Apart p) (sym e) apart);
  }
    where
      linked : Chain q.heap node (m ∷ r) q.back
      linked = subst (λ l. Chain q.heap node l q.back) e rep.chain

      apart : Apart q.front (m ∷ r)
      apart = subst (λ p. Apart p (m ∷ r)) at_front linked.4

  Takes-last :
      (x : A)
      → node.pending ≡ x ∷ []
      → suc node.chunk.next ≡ chunk_size
      → rest ≡ []
      → Takes allocator q xs (take allocator q)
  Takes-last x e last alone =
      rw
        (
          take-drop allocator q node.chunk x (front-stored q xs rep)
              (omega (arith, (front-IsNode q xs rep).count, ap length e)) last
              (front-slot q xs rep x [] e),
          drop_front-last allocator (advance q node.chunk) used_up
              (subst (λ l. Chain q.heap node l q.back) alone rep.chain).1,
        )
        (go (create_chunk allocator left) refl (create_chunk-Creates allocator left))
    where
      go :
          (c : Outcome (ℕ × Heap A))
          → create_chunk allocator left ≡ c
          → Creates allocator left c
          → Takes allocator q xs (
              c >>= (λ r. ok (record q { heap = r.1; front = r.0; back = r.0 })) >>= λ q'.
              ok (x, q'))
      go c made (created p free) =
          taken x [] _ (tasks-cons q xs rep x [] e ∙ ap (λ l. x ∷ queued l) alone)
            (renewed-Represents p alone) refl
      go c made refused =
          out_of_memory x node.chunk (tasks-cons q xs rep x [] e ∙ ap (λ l. x ∷ queued l) alone)
            (front-stored q xs rep) last made

  Takes-next :
      (x : A) (m : Node A) (r : List (Node A))
      → node.pending ≡ x ∷ []
      → suc node.chunk.next ≡ chunk_size
      → rest ≡ m ∷ r
      → Takes allocator q xs (take allocator q)
  Takes-next x m r e last more =
      rw
        (
          take-drop allocator q node.chunk x (front-stored q xs rep)
              (omega (arith, (front-IsNode q xs rep).count, ap length e)) last
              (front-slot q xs rep x [] e),
          drop_front-next allocator (advance q node.chunk) used_up m.address
              (subst (λ l. Chain q.heap node l q.back) more rep.chain).1,
        )
        (taken x (queued rest) _ (tasks-cons q xs rep x [] e) (relinked-Represents m r more) refl)

module _ {ℓ} {A : Type ℓ} (allocator : Allocator A) (q : Queue A) (xs : List A)
    (rep : Represents q xs) where
  open rep use {node, rest}

  -- Under `rw_mutex`, `QUEUE_get` takes the oldest task of a queue that holds `xs` and leaves the queue
  -- holding the others, with the same count of dispatched tasks. It waits exactly if there is no task,
  -- and exits only where one task is left, in the last slot of the front chunk, and `malloc` refuses the
  -- chunk that replaces that one once it has been freed.
  pub take_refines : Takes allocator q xs (take allocator q)
  take_refines = go node.pending refl rest refl (dec_lt (suc node.chunk.next) chunk_size)
    where
      go :
          (l : List A)
          → node.pending ≡ l
          → (r : List (Node A)) → rest ≡ r
          → Dec (suc node.chunk.next < chunk_size)
          → Takes allocator q xs (take allocator q)
      go [] e r er d = Takes-empty allocator q xs rep e
      go (x ∷ ys) e r er (yes room) = Takes-keep allocator q xs rep x ys e room
      go (x ∷ []) e [] er (no full) =
          Takes-last allocator q xs rep x e (omega (arith, (front-IsNode q xs rep).unread)) er
      go (x ∷ []) e (m ∷ r) er (no full) =
          Takes-next allocator q xs rep x m r e (omega (arith, (front-IsNode q xs rep).unread)) er
      go (x ∷ y ∷ ys) e r er (no full) =
          absurd (
            omega (arith, (front-IsNode q xs rep).count, (front-IsNode q xs rep).fits, ap length e))

  -- What a call of `QUEUE_get` that returns has done under `rw_mutex`.
  pub take-ok :
      (x : A) (q' : Queue A)
      → take allocator q ≡ ok (x, q')
      → (ys : List A) × (xs ≡ x ∷ ys) × Represents q' ys × (q'.dispatched ≡ q.dispatched)
  take-ok x q' e = go (take allocator q) e take_refines
    where
      go :
          (r : Outcome (A × Queue A))
          → r ≡ ok (x, q')
          → Takes allocator q xs r
          → (ys : List A) × (xs ≡ x ∷ ys) × Represents q' ys × (q'.dispatched ≡ q.dispatched)
      go r e (taken y ys q'' cons rep d) =
          let p : y ≡ x = ap (λ t. t.0) (ok-injective _ _ e) in
          let p' : q'' ≡ q' = ap (λ t. t.1) (ok-injective _ _ e) in
          (
            ys,
            cons ∙ ap (λ z. z ∷ ys) p,
            subst (λ z. Represents z ys) p' rep,
            ap (λ z. z.dispatched) (sym p') ∙ d,
          )
      go r e (waits none_left) = cc
      go r e (out_of_memory y c single at_front last made) = cc
