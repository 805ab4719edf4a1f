-- ===== src/Queue/Splice.antt =====
-- The back of the linked list: the last chunk is replaced, and chunks are linked behind it.
use pc_project_2024_mtr.Prelude.{
  ap, ◌∙◌, sym, subst, ℕ, suc, ◌≡◌, ◌≢◌, refl, List, [], ◌∷◌, ◌++◌, none, some, length,
  append_assoc, append-nil,
}
use pc_project_2024_mtr.Queue.{Heap}
use pc_project_2024_mtr.Queue.Chain.{Node, IsNode, Apart, Chain, queued}

module _ {ℓ} {A : Type ℓ} where
  abbrev pub last : Node A → List (Node A) → Node A
  last n [] = n
  last n (m ∷ r) = last m r

  -- The first chunk, and those behind it, once `l` stands for the last one.
  abbrev pub first_with : Node A → List (Node A) → Node A → Node A
  first_with n [] l = l
  first_with n (m ∷ r) l = n

  abbrev pub rest_with : Node A → List (Node A) → Node A → List (Node A)
  rest_with n [] l = []
  rest_with n (m ∷ r) l = first_with m r l ∷ rest_with m r l

  -- The tasks in front of the last chunk's.
  abbrev pub before_last : Node A → List (Node A) → List A
  before_last n [] = []
  before_last n (m ∷ r) = n.pending ++ before_last m r

  pub queued-last :
      (n : Node A) (r : List (Node A)) → queued (n ∷ r) ≡ before_last n r ++ (last n r).pending
  queued-last n [] = append-nil n.pending
  queued-last n (m ∷ r) = simp (queued-last m r, append_assoc)

  pub queued-with :
      (n : Node A) (r : List (Node A)) (l : Node A) (s : List (Node A))
      → queued (first_with n r l ∷ (rest_with n r l ++ s))
        ≡ before_last n r ++ (l.pending ++ queued s)
  queued-with n [] l s = refl
  queued-with n (m ∷ r) l s = simp (queued-with m r l s, append_assoc)

  pub length-rest_with :
      (n : Node A) (r : List (Node A)) (l : Node A) → length (rest_with n r l) ≡ length r
  length-rest_with n [] l = refl
  length-rest_with n (m ∷ r) l = ap suc (length-rest_with m r l)

  pub last-Chain :
      (h : Heap A) (n : Node A) (r : List (Node A)) (b : ℕ)
      → Chain h n r b
      → IsNode h (last n r) × ((last n r).chunk.next_chunk ≡ none) × ((last n r).address ≡ b)
  last-Chain h n [] b c = c
  last-Chain h n (m ∷ r) b c = last-Chain h m r b c.5

  pub first_with-address :
      (n : Node A) (r : List (Node A)) (l : Node A)
      → l.address ≡ (last n r).address
      → (first_with n r l).address ≡ n.address
  first_with-address n [] l e = e
  first_with-address n (m ∷ r) l e = refl

  pub Apart-last :
      (p : ℕ) (n : Node A) (r : List (Node A)) → Apart p (n ∷ r) → p ≢ (last n r).address
  Apart-last p n [] a = a.0
  Apart-last p n (m ∷ r) a = Apart-last p m r a.1

  pub Apart-with :
      (p : ℕ) (n : Node A) (r : List (Node A)) (l : Node A) (s : List (Node A))
      → l.address ≡ (last n r).address
      → Apart p (n ∷ r)
      → Apart p s
      → Apart p (first_with n r l ∷ (rest_with n r l ++ s))
  Apart-with p n [] l s e a b = ((λ q. a.0 (q ∙ e)), b)
  Apart-with p n (m ∷ r) l s e a b = (a.0, Apart-with p m r l s e a.1 b)

  pub Apart-without :
      (p : ℕ) (n : Node A) (r : List (Node A)) (l : Node A) (s : List (Node A))
      → l.address ≡ (last n r).address
      → Apart p (first_with n r l ∷ (rest_with n r l ++ s))
      → Apart p (n ∷ r) × Apart p s
  Apart-without p n [] l s e a = (((λ q. a.0 (q ∙ sym e)), tt), a.1)
  Apart-without p n (m ∷ r) l s e a =
      let (front, back) = Apart-without p m r l s e a.1 in ((a.0, front), back)

  -- Where the new heap differs only at the last chunk and at addresses that were free.
  pub Chain-splice :
      (h h' : Heap A) (n : Node A) (r : List (Node A)) (b : ℕ) (l : Node A) (s : List (Node A))
      (b' : ℕ)
      → Chain h n r b
      → ((p : ℕ) → p ≢ b → h p ≢ none → h' p ≡ h p)
      → ((p : ℕ) → p ≢ b → h p ≢ none → Apart p s)
      → l.address ≡ (last n r).address
      → l.chunk.next ≡ (last n r).chunk.next
      → Chain h' l s b'
      → Chain h' (first_with n r l) (rest_with n r l ++ s) b'
  Chain-splice h h' n [] b l s b' c same apart el en c' = c'
  Chain-splice h h' n (m ∷ r) b l s b' c same apart el en c' = (
    record {
      stored = same n.address ne there ∙ c.0.stored;
      slots = c.0.slots;
      count = c.0.count;
      fits = c.0.fits;
      unread = c.0.unread;
    },
    c.1 ∙ ap some (sym (first_with-address m r l el)),
    c.2,
    first_next m r c.3 el en,
    Apart-with n.address m r l s el c.4 (apart n.address ne there),
    Chain-splice h h' m r b l s b' c.5 same apart el en c',
  )
    where
      ne : n.address ≢ b
      ne = subst (λ k. n.address ≢ k) (last-Chain h m r b c.5).2 (Apart-last n.address m r c.4)

      there : h n.address ≢ none
      there e = cc (c.0.stored, e)

      first_next :
          (m : Node A) (r : List (Node A))
          → m.chunk.next ≡ 0
          → l.address ≡ (last m r).address
          → l.chunk.next ≡ (last m r).chunk.next
          → (first_with m r l).chunk.next ≡ 0
      first_next m [] z el en = en ∙ z
      first_next m (k ∷ r) z el en = z
