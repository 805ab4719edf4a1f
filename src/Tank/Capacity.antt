-- ===== src/Tank/Capacity.antt =====
-- How much of its array a tank of task1/Tank.cpp leaves empty.
use pc_project_2024_mtr.Prelude.{
  ℕ, ◌+◌, ◌*◌, ◌≤◌, ◌<◌, ◌≡◌, ap, List, [], ◌∷◌, arith, Outcome, ok, >>=-eq-ok, ok-injective, subst,
}
use pc_project_2024_mtr.Tank.{
  Heap, word, Allocator, Tank, size, doubled, create, resize, push_back, pop_back,
}
use pc_project_2024_mtr.Tank.Operations.{
  Operation, Reply, resizing, measuring, pushing, popping, reading, perform,
}
use pc_project_2024_mtr.Tank.Holds.{Holds, Holds-fits}
use pc_project_2024_mtr.Tank.Runs.{run, AreCalls, Runs, ran, stopped, starved, run-Runs}
use pc_project_2024_mtr.Tank.Life.{Creates, created, no_array, create-Creates}

-- At most half of the slots and one are empty.
abbrev pub IsTight : Tank → Type 0
IsTight t = t.max_capacity ≤ 2 * t.filled + 1

-- No call asks for a size.
abbrev pub NeverResizes {ℓ} : {A : Type ℓ} → List (Operation A) → Type 0
NeverResizes [] = Unit
NeverResizes (resizing n ∷ ops) = ⊥
NeverResizes (measuring ∷ ops) = NeverResizes ops
NeverResizes (pushing x ∷ ops) = NeverResizes ops
NeverResizes (popping ∷ ops) = NeverResizes ops
NeverResizes (reading i ∷ ops) = NeverResizes ops

module _ {ℓ} {A : Type ℓ} (allocator : Allocator A) where
  open allocator use {size_of}

  resize-ok :
      (t : Tank) (h : Heap A) (n : ℕ) (t' : Tank) (h' : Heap A)
      → resize allocator t h n ≡ ok (t', h')
      → (t'.filled ≡ t.filled) × (t'.max_capacity ≡ n)
  unfolding resize
  resize-ok t h n t' h' e = ground arith

  push_back-ok :
      (t : Tank) (h : Heap A) (x : A) (t' : Tank) (h' : Heap A)
      → push_back allocator t h x ≡ ok (t', h')
      → IsTight t
      → IsTight t'
  unfolding push_back doubled
  push_back-ok t h x t' h' e tight = grind (arith, resize-ok)

  pop_back-ok :
      (t : Tank) (h : Heap A) (x : A) (t' : Tank) (h' : Heap A)
      → pop_back allocator t h ≡ ok (x, t', h')
      → IsTight t
      → IsTight t'
  unfolding pop_back
  pop_back-ok t h x t' h' e tight = grind (arith, resize-ok)

  perform-ok :
      (op : Operation A) (ops : List (Operation A)) (t : Tank) (h : Heap A) (reply : Reply A)
      (t' : Tank) (h' : Heap A)
      → NeverResizes (op ∷ ops)
      → perform allocator op t h ≡ ok (reply, t', h')
      → IsTight t
      → IsTight t' × NeverResizes ops
  unfolding perform size
  perform-ok (resizing n) ops t h reply t' h' never e tight = absurd never
  perform-ok measuring ops t h reply t' h' never e tight = (ground arith, never)
  perform-ok (pushing x) ops t h reply t' h' never e tight = (grind (arith, push_back-ok), never)
  perform-ok popping ops t h reply t' h' never e tight =
      let ((x, t₁, h₁), e₁, e₂) = >>=-eq-ok (pop_back allocator t h) e in
      (
        subst IsTight (ap (λ r. r.1) (ok-injective _ _ e₂)) (pop_back-ok t h x t₁ h₁ e₁ tight),
        never,
      )
  perform-ok (reading i) ops t h reply t' h' never e tight = (ground arith, never)

  run-IsTight :
      (ops : List (Operation A)) (t : Tank) (h : Heap A) (replies : List (Reply A)) (t' : Tank)
      (h' : Heap A)
      → NeverResizes ops
      → run allocator ops t h ≡ ok (replies, t', h')
      → IsTight t
      → IsTight t'
  unfolding run
  run-IsTight [] t h replies t' h' never e tight = ground arith
  run-IsTight (op ∷ ops) t h replies t' h' never e tight =
      let ((reply, t₁, h₁), e₁, e₂) = >>=-eq-ok (perform allocator op t h) e in
      let ((replies₂, t₂, h₂), e₃, e₄) = >>=-eq-ok (run allocator ops t₁ h₁) e₂ in
      let (tight₁, never₁) = perform-ok op ops t h reply t₁ h₁ never e₁ tight in
      let tight₂ : IsTight t₂ = run-IsTight ops t₁ h₁ replies₂ t₂ h₂ never₁ e₃ tight₁ in
      subst IsTight (ap (λ r. r.1) (ok-injective _ _ e₄)) tight₂

  module _ (base : Heap A) (capacity : ℕ) (ops : List (Operation A))
      (fits : capacity * size_of < word) (calls : AreCalls allocator ops) where
    created-Holds :
        (t : Tank) (h : Heap A)
        → create allocator capacity base ≡ ok (t, h)
        → Holds allocator base h t [] × (t.max_capacity ≡ capacity)
    created-Holds t h e = go _ e (create-Creates allocator base capacity fits)
      where
        go :
            (r : Outcome (Tank × Heap A))
            → r ≡ ok (t, h)
            → Creates allocator base capacity r
            → Holds allocator base h t [] × (t.max_capacity ≡ capacity)
        go r e (created t' h' holds same) =
            let e' : (t', h') ≡ (t, h) = ok-injective _ _ e in
            subst (λ p. Holds allocator base p.1 p.0 [] × (p.0.max_capacity ≡ capacity)) e'
              (holds, same)
        go r e (no_array given some_size) = cc

    run-fits :
        (t : Tank) (h : Heap A) (replies : List (Reply A)) (t' : Tank) (h' : Heap A)
        → Holds allocator base h t []
        → run allocator ops t h ≡ ok (replies, t', h')
        → t'.filled ≤ t'.max_capacity
    run-fits t h replies t' h' holds e = go _ e (run-Runs allocator base h t [] holds ops calls)
      where
        go :
            (r : Outcome (List (Reply A) × Tank × Heap A))
            → r ≡ ok (replies, t', h')
            → Runs allocator base h t [] ops r
            → t'.filled ≤ t'.max_capacity
        go r e (ran replies' xs t₁ h₁ e₁ holds₁) =
            let e' : t₁ ≡ t' = ap (λ p. p.1) (ok-injective _ _ e) in
            subst (λ t₂. t₂.filled ≤ t₂.max_capacity) e' (Holds-fits allocator holds₁).0
        go r e (stopped e') = cc
        go r e (starved before after op rs t₁ h₁ xs n parts runs holds₁ due asks some_size given) =
            cc

    -- A tank that is made with no room, or room for one item, and of which nobody asks for a size, never
    -- has more items than slots, nor more than twice as many slots as items and one.
    pub capacity_bound :
        capacity ≤ 1
        → NeverResizes ops
        → (t : Tank) (h : Heap A) → create allocator capacity base ≡ ok (t, h)
        → (replies : List (Reply A)) (t' : Tank) (h' : Heap A)
        → run allocator ops t h ≡ ok (replies, t', h')
        → (t'.filled ≤ t'.max_capacity) × (t'.max_capacity ≤ 2 * t'.filled + 1)
    capacity_bound small never t h made replies t' h' e =
        let (holds, same) = created-Holds t h made in
        (
          run-fits t h replies t' h' holds e,
          run-IsTight ops t h replies t' h' never e (omega (arith, same)),
        )
