-- ===== src/Tank/Pop.antt =====
-- `pop_back` of task1/Tank.cpp against the list that the tank holds.
use pc_project_2024_mtr.Prelude.{
  ℕ, suc, ◌-◌, ◌*◌, ◌/◌, ◌^◌, ◌<◌, ◌≡◌, ◌⊎◌, inl, inr, Bool-cases, refl, subst, ap, true, false,
  List, [], ◌∷◌, ◌++◌, none, some, arith, ltb, ltb→lt, length, length-append, get_elem?, lt→ltb,
  Outcome, ok, ◌>>=◌,
}
use pc_project_2024_mtr.Tank.{Heap, word, Allocator, Tank, pop_back, load}
use pc_project_2024_mtr.Tank.Holds.{Holds, Holds-front, load_item}
use pc_project_2024_mtr.Tank.Resize.{Resizes, moved, refused, resize-Resizes}
use pc_project_2024_mtr.Tank.Operations.{
  popping, item, split_last, expected, perform, asked, Performs, answered, asserted, out_of_memory,
}

module _ {ℓ} {A : Type ℓ} where
  split_last-cases :
      (xs : List A)
      → ((xs ≡ []) × (split_last xs ≡ none))
        ⊎ ((ys : List A) × (x : A) × (xs ≡ ys ++ (x ∷ [])) × (split_last xs ≡ some (ys, x)))
  unfolding split_last
  split_last-cases [] = inl (refl, refl)
  split_last-cases (x ∷ []) = inr ([], x, refl, refl)
  split_last-cases (x ∷ y ∷ xs) = elim (split_last-cases (y ∷ xs)) [
    | inl (e, e') ↦ cc
    | inr (ys, z, e, e') ↦ inr (x ∷ ys, z, ap (λ l. x ∷ l) e, rw e')
  ]

  get_elem?-last : (ys : List A) (x : A) → get_elem? (ys ++ (x ∷ [])) (length ys) ≡ some x
  get_elem?-last [] x = refl
  get_elem?-last (y ∷ ys) x = get_elem?-last ys x

module _ {ℓ} {A : Type ℓ} (allocator : Allocator A) where
  open allocator use {size_of, realloc}

  half_fits : (a b : ℕ) → a * b < 2 ^ 63 → (a / 2) * b < word
  half_fits a b h = grind arith

  module _ (base h : Heap A) (t : Tank) (xs : List A) (holds : Holds allocator base h t xs) where
    pub perform-popping : Performs allocator base h t xs popping (perform allocator popping t h)
    unfolding perform expected pop_back load
    perform-popping = elim (split_last-cases xs) [
      | inl (e, e') ↦
          let empty : ltb 0 t.filled ≡ false = ground (arith, holds.count, ap length e) in
          rw empty (asserted (rw e'))
      | inr (ys, x, e, e') ↦
          let holds' : Holds allocator base h t (ys ++ (x ∷ [])) =
            subst (λ l. Holds allocator base h t l) e holds in
          let count' : t.filled ≡ suc (length ys) =
            omega (arith, holds'.count, length-append ys (x ∷ [])) in
          let some_item : ltb 0 t.filled ≡ true = lt→ltb _ _ (omega (arith, count')) in
          let at_end : t.filled - 1 ≡ length ys = omega (arith, count') in
          let item_at : load (record t { filled = t.filled - 1 }) h (t.filled - 1) ≡ ok x =
            load_item allocator (t.filled - 1) x holds' (rw at_end (get_elem?-last ys x)) in
          let front : Holds allocator base h (record t { filled = t.filled - 1 }) ys =
            Holds-front allocator ys x holds' in
          rw (some_item, item_at)
            (elim (Bool-cases (ltb (t.filled - 1) (t.max_capacity / 2))) [
              | inl wasteful ↦ rw wasteful (
                  shrunk ys x (rw wasteful) (rw e') _
                    (resize-Resizes allocator base h (record t { filled = t.filled - 1 }) ys
                      (t.max_capacity / 2) front (omega (arith, at_end, ltb→lt _ _ wasteful))
                      (
                        half_fits t.max_capacity size_of holds.small,
                        inl (omega (arith, ltb→lt _ _ wasteful)),
                      ))
                    (omega (arith, ltb→lt _ _ wasteful)))
              | inr tight ↦ rw tight (answered (item x) ys _ h (rw e') front)
            ])
    ]
      where
        shrunk :
            (ys : List A) (x : A)
            → asked allocator popping t ≡ some (t.max_capacity / 2)
            → expected popping xs ≡ some (item x, ys)
            → (r : Outcome (Tank × Heap A))
            → Resizes allocator base h
                (record t { filled = t.filled - 1 })
                ys
                (t.max_capacity / 2)
                r
            → 0 < t.max_capacity / 2
            → Performs allocator base h t xs popping (
                ◌>>=◌ {A = A × Tank × Heap A}
                  (r >>= λ p. ok (x, p.0, p.1))
                  λ q. ok (item q.0, q.1, q.2))
        shrunk ys x a e r (moved t' h' holds' e' e'') some_size =
            answered (item x) ys t' h' e holds'
        shrunk ys x a e r (refused given some_size') some_size =
            out_of_memory (t.max_capacity / 2) a some_size given (rw e (λ e'. cc))
