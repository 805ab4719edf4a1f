-- ===== src/Tank/Steps.antt =====
-- `resize`, `at` and `push_back` of task1/Tank.cpp against the list that the tank holds.
use pc_project_2024_mtr.Prelude.{
  ℕ, suc, ◌+◌, ◌-◌, ◌*◌, ◌%◌, ◌^◌, ◌≤◌, ◌<◌, ◌≡◌, inl, inr, Bool-cases, refl, true, false, List, [],
  ◌∷◌, ◌++◌, some, arith, ltb, leb, length, get_elem?-cases, le→leb, lt→leb_false, Outcome, ok,
  exit, Error, ◌>>=◌,
}
use native.Mathlib.Decide.{dec_le}
use pc_project_2024_mtr.Prelude.Int.{ℤ, pos, negsuc}
use pc_project_2024_mtr.Tank.{
  Heap, word, Allocator, Tank, resize, store, push_back, doubled, at, to_size_t,
}
use pc_project_2024_mtr.Tank.Holds.{Holds, Holds-fits, below, load_item}
use pc_project_2024_mtr.Tank.Resize.{IsSize, Resizes, moved, refused, resize-Resizes, store_next}
use pc_project_2024_mtr.Tank.Operations.{
  resizing, pushing, reading, done, item, expected, perform, asked, IsCall, Performs, answered,
  asserted, out_of_memory,
}

module _ {ℓ} {A : Type ℓ} (allocator : Allocator A) where
  open allocator use {size_of, realloc}

  double : (a b : ℕ) → a * b < 2 ^ 63 → 2 * a * b < word
  double a b h = omega (arith, two_of a b)
    where
      two_of : (a b : ℕ) → 2 * a * b ≡ a * b + a * b
      two_of a b = omega arith

  doubled_bounds :
      (capacity : ℕ)
      → capacity * size_of < 2 ^ 63
      → (capacity < doubled capacity) × (doubled capacity * size_of < word)
  unfolding doubled
  doubled_bounds capacity small = ground (
    arith,
    allocator.size_of_small,
    below capacity size_of allocator.size_of_pos small,
    double capacity size_of small,
  )

  module _ (base h : Heap A) (t : Tank) (xs : List A) (holds : Holds allocator base h t xs) where
    resize-short : (n : ℕ) → n < t.filled → resize allocator t h n ≡ exit Error.failed_assertion
    unfolding resize
    resize-short n short = rw (lt→leb_false t.filled n short)

    pub perform-resizing :
        (n : ℕ)
        → IsSize allocator n
        → Performs allocator base h t xs (resizing n) (perform allocator (resizing n) t h)
    unfolding perform expected
    perform-resizing n call = elim (dec_le (length xs) n) [
      | yes room ↦ go _ room (resize-Resizes allocator base h t xs n holds room call)
      | no short ↦
          rw (resize-short n (omega (arith, holds.count)))
            (asserted (rw (lt→leb_false (length xs) n (omega arith))))
    ]
      where
        go :
            (r : Outcome (Tank × Heap A))
            → length xs ≤ n
            → Resizes allocator base h t xs n r
            → Performs allocator base h t xs (resizing n) (r >>= λ p. ok (done, p.0, p.1))
        go r room (moved t' h' holds' e e') = answered done xs t' h' (rw (le→leb _ _ room)) holds'
        go r room (refused given some_size) =
            out_of_memory n refl some_size given (rw (le→leb _ _ room) (λ e. cc))

    pub perform-reading :
        (i : ℤ)
        → IsCall allocator (reading i)
        → Performs allocator base h t xs (reading i) (perform allocator (reading i) t h)
    unfolding perform expected at to_size_t
    perform-reading (pos i) small = elim (get_elem?-cases xs i) [
      | inl (inside, (x, e)) ↦
          let passes : ltb (i % word) t.filled ≡ true = ground (arith, holds.count) in
          rw (passes, load_item allocator i x holds e) (answered (item x) xs t h (rw e) holds)
      | inr (outside, e) ↦
          let stops : ltb (i % word) t.filled ≡ false = ground (arith, holds.count) in
          rw stops (asserted (rw e))
    ]
    perform-reading (negsuc i) small =
        let outside : ltb (word - 1 - i % word) t.filled ≡ false =
          ground (arith, Holds-fits allocator holds) in
        rw outside (asserted refl)

    pub perform-pushing :
        (x : A) → Performs allocator base h t xs (pushing x) (perform allocator (pushing x) t h)
    unfolding perform expected push_back
    perform-pushing x = elim (Bool-cases (leb t.max_capacity t.filled)) [
      | inl full ↦ rw full (
          go _ (doubled t.max_capacity) (rw full)
            (resize-Resizes allocator base h t xs (doubled t.max_capacity) holds
              (omega (arith, holds.count, fits, bounds)) (bounds.1, inl (omega (arith, bounds))))
            (omega (arith, fits, bounds)))
      | inr room ↦ rw room (stored t h holds (ground arith))
    ]
      where
        bounds :
            (t.max_capacity < doubled t.max_capacity) × (doubled t.max_capacity * size_of < word)
        bounds = doubled_bounds t.max_capacity holds.small

        fits : (t.filled ≤ t.max_capacity) × (t.max_capacity < 2 ^ 63)
        fits = Holds-fits allocator holds

        returned : Tank → Heap A → Outcome (Tank × Heap A)
        returned t' h'' = ok (record t' { filled = suc t'.filled }, h'')

        stored :
            (t' : Tank) (h' : Heap A)
            → Holds allocator base h' t' xs
            → t'.filled < t'.max_capacity
            → Performs allocator base h t xs
                (pushing x)
                (store t' h' t'.filled x >>= (λ h''. returned t' h'') >>= λ p. ok (done, p.0, p.1))
        stored t' h' holds' room =
            let (h'', e, holds'') = store_next allocator base h' t' xs x holds' room in
            rw e (answered done (xs ++ (x ∷ [])) _ h'' refl holds'')

        go :
            (r : Outcome (Tank × Heap A)) (w : ℕ)
            → asked allocator (pushing x) t ≡ some w
            → Resizes allocator base h t xs w r
            → t.filled < w
            → Performs allocator base h t xs (pushing x) (
                (r >>= λ p. store p.0 p.1 p.0.filled x >>= λ h''. returned p.0 h'') >>= λ p.
                ok (done, p.0, p.1))
        go r w a (moved t' h' holds' e e') room = stored t' h' holds' (omega (arith, e, e'))
        go r w a (refused given some_size) room = out_of_memory w a some_size given (λ e. cc)
