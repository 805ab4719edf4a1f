-- ===== src/Tank/Accumulate.antt =====
-- `accumulate` of task1/Tank.cpp: the sum that it returns, and what it does to the tank it was given.
use pc_project_2024_mtr.Prelude.{
  ℕ, suc, ◌%◌, ◌<◌, ◌≡◌, refl, sym, subst, ap, ◌∙◌, List, [], ◌∷◌, ◌++◌, map, some, none, arith, ok,
  fault, Option, length, append_assoc, length-append, get_elem?, get_elem?-cases, inl, inr, lt→ltb,
}
use mathlib.Core.List.{foldl}
use mathlib.Core.Option.{some-injective}
use pc_project_2024_mtr.Prelude.Int.{pos}
use pc_project_2024_mtr.Tank.{
  Heap, word, update, Allocator, Tank, size, at, load, block, to_size_t, free_array, free_block,
  add_items, accumulate,
}
use pc_project_2024_mtr.Tank.Holds.{Owns, nothing, array, Holds, Holds-fits, load_item, update_at}
use pc_project_2024_mtr.Tank.Resize.{without}

module _ {ℓ} {A : Type ℓ} (allocator : Allocator A) (base h : Heap A) (t : Tank) (xs : List A)
    (holds : Holds allocator base h t xs) where
  at_item : (i : ℕ) (x : A) → i < length xs → get_elem? xs i ≡ some x → at t h (pos i) ≡ ok x
  unfolding at to_size_t
  at_item i x inside e =
      let passes : i % word < t.filled = omega (arith, holds.count, Holds-fits allocator holds) in
      rw (lt→ltb _ _ passes, load_item allocator i x holds e)

  middle :
      (front : List A) (x : A) (rest : List A)
      → get_elem? (front ++ (x ∷ rest)) (length front) ≡ some x
  middle [] x rest = refl
  middle (y ∷ front) x rest = middle front x rest

  add_items-foldl :
      (add : A → A → A) (front rest : List A) (sum : A)
      → xs ≡ front ++ rest
      → add_items add t h (length rest) (length front) sum ≡ ok (foldl add sum rest)
  unfolding add_items
  add_items-foldl add front [] sum e = refl
  add_items-foldl add front (x ∷ rest) sum e =
      let inside : length front < length xs =
        omega (arith, ap length e, length-append front (x ∷ rest)) in
      let after : length (front ++ (x ∷ [])) ≡ suc (length front) =
        omega (arith, length-append front (x ∷ [])) in
      rw (at_item (length front) x inside (rw e (middle front x rest)), ← after)
        (add_items-foldl add (front ++ (x ∷ [])) rest (add sum x)
          (e ∙ sym (append_assoc front (x ∷ []) rest)))

  -- The memory that a pointer owned, once it is freed.
  gone :
      {pointer : Option ℕ}
      → Owns base h xs t.max_capacity pointer
      → (p : ℕ) → pointer ≡ some p
      → (h' : Heap A) × (free_block h pointer ≡ ok h') × ((q : ℕ) → h' q ≡ base q) × (h' p ≡ none)
  unfolding free_block
  gone (nothing e e' same) p items = cc
  gone (array p' rest free e same) p items = (
    update h p' none,
    rw (same p', update_at base p' (some (map some xs ++ rest))),
    without allocator base h p' _ free same,
    rw (← some-injective p' p items) (update_at h p' none),
  )

  dangling : (h' : Heap A) (p : ℕ) → t.items ≡ some p → h' p ≡ none → block h' t.items ≡ fault
  unfolding block
  dangling h' p items nothing_there = rw (items, nothing_there)

  at-dangling :
      (h' : Heap A) (p i : ℕ) (x : A)
      → t.items ≡ some p
      → h' p ≡ none
      → get_elem? xs i ≡ some x
      → at t h' (pos i) ≡ fault
  unfolding at to_size_t load
  at-dangling h' p i x items nothing_there e = elim (get_elem?-cases xs i) [
    | inl (inside, found) ↦
        let passes : i % word < t.filled = omega (arith, holds.count, Holds-fits allocator holds) in
        rw (lt→ltb _ _ passes, dangling h' p items nothing_there)
    | inr (outside, e') ↦ cc (sym e ∙ e')
  ]

  free-dangling : (h' : Heap A) (p : ℕ) → t.items ≡ some p → h' p ≡ none → free_array t h' ≡ fault
  unfolding free_array
  free-dangling h' p items nothing_there = rw (items, nothing_there)

  -- `accumulate` of a tank that has an array returns the sum of its items and frees that array, which is
  -- the caller's: from then on each access to an item is undefined behaviour, and so is the destructor.
  pub accumulate_lem :
      (initial : A) (add : A → A → A) (p : ℕ)
      → t.items ≡ some p
      → (h' : Heap A) × (accumulate initial add t h ≡ ok (foldl add initial xs, h'))
        × ((q : ℕ) → h' q ≡ base q)
        × ((i : ℕ) (x : A) → get_elem? xs i ≡ some x → at t h' (pos i) ≡ fault)
        × (free_array t h' ≡ fault)
  unfolding accumulate size
  accumulate_lem initial add p items =
      let (h', freed, same, nothing_there) = gone holds.owns p items in
      let total : add_items add t h t.filled 0 initial ≡ ok (foldl add initial xs) =
        subst (λ n. add_items add t h n 0 initial ≡ ok (foldl add initial xs)) (sym holds.count)
          (add_items-foldl add [] xs initial refl) in
      (
        h',
        rw (total, freed),
        same,
        λ i x e. at-dangling h' p i x items nothing_there e,
        free-dangling h' p items nothing_there,
      )
