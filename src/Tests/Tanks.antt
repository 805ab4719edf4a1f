-- ===== src/Tests/Tanks.antt =====
-- The theorems on the tank at concrete inputs, and the program task1/test.cpp.
use pc_project_2024_mtr.Prelude.{
  ℕ, ◌+◌, ◌*◌, ◌^◌, ◌≤◌, ◌<◌, ◌≡◌, ◌⊎◌, inl, inr, refl, true, List, [], ◌∷◌, Option, none, some,
  arith, ltb, if◌then◌else◌, Outcome, ok, fault, ◌>>=◌, get_elem?, Bool-cases,
}
use mathlib.Core.List.{foldl}
use pc_project_2024_mtr.Prelude.Int.{pos}
use pc_project_2024_mtr.Tank.{
  Heap, update, Allocator, Tank, create, push_back, pop_back, at, size, accumulate, free_array,
  doubled, resize, store, load, free_block, reallocate, bytes, resized,
}
use pc_project_2024_mtr.Tank.Holds.{Holds, array}
use pc_project_2024_mtr.Tank.Operations.{
  Operation, pushing, popping, reading, measuring, perform, Reply,
}
use pc_project_2024_mtr.Tank.Runs.{run}
use pc_project_2024_mtr.Tank.Life.{Lives, life, life_refines}
use pc_project_2024_mtr.Tank.Capacity.{capacity_bound}
use pc_project_2024_mtr.Tank.Accumulate.{accumulate_lem}
use pc_project_2024_mtr.Tests.Runs.{two_places, two_places-fresh}

abbrev malloc : Heap ℕ → ℕ → Option ℕ
malloc h n = if ltb n (2 ^ 63) then two_places h else none

-- An array grows where it is.
abbrev realloc : Heap ℕ → Option ℕ → ℕ → Option ℕ
realloc h none n = malloc h n
realloc h (some p) n = if ltb n (2 ^ 63) then some p else none

malloc_fresh : (h : Heap ℕ) (n p : ℕ) → malloc h n ≡ some p → h p ≡ none
malloc_fresh h n p e = elim (Bool-cases (ltb n (2 ^ 63))) [
  | inl small ↦ two_places-fresh h p (rw small at e)
  | inr large ↦ cc (rw large at e)
]

malloc_small : (h : Heap ℕ) (n p : ℕ) → malloc h n ≡ some p → n < 2 ^ 63
malloc_small h n p e = ground arith

realloc_fresh :
    (h : Heap ℕ) (old : Option ℕ) (n p : ℕ)
    → realloc h old n ≡ some p
    → (h p ≡ none) ⊎ (old ≡ some p)
realloc_fresh h none n p e = inl (malloc_fresh h n p e)
realloc_fresh h (some q) n p e = inr (ground arith)

realloc_small : (h : Heap ℕ) (old : Option ℕ) (n p : ℕ) → realloc h old n ≡ some p → n < 2 ^ 63
realloc_small h none n p e = malloc_small h n p e
realloc_small h (some q) n p e = ground arith

abbrev words : Allocator ℕ
words = record {
  size_of = 8;
  malloc = malloc;
  realloc = realloc;
  zero_frees = true;
  size_of_pos = omega arith;
  size_of_small = omega arith;
  malloc_fresh = malloc_fresh;
  malloc_small = malloc_small;
  realloc_fresh = realloc_fresh;
  realloc_small = realloc_small;
}

abbrev nothing_yet : Heap ℕ
nothing_yet = λ _. none

abbrev calls : List (Operation ℕ)
calls = pushing 5 ∷ pushing 6 ∷ pushing 7 ∷ reading (pos 1) ∷ popping ∷ measuring ∷ []

life_refines_example : Lives words nothing_yet 0 calls (life words 0 calls nothing_yet)
life_refines_example =
    life_refines words nothing_yet 0 calls (omega arith)
      (tt, (tt, (tt, (omega arith, (tt, (tt, tt))))))

abbrev made : (t : Tank) × (h : Heap ℕ) × (create words 0 nothing_yet ≡ ok (t, h))
unfolding create bytes
made = (_, _, refl)

abbrev used :
    (replies : List (Reply ℕ)) × (t : Tank) × (h : Heap ℕ) × (run words calls made.0 made.1
      ≡ ok (replies, t, h))
unfolding run perform push_back pop_back at size doubled resize store load reallocate made
used = (_, _, _, refl)

capacity_bound_example :
    (used.1.filled ≤ used.1.max_capacity) × (used.1.max_capacity ≤ 2 * used.1.filled + 1)
capacity_bound_example =
    capacity_bound words nothing_yet 0 calls (omega arith)
      (tt, (tt, (tt, (omega arith, (tt, (tt, tt)))))) (omega arith) tt made.0 made.1 made.2 used.0
      used.1 used.2 used.3

-- Three items in four slots.
abbrev three : Tank
three = record { items = some 1; filled = 3; max_capacity = 4 }

abbrev three_heap : Heap ℕ
three_heap = update nothing_yet 1 (some (some 4 ∷ some 5 ∷ some 6 ∷ none ∷ []))

three-Holds : Holds words nothing_yet three_heap three (4 ∷ 5 ∷ 6 ∷ [])
three-Holds = record {
  count = refl;
  small = omega arith;
  owns = array 1 (none ∷ []) refl refl (λ q. refl);
}

accumulate_lem_example :
    (h' : Heap ℕ) × (accumulate 0 ◌+◌ three three_heap ≡ ok (foldl ◌+◌ 0 (4 ∷ 5 ∷ 6 ∷ []), h'))
    × ((q : ℕ) → h' q ≡ none)
    × ((i x : ℕ) → get_elem? (4 ∷ 5 ∷ 6 ∷ []) i ≡ some x → at three h' (pos i) ≡ fault)
    × (free_array three h' ≡ fault)
accumulate_lem_example =
    accumulate_lem words nothing_yet three_heap three (4 ∷ 5 ∷ 6 ∷ []) three-Holds 0 ◌+◌ 1 refl

-- `main` of task1/test.cpp, over numbers, up to the destructor of its tank, which frees the array again.
test_program : Outcome (Tank × Heap ℕ)
test_program = do
  (v, h) ← create words 0 nothing_yet
  (v, h) ← push_back words v h 1
  x ← at v h (pos 0)
  (_, v, h) ← pop_back words v h
  (v, h) ← push_back words v h x
  (_, v, h) ← pop_back words v h
  (sum, h) ← accumulate 0 ◌+◌ v h
  free_array v h

test_program_faults : test_program ≡ fault
unfolding test_program create push_back at pop_back accumulate free_array bytes doubled resize
    reallocate store load free_block resized
test_program_faults = refl
