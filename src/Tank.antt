-- ===== src/Tank.antt =====
-- task1/Tank.h and Tank.cpp: the growing array `Tank<T>` over a heap of arrays, for a type `T` that can be
-- moved by copying its bytes.
pub mod Holds
pub mod Resize
pub mod Operations
pub mod Steps
pub mod Pop
pub mod Runs
pub mod Life
pub mod Capacity
pub mod Accumulate
use pc_project_2024_mtr.Prelude.{
  ℕ, zero, suc, ◌-◌, ◌*◌, ◌/◌, ◌%◌, ◌^◌, ◌<◌, ◌≡◌, ◌⊎◌, ◌&&◌, Bool, List, [], ◌++◌, Option, none,
  some, ltb, leb, ◌==◌, if◌then◌else◌, length, get_elem?, set, take, replicate, Outcome, ok, exit,
  fault, ◌>>=◌, or_fault, Error,
}
use pc_project_2024_mtr.Prelude.Int.{ℤ, pos, negsuc}

-- The arrays by their addresses; `none` is an address that holds no live array. A slot that was never
-- written is `none`.
abbrev pub Heap {ℓ} : Type ℓ → Type ℓ
Heap A = ℕ → Option (List (Option A))

abbrev pub update {ℓ} : {B : Type ℓ} → (ℕ → B) → ℕ → B → ℕ → B
update f p v q = if p == q then v else f q

-- The C library's `malloc` and `realloc`, asked for a number of bytes: `none` is `NULL`. A new block was
-- not in use, and no block and no `T` has 2^63 bytes. `zero_frees` tells whether a `realloc` to 0 bytes that returns
-- `NULL` has freed the block.
pub record Allocator {ℓ} (A : Type ℓ) : Type ℓ where
  pub size_of : ℕ
  pub malloc : Heap A → ℕ → Option ℕ
  pub realloc : Heap A → Option ℕ → ℕ → Option ℕ
  pub zero_frees : Bool
  pub size_of_pos : 0 < size_of
  pub size_of_small : size_of < 2 ^ 63
  pub malloc_fresh : (h : Heap A) (n p : ℕ) → malloc h n ≡ some p → h p ≡ none
  pub malloc_small : (h : Heap A) (n p : ℕ) → malloc h n ≡ some p → n < 2 ^ 63
  pub realloc_fresh :
      (h : Heap A) (old : Option ℕ) (n p : ℕ)
      → realloc h old n ≡ some p
      → (h p ≡ none) ⊎ (old ≡ some p)
  pub realloc_small :
      (h : Heap A) (old : Option ℕ) (n p : ℕ) → realloc h old n ≡ some p → n < 2 ^ 63

-- The members of `Tank`.
pub record Tank : Type 0 where
  pub items : Option ℕ
  pub filled : ℕ
  pub max_capacity : ℕ

-- `size`
unfoldable pub size : Tank → ℕ
size t = t.filled

-- `std::size_t`
abbrev pub word : ℕ
word = 2 ^ 64

-- A `long long` that is compared with a `std::size_t`.
unfoldable pub to_size_t : ℤ → ℕ
to_size_t (pos n) = n % word
to_size_t (negsuc n) = word - 1 - n % word

-- The capacity that a full tank asks for in `push_back`.
unfoldable pub doubled : ℕ → ℕ
doubled max_capacity = if ltb 0 max_capacity then 2 * max_capacity % word else 1

-- `assert`
abbrev pub assert {ℓ} : {B : Type ℓ} → Bool → Outcome B → Outcome B
assert test next = if test then next else exit Error.failed_assertion

-- What `realloc` keeps of an array, with so many slots in the new one.
unfoldable pub resized {ℓ} : {A : Type ℓ} → ℕ → List (Option A) → List (Option A)
resized n slots = take n slots ++ replicate (n - length slots) none

module _ {ℓ} {A : Type ℓ} where
  -- The array that a pointer points to.
  unfoldable pub block : Heap A → Option ℕ → Outcome (List (Option A))
  block h pointer = do p ← or_fault pointer; or_fault (h p)

  -- `data[i]`, and `data[i] = item`
  unfoldable pub load : Tank → Heap A → ℕ → Outcome A
  unfolding block
  load t h i = do slots ← block h t.items; slot ← or_fault (get_elem? slots i); or_fault slot

  unfoldable pub store : Tank → Heap A → ℕ → A → Outcome (Heap A)
  store t h i item = do
    p ← or_fault t.items
    slots ← or_fault (h p)
    if ltb i (length slots) then ok (update h p (some (set slots i (some item)))) else fault

  -- `at`, and `operator[]`, which calls it. The comparison is one of `std::size_t`.
  unfoldable pub at : Tank → Heap A → ℤ → Outcome A
  unfolding load to_size_t
  at t h index =
      assert (ltb (to_size_t index) t.filled) (elim index [ pos i ↦ load t h i | negsuc i ↦ fault ])

  -- `free(data)`
  unfoldable pub free_block : Heap A → Option ℕ → Outcome (Heap A)
  free_block h none = ok h
  free_block h (some p) = do _ ← or_fault (h p); ok (update h p none)

  -- `free_array`, and the destructor, which calls it.
  unfoldable pub free_array : Tank → Heap A → Outcome (Tank × Heap A)
  unfolding free_block
  free_array t h = do
    h' ← free_block h t.items
    ok (record { items = none; filled = 0; max_capacity = 0 }, h')

  -- The loop of `accumulate`: `n` rounds from `i` on. `add` is `T`'s `+=`.
  unfoldable pub add_items : (A → A → A) → Tank → Heap A → ℕ → ℕ → A → Outcome A
  unfolding at
  add_items add tank h zero i sum = ok sum
  add_items add tank h (suc n) i sum = do
    x ← at tank h (pos i)
    add_items add tank h n (suc i) (add sum x)

  -- `accumulate`. Its parameter is a copy of the members, which the destructor frees at the end.
  unfoldable pub accumulate : A → (A → A → A) → Tank → Heap A → Outcome (A × Heap A)
  unfolding add_items free_array size
  accumulate initial add tank h = do
    sum ← add_items add tank h (size tank) 0 initial
    (_, h') ← free_array tank h
    ok (sum, h')

module _ {ℓ} {A : Type ℓ} (allocator : Allocator A) where
  open allocator use {size_of, malloc, realloc, zero_frees}

  -- `capacity * sizeof(T)`
  unfoldable pub bytes : ℕ → ℕ
  bytes capacity = (capacity * size_of) % word

  -- The constructor. The array has as many slots as its bytes make.
  unfoldable pub create : ℕ → Heap A → Outcome (Tank × Heap A)
  unfolding bytes
  create capacity h = elim (malloc h (bytes capacity)) [
    | none ↦
        assert (capacity == 0)
          (ok (record { items = none; filled = 0; max_capacity = capacity }, h))
    | some p ↦ ok (
      record { items = some p; filled = 0; max_capacity = capacity },
      update h p (some (replicate (bytes capacity / size_of) none)),
    )
  ]

  -- `realloc`: the pointer, and the heap. A null pointer is an array of no slot.
  unfoldable pub reallocate : Heap A → Option ℕ → ℕ → Outcome (Option ℕ × Heap A)
  unfolding resized
  reallocate h none n = elim (realloc h none n) [
    | none ↦ ok (none, h)
    | some p ↦ ok (some p, update h p (some (resized (n / size_of) [])))
  ]
  reallocate h (some old) n = do
    slots ← or_fault (h old)
    elim (realloc h (some old) n) [
      | none ↦ ok (none, if n == 0 && zero_frees then update h old none else h)
      | some p ↦ ok (some p, update (update h old none) p (some (resized (n / size_of) slots)))
    ]

  -- `resize`
  unfoldable pub resize : Tank → Heap A → ℕ → Outcome (Tank × Heap A)
  unfolding reallocate bytes
  resize t h new_capacity = assert (leb t.filled new_capacity) do
    (new_data, h') ← reallocate h t.items (bytes new_capacity)
    elim new_data [
      | none ↦
          assert (new_capacity == 0)
            (ok (record t { items = none; max_capacity = new_capacity }, h'))
      | some p ↦ ok (record t { items = some p; max_capacity = new_capacity }, h')
    ]

  -- `push_back`
  unfoldable pub push_back : Tank → Heap A → A → Outcome (Tank × Heap A)
  push_back t h item = do
    (t', h') ←
        (if leb t.max_capacity t.filled then resize t h (doubled t.max_capacity) else ok (t, h))
    h'' ← store t' h' t'.filled item
    ok (record t' { filled = suc t'.filled }, h'')

  -- `pop_back`
  unfoldable pub pop_back : Tank → Heap A → Outcome (A × Tank × Heap A)
  pop_back t h = assert (ltb 0 t.filled) do
    let t' = record t { filled = t.filled - 1 }
    removed ← load t' h t'.filled
    (t'', h'') ←
        (if ltb t'.filled (t'.max_capacity / 2)
          then resize t' h (t'.max_capacity / 2)
          else ok (t', h))
    ok (removed, t'', h'')
