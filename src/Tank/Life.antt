-- ===== src/Tank/Life.antt =====
-- The life of a tank of task1/Tank.cpp: its constructor, any calls, and its destructor.
use pc_project_2024_mtr.Prelude.{
  ℕ, ◌*◌, ◌/◌, ◌<◌, ◌≡◌, inl, inr, Bool-cases, refl, ap, List, [], ◌∷◌, ◌≢◌, ◌++◌, Option, none,
  some, arith, map, length-replicate, replicate, ◌==◌, Outcome, ok, exit, Error, ◌>>=◌,
}
use native.Mathlib.Nat.{mod-eq_of_lt}
use pc_project_2024_mtr.Tank.{
  Heap, word, update, Allocator, Tank, create, assert, free_array, free_block, bytes,
}
use pc_project_2024_mtr.Tank.Holds.{Owns, nothing, array, Holds, update_at}
use pc_project_2024_mtr.Tank.Resize.{slots_lem, without}
use pc_project_2024_mtr.Tank.Operations.{Operation, Reply, expected, asked}
use pc_project_2024_mtr.Tank.Runs.{
  expected_run, run, AreCalls, Runs, ran, stopped, starved, run-Runs,
}

module _ {ℓ} {A : Type ℓ} (allocator : Allocator A) where
  open allocator use {size_of, malloc, realloc}

  -- A tank that is made with this capacity, used by these calls, and destroyed.
  unfoldable pub life : ℕ → List (Operation A) → Heap A → Outcome (List (Reply A) × Heap A)
  life capacity ops h = do
    (t, h') ← create allocator capacity h
    (replies, t', h'') ← run allocator ops t h'
    (_, h''') ← free_array t' h''
    ok (replies, h''')

  -- A destroyed tank leaves nothing behind.
  pub free_array-base :
      (base h : Heap A) (t : Tank) (xs : List A)
      → Holds allocator base h t xs
      → (t' : Tank) × (h' : Heap A) × (free_array t h ≡ ok (t', h')) × ((q : ℕ) → h' q ≡ base q)
  unfolding free_array
  free_array-base base h t xs holds = go holds.owns
    where
      given_up : Tank
      given_up = record { items = none; filled = 0; max_capacity = 0 }

      go :
          {pointer : Option ℕ}
          → Owns base h xs t.max_capacity pointer
          → (t' : Tank) × (h' : Heap A) × (◌>>=◌ {B = Tank × Heap A}
                (free_block h pointer)
                (λ h'. ok (given_up, h'))
              ≡ ok (t', h'))
            × ((q : ℕ) → h' q ≡ base q)
      go (nothing e e' same) = (given_up, h, refl, same)
      go (array p rest free e same) = (
        given_up,
        update h p none,
        rw (same p, update_at base p (some (map some xs ++ rest))),
        without allocator base h p _ free same,
      )

  pub data Creates (base : Heap A) (capacity : ℕ) : Outcome (Tank × Heap A) → Type ℓ where
    created :
        (t : Tank) (h : Heap A)
        → Holds allocator base h t []
        → t.max_capacity ≡ capacity
        → Creates base capacity (ok (t, h))
    no_array :
        malloc base (capacity * size_of) ≡ none
        → 0 < capacity
        → Creates base capacity (exit Error.failed_assertion)

  pub create-Creates :
      (base : Heap A) (capacity : ℕ)
      → capacity * size_of < word
      → Creates base capacity (create allocator capacity base)
  unfolding create
  create-Creates base capacity fits =
      rw (mod-eq_of_lt fits, create) (go (malloc base (capacity * size_of)) refl)
    where
      go :
          (r : Option ℕ)
          → malloc base (capacity * size_of) ≡ r
          → Creates base capacity (elim r [
            | none ↦
                assert
                  (capacity == 0)
                  (ok (record { items = none; filled = 0; max_capacity = capacity }, base))
            | some p ↦ ok (
              record { items = some p; filled = 0; max_capacity = capacity },
              update base p (some (replicate (bytes allocator capacity / size_of) none)),
            )
          ])
      go none given = elim (Bool-cases (capacity == 0)) [
        | inl e ↦
            let zero_size : capacity ≡ 0 = ground arith in
            rw e (
              created _ base
                (record {
                  count = refl;
                  small = omega (arith, ap (λ (m : ℕ). m * size_of) zero_size);
                  owns = nothing zero_size refl (λ q. refl);
                })
                refl)
        | inr e ↦ rw e (no_array given (ground arith))
      ]
      go (some p) given =
          rw (mod-eq_of_lt fits, slots_lem allocator capacity)
            (created _ _
              (record {
                count = refl;
                small = allocator.malloc_small base (capacity * size_of) p given;
                owns =
                    array p (replicate capacity none)
                      (allocator.malloc_fresh base (capacity * size_of) p given)
                      (omega (arith, length-replicate {A = Option A} capacity none)) (λ q. refl);
              })
              refl)

  pub data Lives (base : Heap A) (capacity : ℕ) (ops : List (Operation A))
      : Outcome (List (Reply A) × Heap A) → Type ℓ where
    lived :
        (replies : List (Reply A)) (xs : List A) (h : Heap A)
        → expected_run ops [] ≡ some (replies, xs)
        → ((q : ℕ) → h q ≡ base q)
        → Lives base capacity ops (ok (replies, h))
    misused : expected_run ops [] ≡ none → Lives base capacity ops (exit Error.failed_assertion)
    not_made :
        malloc base (capacity * size_of) ≡ none
        → 0 < capacity
        → Lives base capacity ops (exit Error.failed_assertion)
    not_grown :
        (t t' : Tank) (h h' : Heap A) (before after : List (Operation A)) (op : Operation A)
        (replies : List (Reply A)) (xs : List A) (n : ℕ)
        → create allocator capacity base ≡ ok (t, h)
        → ops ≡ before ++ (op ∷ after)
        → run allocator before t h ≡ ok (replies, t', h')
        → Holds allocator base h' t' xs
        → expected op xs ≢ none
        → asked allocator op t' ≡ some n
        → 0 < n
        → realloc h' t'.items (n * size_of) ≡ none
        → Lives base capacity ops (exit Error.failed_assertion)

  -- A tank that is made, used and destroyed, in a program that asks for less than 2^64 bytes at a time,
  -- and for no size of 0 unless a `realloc` to 0 bytes that returns `NULL` frees the array: its calls
  -- answer what the same calls on a list do, and no array is left or changed. An assertion ends the
  -- program only where the list has no answer, where the allocator refuses the array of at least one slot
  -- that the tank is made with, or where it refuses the array of at least one slot that the call asks for
  -- to which the program has come.
  pub life_refines :
      (base : Heap A) (capacity : ℕ) (ops : List (Operation A))
      → capacity * size_of < word
      → AreCalls allocator ops
      → Lives base capacity ops (life capacity ops base)
  unfolding life
  life_refines base capacity ops fits calls = begin _ refl (create-Creates base capacity fits)
    where
      destroyed :
          (t₀ : Tank) (h₀ : Heap A)
          → create allocator capacity base ≡ ok (t₀, h₀)
          → (r : Outcome (List (Reply A) × Tank × Heap A)) → Runs allocator base h₀ t₀ [] ops r
          → Lives base capacity ops (r >>= λ p. free_array p.1 p.2 >>= λ q. ok (p.0, q.1))
      destroyed t₀ h₀ made r (ran replies xs t h e holds) =
          let (t', h', freed, same) = free_array-base base h t xs holds in
          rw freed (lived replies xs h' e same)
      destroyed t₀ h₀ made r (stopped e) = misused e
      destroyed t₀ h₀ made r
            (starved before after op replies t h xs n parts runs holds due asks some_size given) =
          not_grown t₀ t h₀ h before after op replies xs n made parts runs holds due asks some_size
            given

      begin :
          (r : Outcome (Tank × Heap A))
          → create allocator capacity base ≡ r
          → Creates base capacity r
          → Lives base capacity ops (
              r >>= λ p.
              run allocator ops p.0 p.1 >>= λ q. free_array q.1 q.2 >>= λ s. ok (q.0, s.1))
      begin r made (created t h holds e) =
          destroyed t h made _ (run-Runs allocator base h t [] holds ops calls)
      begin r made (no_array given some_size) = not_made given some_size
