-- ===== src/Tank/Operations.antt =====
-- The operations of task1/Tank.cpp as one data type, what each does to the tank, and what it should do to
-- the list that the tank holds.
use pc_project_2024_mtr.Prelude.{
  ℕ, ◌*◌, ◌^◌, ◌<◌, ◌≡◌, ◌≢◌, List, [], ◌∷◌, ◌++◌, Option, none, some, leb, ltb, ◌-◌, ◌/◌, length,
  get_elem?, Outcome, ok, exit, Error, ◌>>=◌, if◌then◌else◌,
}
use mathlib.Core.Option
use pc_project_2024_mtr.Prelude.Int.{ℤ, pos, negsuc}
use pc_project_2024_mtr.Tank.{Heap, Allocator, Tank, size, doubled, resize, push_back, pop_back, at}
use pc_project_2024_mtr.Tank.Holds.{Holds}
use pc_project_2024_mtr.Tank.Resize.{IsSize}

-- The calls of a tank's member functions.
pub data Operation {ℓ} (A : Type ℓ) : Type ℓ where
  resizing : ℕ → Operation A
  measuring : Operation A
  pushing : A → Operation A
  popping : Operation A
  reading : ℤ → Operation A

pub data Reply {ℓ} (A : Type ℓ) : Type ℓ where
  done : Reply A
  count : ℕ → Reply A
  item : A → Reply A

module _ {ℓ} {A : Type ℓ} where
  -- The items before the last one, and the last one.
  unfoldable pub split_last : List A → Option (List A × A)
  split_last [] = none
  split_last (x ∷ []) = some ([], x)
  split_last (x ∷ y ∷ xs) = Option.map (λ p. (x ∷ p.0, p.1)) (split_last (y ∷ xs))

  -- What an operation answers, and the list that it leaves; `none` is a call that the comments of Tank.h
  -- exclude.
  unfoldable pub expected : Operation A → List A → Option (Reply A × List A)
  unfolding split_last
  expected (resizing n) xs = if leb (length xs) n then some (done, xs) else none
  expected measuring xs = some (count (length xs), xs)
  expected (pushing x) xs = some (done, xs ++ (x ∷ []))
  expected popping xs = Option.map (λ p. (item p.1, p.0)) (split_last xs)
  expected (reading (pos i)) xs = Option.map (λ x. (item x, xs)) (get_elem? xs i)
  expected (reading (negsuc i)) xs = none

module _ {ℓ} {A : Type ℓ} (allocator : Allocator A) where
  open allocator use {size_of, realloc}

  unfoldable pub perform : Operation A → Tank → Heap A → Outcome (Reply A × Tank × Heap A)
  unfolding size
  perform (resizing n) t h = do (t', h') ← resize allocator t h n; ok (done, t', h')
  perform measuring t h = ok (count (size t), t, h)
  perform (pushing x) t h = do (t', h') ← push_back allocator t h x; ok (done, t', h')
  perform popping t h = do (x, t', h') ← pop_back allocator t h; ok (item x, t', h')
  perform (reading index) t h = do x ← at t h index; ok (item x, t, h)

  -- The number of slots for which an operation asks `realloc`, where it does.
  abbrev pub asked : Operation A → Tank → Option ℕ
  asked (resizing n) t = some n
  asked (pushing x) t = if leb t.max_capacity t.filled then some (doubled t.max_capacity) else none
  asked popping t =
      if ltb (t.filled - 1) (t.max_capacity / 2) then some (t.max_capacity / 2) else none
  asked _ t = none

  -- The arguments fit their types, and an array of the size that is asked for has less than 2^64 bytes.
  abbrev pub IsCall : Operation A → Type 0
  IsCall (resizing n) = IsSize allocator n
  IsCall measuring = Unit
  IsCall (pushing x) = Unit
  IsCall popping = Unit
  IsCall (reading (pos i)) = i < 2 ^ 63
  IsCall (reading (negsuc i)) = i < 2 ^ 63

  pub data Performs (base h : Heap A) (t : Tank) (xs : List A) (op : Operation A)
      : Outcome (Reply A × Tank × Heap A) → Type ℓ where
    answered :
        (reply : Reply A) (xs' : List A) (t' : Tank) (h' : Heap A)
        → expected op xs ≡ some (reply, xs')
        → Holds allocator base h' t' xs'
        → Performs base h t xs op (ok (reply, t', h'))
    asserted : expected op xs ≡ none → Performs base h t xs op (exit Error.failed_assertion)
    out_of_memory :
        (n : ℕ)
        → asked op t ≡ some n
        → 0 < n
        → realloc h t.items (n * size_of) ≡ none
        → expected op xs ≢ none
        → Performs base h t xs op (exit Error.failed_assertion)
