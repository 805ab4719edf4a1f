-- ===== src/Race.antt =====
-- task2/race_condition_moment.c: two threads that count up one counter under a mutex, in any
-- interleaving. `counter++` is a read and, as a step of its own, a write.
pub mod Invariant
pub mod Count
use pc_project_2024_mtr.Prelude.{
  ℕ, zero, suc, ◌^◌, ◌≤◌, ◌<◌, ◌≡◌, Bool, false, ◌||◌, leb, Option, none, some,
}
use pc_project_2024_mtr.Prelude.Family.{assign}

-- Where a thread stands in `increment_counter`, with its `i`.
pub data Thread : Type 0 where
  looping : ℕ → Thread  -- at the loop's test
  locked : ℕ → Thread  -- behind `pthread_mutex_lock`
  loaded : (i value : ℕ) → Thread  -- has read `value` for `counter++`
  stored : ℕ → Thread  -- behind `counter++`
  returned : Thread

-- The globals of the program and its threads; `owner` is the thread that holds `counter_mutex`. `counter`
-- is an `int`: `overflowed` tells that it has been counted beyond 2^31 - 1, from where on its value and what
-- the program does are undefined.
pub record State : Type 0 where
  pub counter : ℕ
  pub overflowed : Bool
  pub owner : Option ℕ
  pub threads : ℕ → Thread

-- One step of thread `k` of the two.
pub data Step (num_increments : ℕ) (s : State) : State → Type 0 where
  lock :
      (k : ℕ) {i : ℕ}
      → k < 2
      → s.threads k ≡ looping i
      → i < num_increments
      → s.owner ≡ none
      → Step num_increments s (record s { owner = some k; threads = assign s.threads k (locked i) })
  load :
      (k : ℕ) {i : ℕ}
      → k < 2
      → s.threads k ≡ locked i
      → Step num_increments s (record s { threads = assign s.threads k (loaded i s.counter) })
  store :
      (k : ℕ) {i value : ℕ}
      → k < 2
      → s.threads k ≡ loaded i value
      → Step num_increments s (record s {
        counter = suc value;
        overflowed = s.overflowed || leb (2 ^ 31) (suc value);
        threads = assign s.threads k (stored i);
      })
  unlock :
      (k : ℕ) {i : ℕ}
      → k < 2
      → s.threads k ≡ stored i
      → Step num_increments s
          (record s { owner = none; threads = assign s.threads k (looping (suc i)) })
  leave :
      (k : ℕ) {i : ℕ}
      → k < 2
      → s.threads k ≡ looping i
      → num_increments ≤ i
      → Step num_increments s (record s { threads = assign s.threads k returned })

-- `main` has set `num_increments` (0 for a negative argument) and created the threads.
abbrev pub init : State
init = record { counter = 0; overflowed = false; owner = none; threads = λ _. looping 0 }

-- The states after so many steps.
pub data Reach (num_increments : ℕ) : ℕ → State → Type 0 where
  start : Reach num_increments 0 init
  later :
      {k : ℕ} {s t : State}
      → Reach num_increments k s
      → Step num_increments s t
      → Reach num_increments (suc k) t

-- What `main` joins.
abbrev pub IsJoined : State → Type 0
IsJoined s = (k : ℕ) → k < 2 → s.threads k ≡ returned
