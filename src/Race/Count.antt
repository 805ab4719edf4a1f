-- ===== src/Race/Count.antt =====
-- The counter of task2/race_condition_moment.c, and the length of its runs.
use pc_project_2024_mtr.Prelude.{
  ℕ, zero, suc, ◌+◌, ◌*◌, ◌^◌, false, ◌≤◌, ◌<◌, ◌≡◌, ◌⊎◌, inl, inr, refl, ap, Option, none, some,
  arith, dec_lt,
}
use pc_project_2024_mtr.Prelude.Family.{total_two}
use pc_project_2024_mtr.Race.{
  Thread, looping, locked, loaded, stored, returned, State, Step, lock, load, store, unlock, leave,
  Reach, IsJoined,
}
use pc_project_2024_mtr.Race.Invariant.{Inv, Reach-Inv, inside, held, written, left}

-- For less than 2^30 increments: when `main` has joined both threads, the counter is twice the number of
-- increments and has not overflowed its `int`, and the threads have taken 8 steps for each increment of one, and 2 more, whatever the interleaving was.
pub increments_all_count :
    (num_increments k : ℕ) (s : State)
    → 2 * num_increments < 2 ^ 31
    → Reach num_increments k s
    → IsJoined s
    → (s.counter ≡ 2 * num_increments) × (s.overflowed ≡ false) × (k ≡ 8 * num_increments + 2)
increments_all_count n k s few reach joined =
    let inv = Reach-Inv n reach in
    let first = joined 0 (omega arith) in
    let second = joined 1 (omega arith) in
    (
      omega (
        arith,
        inv.counted,
        total_two (written n) s.threads,
        ap (written n) first,
        ap (written n) second,
      ),
      inv.no_overflow few,
      omega (arith, inv.steps, total_two (left n) s.threads, ap (left n) first, ap (left n) second),
    )

data Turn (n : ℕ) (s : State) (k : ℕ) : Type 0 where
  steps : (t : State) → Step n s t → Turn n s k
  gone : s.threads k ≡ returned → Turn n s k
  blocked : inside (s.threads k) ≡ 0 → held s.owner ≡ 1 → Turn n s k

turn : (n : ℕ) (s : State) (k : ℕ) → k < 2 → Turn n s k
turn n s k h = go (s.threads k) refl s.owner refl
  where
    go : (p : Thread) → s.threads k ≡ p → (o : Option ℕ) → s.owner ≡ o → Turn n s k
    go (looping i) e none free = elim (dec_lt i n) [
      | yes more ↦ steps _ (lock k h e more free)
      | no over ↦ steps _ (leave k h e (omega arith))
    ]
    go (looping i) e (some o) taken = blocked (ap inside e) (ap held taken)
    go (locked i) e o eo = steps _ (load k h e)
    go (loaded i value) e o eo = steps _ (store k h e)
    go (stored i) e o eo = steps _ (unlock k h e)
    go returned e o eo = gone e

both : (s : State) → s.threads 0 ≡ returned → s.threads 1 ≡ returned → IsJoined s
both s e e' zero h = e
both s e e' (suc zero) h = e'
both s e e' (suc (suc k)) h = absurd (omega arith)

-- The threads never get stuck, and take at most 8 steps for each increment of one, and 2 more: until
-- `main` has joined them, some thread can take a step.
pub always_progress :
    (num_increments k : ℕ) (s : State)
    → Reach num_increments k s
    → (k ≤ 8 * num_increments + 2) × (IsJoined s ⊎ ((t : State) × Step num_increments s t))
always_progress n k s reach =
    (omega (arith, inv.steps), go (turn n s 0 (omega arith)) (turn n s 1 (omega arith)))
  where
    inv : Inv n k s
    inv = Reach-Inv n reach

    go : Turn n s 0 → Turn n s 1 → IsJoined s ⊎ ((t : State) × Step n s t)
    go (steps t step) b = inr (t, step)
    go (gone e) (steps t step) = inr (t, step)
    go (gone e) (gone e') = inl (both s e e')
    go (gone e) (blocked out taken) =
        absurd (omega (arith, inv.mutex, total_two inside s.threads, ap inside e))
    go (blocked out taken) (steps t step) = inr (t, step)
    go (blocked out taken) (gone e) =
        absurd (omega (arith, inv.mutex, total_two inside s.threads, ap inside e))
    go (blocked out taken) (blocked out' taken') =
        absurd (omega (arith, inv.mutex, total_two inside s.threads))
