-- ===== src/Race/Invariant.antt =====
-- What holds in every state of the two threads of task2/race_condition_moment.c.
use pc_project_2024_mtr.Prelude.{
  ℕ, zero, suc, ◌+◌, ◌-◌, ◌*◌, ◌^◌, ◌||◌, leb, false, ◌≤◌, ◌<◌, ◌≡◌, ◌≢◌, refl, sym, ap, subst,
  Option, none, some, arith, ℕ_discrete,
}
use pc_project_2024_mtr.Prelude.Family.{
  assign, assign_at, assign_ne, total, total-assign, total_two, weights-le-total, weight-le-total,
}
use pc_project_2024_mtr.Race.{
  Thread, looping, locked, loaded, stored, returned, State, Step, lock, load, store, unlock, leave,
  Reach, start, later, init,
}

-- 1 for a thread that is in the critical section.
abbrev pub inside : Thread → ℕ
inside (locked i) = 1
inside (loaded i value) = 1
inside (stored i) = 1
inside _ = 0

abbrev pub held : Option ℕ → ℕ
held none = 0
held (some k) = 1

module _ (n : ℕ) where
  -- How often a thread has written the counter.
  abbrev pub written : Thread → ℕ
  written (looping i) = i
  written (locked i) = i
  written (loaded i value) = i
  written (stored i) = suc i
  written returned = n

  -- The steps that a thread has still to take.
  abbrev pub left : Thread → ℕ
  left (looping i) = suc (4 * (n - i))
  left (locked i) = 4 * (n - i)
  left (loaded i value) = 4 * (n - i) - 1
  left (stored i) = 4 * (n - i) - 2
  left returned = 0

  -- What a thread knows when the counter is `c`.
  abbrev pub IsThread : ℕ → Thread → Type 0
  IsThread c (looping i) = i ≤ n
  IsThread c (locked i) = i < n
  IsThread c (loaded i value) = (i < n) × (value ≡ c)
  IsThread c (stored i) = i < n
  IsThread c returned = Unit

  pub record Inv (k : ℕ) (s : State) : Type 0 where
    pub counted : s.counter ≡ total written 2 s.threads
    pub mutex : total inside 2 s.threads ≡ held s.owner
    pub members : (j : ℕ) → j < 2 → IsThread s.counter (s.threads j)
    pub no_overflow : 2 * n < 2 ^ 31 → s.overflowed ≡ false
    pub steps : k + total left 2 s.threads ≡ 8 * n + 2

  IsThread-outside : (c c' : ℕ) (p : Thread) → inside p ≡ 0 → IsThread c p → IsThread c' p
  IsThread-outside c c' (looping i) e h = h
  IsThread-outside c c' (locked i) e h = absurd (omega arith)
  IsThread-outside c c' (loaded i value) e h = absurd (omega arith)
  IsThread-outside c c' (stored i) e h = absurd (omega arith)
  IsThread-outside c c' returned e h = tt

  members-assign :
      (c : ℕ) (f : ℕ → Thread) (k : ℕ) (p : Thread)
      → ((j : ℕ) → j < 2 → IsThread c (f j))
      → IsThread c p
      → (j : ℕ) → j < 2
      → IsThread c (assign f k p j)
  members-assign c f k p h hp j hj = elim (ℕ_discrete k j) [
    | yes e ↦ subst (IsThread c) (sym (assign_at f k p j e)) hp
    | no ne ↦ subst (IsThread c) (sym (assign_ne f k p j ne)) (h j hj)
  ]

  Inv-init : Inv 0 init
  Inv-init = record {
    counted = sym (total_two written (λ _. looping 0));
    mutex = total_two inside (λ _. looping 0);
    members = λ j hj. omega arith;
    no_overflow = λ few. refl;
    steps = omega (arith, total_two left (λ _. looping 0));
  }

  -- A step that leaves the counter.
  Inv-assign :
      {k : ℕ} {s : State} (owner : Option ℕ) (j : ℕ) (p : Thread)
      → Inv k s
      → j < 2
      → written p ≡ written (s.threads j)
      → inside p + held s.owner ≡ inside (s.threads j) + held owner
      → IsThread s.counter p
      → suc (left p) ≡ left (s.threads j)
      → Inv (suc k) (record s { owner = owner; threads = assign s.threads j p })
  Inv-assign {k} {s} owner j p inv h w m member l = record {
    counted = omega (arith, inv.counted, total-assign written 2 s.threads j p h);
    mutex = omega (arith, inv.mutex, total-assign inside 2 s.threads j p h);
    members = members-assign s.counter s.threads j p inv.members member;
    no_overflow = inv.no_overflow;
    steps = omega (arith, inv.steps, total-assign left 2 s.threads j p h);
  }

  held-le : (o : Option ℕ) → held o ≤ 1
  held-le none = omega arith
  held-le (some o) = omega arith

  written-le : (c : ℕ) (p : Thread) → IsThread c p → written p ≤ n
  written-le c (looping i) h = h
  written-le c (locked i) h = omega arith
  written-le c (loaded i value) h = omega arith
  written-le c (stored i) h = h
  written-le c returned h = omega arith

  written-lt : (c : ℕ) (p : Thread) → (i v : ℕ) → p ≡ loaded i v → IsThread c p → written p < n
  written-lt c p i v e h =
      let h' : IsThread c (loaded i v) = subst (IsThread c) e h in omega (arith, h', ap written e)

  -- A thread that is about to write the counter finds it below the number of all increments.
  counter-lt :
      {k : ℕ} {s : State}
      → Inv k s
      → (j i v : ℕ) → j < 2
      → s.threads j ≡ loaded i v
      → s.counter < 2 * n
  counter-lt {k} {s} inv j i v h e =
      let first = written-le s.counter (s.threads 0) (inv.members 0 (omega arith)) in
      let second = written-le s.counter (s.threads 1) (inv.members 1 (omega arith)) in
      let mine = written-lt s.counter (s.threads j) i v e (inv.members j h) in
      one_of j h (omega (arith, inv.counted, total_two written s.threads)) first second mine
    where
      one_of :
          (j : ℕ)
          → j < 2
          → s.counter ≡ written (s.threads 0) + written (s.threads 1)
          → written (s.threads 0) ≤ n
          → written (s.threads 1) ≤ n
          → written (s.threads j) < n
          → s.counter < 2 * n
      one_of zero h c first second mine = omega arith
      one_of (suc zero) h c first second mine = omega arith
      one_of (suc (suc j)) h c first second mine = absurd (omega arith)

  -- The counter is written: no other thread is in the critical section.
  Inv-store :
      {k : ℕ} {s : State} (j i value : ℕ)
      → Inv k s
      → j < 2
      → s.threads j ≡ loaded i value
      → Inv (suc k) (record s {
        counter = suc value;
        overflowed = s.overflowed || leb (2 ^ 31) (suc value);
        threads = assign s.threads j (stored i);
      })
  Inv-store {k} {s} j i value inv h e =
      let member : IsThread s.counter (loaded i value) =
        subst (IsThread s.counter) e (inv.members j h) in
      let written' = ap written e in
      let inside' = ap inside e in
      let left' = ap left e in
      record {
        counted = omega (
          arith,
          inv.counted,
          member.1,
          written',
          total-assign written 2 s.threads j (stored i) h,
        );
        mutex = omega (arith, inv.mutex, inside', total-assign inside 2 s.threads j (stored i) h);
        members = λ j' h'. elim (ℕ_discrete j j') [
          | yes same ↦
              subst (IsThread (suc value)) (sym (assign_at s.threads j (stored i) j' same)) member.0
          | no ne ↦ subst (IsThread (suc value)) (sym (assign_ne s.threads j (stored i) j' ne)) (
              IsThread-outside s.counter (suc value) (s.threads j') (alone j' h' ne)
                (inv.members j' h'))
        ];
        no_overflow = λ few.
            let below : leb (2 ^ 31) (suc value) ≡ false =
              ground (arith, few, member, counter-lt inv j i value h e) in
            rw (inv.no_overflow few, below) refl;
        steps =
            omega (arith, inv.steps, member.0, left', total-assign left 2 s.threads j (stored i) h);
      }
    where
      alone : (j' : ℕ) → j' < 2 → j ≢ j' → inside (s.threads j') ≡ 0
      alone j' h' ne = omega (
        arith,
        weights-le-total inside 2 s.threads j j' h h' ne,
        ap inside e,
        inv.mutex,
        held-le s.owner,
      )

  Inv-Step : {k : ℕ} {s t : State} → Inv k s → Step n s t → Inv (suc k) t
  Inv-Step {k} {s} inv (lock j {i} h e more free) =
      Inv-assign (some j) j (locked i) inv h (ap written (sym e))
        (omega (arith, ap inside e, ap held free)) more (omega (arith, ap left e))
  Inv-Step {k} {s} inv (load j {i} h e) =
      let member : i < n = subst (IsThread s.counter) e (inv.members j h) in
      Inv-assign s.owner j (loaded i s.counter) inv h (ap written (sym e))
        (omega (arith, ap inside e)) (member, refl) (omega (arith, ap left e))
  Inv-Step inv (store j {i} {value} h e) = Inv-store j i value inv h e
  Inv-Step {k} {s} inv (unlock j {i} h e) =
      let member : i < n = subst (IsThread s.counter) e (inv.members j h) in
      Inv-assign none j (looping (suc i)) inv h (ap written (sym e))
        (omega
          (arith, ap inside e, inv.mutex, weight-le-total inside 2 s.threads j h, held-le s.owner))
        member (omega (arith, ap left e))
  Inv-Step {k} {s} inv (leave j {i} h e over) =
      let member : i ≤ n = subst (IsThread s.counter) e (inv.members j h) in
      Inv-assign s.owner j returned inv h (omega (arith, ap written e)) (omega (arith, ap inside e))
        tt (omega (arith, ap left e))

  pub Reach-Inv : {k : ℕ} {s : State} → Reach n k s → Inv k s
  Reach-Inv start = Inv-init
  Reach-Inv (later reach step) = Inv-Step (Reach-Inv reach) step
