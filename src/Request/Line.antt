-- ===== src/Request/Line.antt =====
-- The whole of what `main` adds to the queue: its cells, its order and its requests to stop.
use pc_project_2024_mtr.Prelude.{
  ℕ, zero, suc, ◌+◌, ◌≤◌, ◌≡◌, refl, List, [], ◌∷◌, ◌++◌, ◌&&◌, ltb, leb, ◌==◌, if◌then◌else◌,
  replicate, arith,
}
use pc_project_2024_mtr.Request.{
  Wrapper, exec, kill, request_multiplication, request_operations, request_stop, requests,
}
use pc_project_2024_mtr.Request.Cover.{
  covers, covers-append, tasks_left, kills_left, Ordered, AllTasks, AllTasks-append,
  request_chunks-AllTasks, request_chunks-covers, request_chunks-kills,
}

request_multiplication-covers :
    (p max_idx o j : ℕ)
    → covers (request_multiplication p max_idx) o j ≡ (if p == o && ltb j max_idx then 1 else 0)
unfolding request_multiplication
request_multiplication-covers p max_idx o j =
    ground (arith, request_chunks-covers max_idx p 0 max_idx o j (omega arith))

request_operations-covers :
    (size : ℕ → ℕ) (n i o j : ℕ)
    → covers (request_operations size n i) o j
      ≡ (if (leb i o && ltb o (i + n)) && ltb j (size o) then 1 else 0)
unfolding request_operations
request_operations-covers size zero i o j = ground arith
request_operations-covers size (suc n) i o j = ground (
  arith,
  covers-append (request_multiplication i (size i)) (request_operations size n (suc i)) o j,
  request_multiplication-covers i (size i) o j,
  request_operations-covers size n (suc i) o j,
)

stop-covers : (n o j : ℕ) → covers (replicate n kill) o j ≡ 0
stop-covers zero o j = refl
stop-covers (suc n) o j = stop-covers n o j

tasks_left-stop : (n : ℕ) → tasks_left (replicate n kill) ≡ 0
tasks_left-stop zero = refl
tasks_left-stop (suc n) = tasks_left-stop n

kills_left-stop : (n : ℕ) → kills_left (replicate n kill) ≡ n
kills_left-stop zero = refl
kills_left-stop (suc n) = omega (arith, kills_left-stop n)

Ordered-stop : (n : ℕ) → Ordered (replicate n kill)
Ordered-stop zero = tt
Ordered-stop (suc n) = (tasks_left-stop n, Ordered-stop n)

AllTasks-stop : (size : ℕ → ℕ) (operations n : ℕ) → AllTasks size operations (replicate n kill)
AllTasks-stop size operations zero = tt
AllTasks-stop size operations (suc n) = AllTasks-stop size operations n

-- Tasks in front of a line.
Ordered-append : (v w : List Wrapper) → kills_left v ≡ 0 → Ordered w → Ordered (v ++ w)
Ordered-append [] w e o = o
Ordered-append (exec t ∷ v) w e o = Ordered-append v w e o
Ordered-append (kill ∷ v) w e o = absurd (omega arith)

kills_left-append : (v w : List Wrapper) → kills_left (v ++ w) ≡ kills_left v + kills_left w
kills_left-append [] w = omega arith
kills_left-append (exec t ∷ v) w = kills_left-append v w
kills_left-append (kill ∷ v) w = omega (arith, kills_left-append v w)

-- Each cell of each product is in exactly one task of what `main` adds, and a cell that no product
-- has is in none.
pub requests-covers :
    (size : ℕ → ℕ) (operations n o j : ℕ)
    → covers (requests size operations n) o j
      ≡ (if ltb o operations && ltb j (size o) then 1 else 0)
unfolding requests request_stop
requests-covers size operations n o j = ground (
  arith,
  covers-append (request_operations size operations 0) (replicate n kill) o j,
  request_operations-covers size operations 0 o j,
  stop-covers n o j,
)

request_operations-kills : (size : ℕ → ℕ) (n i : ℕ) → kills_left (request_operations size n i) ≡ 0
unfolding request_operations request_multiplication
request_operations-kills size zero i = refl
request_operations-kills size (suc n) i = omega (
  arith,
  kills_left-append (request_multiplication i (size i)) (request_operations size n (suc i)),
  request_chunks-kills (size i) i 0 (size i),
  request_operations-kills size n (suc i),
)

pub kills_left-requests :
    (size : ℕ → ℕ) (operations n : ℕ) → kills_left (requests size operations n) ≡ n
unfolding requests request_stop
kills_left-requests size operations n = omega (
  arith,
  kills_left-append (request_operations size operations 0) (replicate n kill),
  request_operations-kills size operations 0,
  kills_left-stop n,
)

pub requests-Ordered : (size : ℕ → ℕ) (operations n : ℕ) → Ordered (requests size operations n)
unfolding requests request_stop
requests-Ordered size operations n =
    Ordered-append (request_operations size operations 0) (replicate n kill)
      (request_operations-kills size operations 0) (Ordered-stop n)

request_operations-AllTasks :
    (size : ℕ → ℕ) (operations n i : ℕ)
    → i + n ≤ operations
    → AllTasks size operations (request_operations size n i)
unfolding request_operations request_multiplication
request_operations-AllTasks size operations zero i h = tt
request_operations-AllTasks size operations (suc n) i h =
    AllTasks-append size operations (request_multiplication i (size i))
      (request_operations size n (suc i))
      (request_chunks-AllTasks size operations (size i) i 0 (omega arith))
      (request_operations-AllTasks size operations n (suc i) (omega arith))

pub requests-AllTasks :
    (size : ℕ → ℕ) (operations n : ℕ) → AllTasks size operations (requests size operations n)
unfolding requests request_stop
requests-AllTasks size operations n =
    AllTasks-append size operations (request_operations size operations 0) (replicate n kill)
      (request_operations-AllTasks size operations operations 0 (omega arith))
      (AllTasks-stop size operations n)
