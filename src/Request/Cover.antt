-- ===== src/Request/Cover.antt =====
-- Which cells of the products are in which tasks of `request_multiplication`.
use pc_project_2024_mtr.Prelude.{
  ℕ, zero, suc, ◌+◌, ◌*◌, ◌≤◌, ◌<◌, ◌≡◌, refl, List, [], ◌∷◌, ◌++◌, ◌&&◌, ltb, leb, ◌==◌,
  if◌then◌else◌, arith, Bool-cases, inl, inr,
}
use pc_project_2024_mtr.Request.{Task, Wrapper, exec, kill, task_chunk_size, request_chunks}

-- 1 if cell `j` of product `o` is one of those from `i` up to the end of the task.
abbrev pub covers_from : Task → ℕ → ℕ → ℕ → ℕ
covers_from t i o j = if t.operation == o && (leb i j && ltb j t.end_idx) then 1 else 0

-- How many of the tasks in line are to compute cell `j` of product `o`.
abbrev pub covers : List Wrapper → ℕ → ℕ → ℕ
covers [] o j = 0
covers (exec t ∷ ws) o j = covers_from t t.start_idx o j + covers ws o j
covers (kill ∷ ws) o j = covers ws o j

abbrev pub tasks_left : List Wrapper → ℕ
tasks_left [] = 0
tasks_left (exec t ∷ ws) = suc (tasks_left ws)
tasks_left (kill ∷ ws) = tasks_left ws

abbrev pub kills_left : List Wrapper → ℕ
kills_left [] = 0
kills_left (exec t ∷ ws) = kills_left ws
kills_left (kill ∷ ws) = suc (kills_left ws)

-- No task stands behind a request to stop.
abbrev pub Ordered : List Wrapper → Type 0
Ordered [] = Unit
Ordered (exec t ∷ ws) = Ordered ws
Ordered (kill ∷ ws) = (tasks_left ws ≡ 0) × Ordered ws

module _ (size : ℕ → ℕ) (operations : ℕ) where
  -- A task is for cells that its product has.
  abbrev pub IsTask : Task → Type 0
  IsTask t = (t.operation < operations) × (t.start_idx < t.end_idx) × (t.end_idx ≤ size t.operation)

  abbrev pub AllTasks : List Wrapper → Type 0
  AllTasks [] = Unit
  AllTasks (exec t ∷ ws) = IsTask t × AllTasks ws
  AllTasks (kill ∷ ws) = AllTasks ws

  pub AllTasks-append : (v w : List Wrapper) → AllTasks v → AllTasks w → AllTasks (v ++ w)
  AllTasks-append [] w p q = q
  AllTasks-append (exec t ∷ v) w p q = (p.0, AllTasks-append v w p.1 q)
  AllTasks-append (kill ∷ v) w p q = AllTasks-append v w p q

  pub request_chunks-AllTasks :
      (fuel o i : ℕ) → o < operations → AllTasks (request_chunks fuel o i (size o))
  unfolding request_chunks
  request_chunks-AllTasks zero o i h = tt
  request_chunks-AllTasks (suc fuel) o i h = elim (Bool-cases (ltb i (size o))) [
    | inl more ↦
        rw (more, request_chunks)
          ((h, ground arith, ground arith), request_chunks-AllTasks fuel o (i + task_chunk_size) h)
    | inr done ↦ rw (done, request_chunks) tt
  ]

pub covers-append :
    (v w : List Wrapper) (o j : ℕ) → covers (v ++ w) o j ≡ covers v o j + covers w o j
covers-append [] w o j = omega arith
covers-append (exec t ∷ v) w o j = omega (arith, covers-append v w o j)
covers-append (kill ∷ v) w o j = covers-append v w o j

-- The rounds from `i` on cover the cells from `i` on, each once, if there is fuel for them.
pub request_chunks-covers :
    (fuel p i max_idx o j : ℕ)
    → max_idx ≤ i + task_chunk_size * fuel
    → covers (request_chunks fuel p i max_idx) o j
      ≡ (if p == o && (leb i j && ltb j max_idx) then 1 else 0)
unfolding request_chunks
request_chunks-covers zero p i max_idx o j h = ground arith
request_chunks-covers (suc fuel) p i max_idx o j h = elim (Bool-cases (ltb i max_idx)) [
  | inl more ↦
      rw (more, request_chunks)
        (ground (arith, request_chunks-covers fuel p (i + task_chunk_size) max_idx o j))
  | inr done ↦ rw (done, request_chunks) (ground arith)
]

pub request_chunks-kills : (fuel p i max_idx : ℕ) → kills_left (request_chunks fuel p i max_idx) ≡ 0
unfolding request_chunks
request_chunks-kills zero p i max_idx = refl
request_chunks-kills (suc fuel) p i max_idx = elim (Bool-cases (ltb i max_idx)) [
  | inl more ↦ rw (more, request_chunks) (request_chunks-kills fuel p (i + task_chunk_size) max_idx)
  | inr done ↦ rw (done, request_chunks) refl
]
