-- ===== src/Tank/Runs.antt =====
-- Calls of a tank of task1/Tank.cpp one after the other, against the list that it holds.
use pc_project_2024_mtr.Prelude.{
  ℕ, ◌*◌, ◌<◌, ◌≡◌, ◌≢◌, refl, sym, ap, List, [], ◌∷◌, ◌++◌, Option, none, some, Outcome, ok, exit,
  Error, ◌>>=◌,
}
use mathlib.Core.Option
use pc_project_2024_mtr.Tank.{Heap, Allocator, Tank, size}
use pc_project_2024_mtr.Tank.Holds.{Holds}
use pc_project_2024_mtr.Tank.Operations.{
  Operation, Reply, resizing, measuring, pushing, popping, reading, count, expected, perform, asked,
  IsCall, Performs, answered, asserted, out_of_memory,
}
use pc_project_2024_mtr.Tank.Steps.{perform-resizing, perform-reading, perform-pushing}
use pc_project_2024_mtr.Tank.Pop.{perform-popping}

-- What calls answer one after the other, and the list that they leave.
unfoldable pub expected_run {ℓ} :
    {A : Type ℓ} → List (Operation A) → List A → Option (List (Reply A) × List A)
expected_run [] xs = some ([], xs)
expected_run (op ∷ ops) xs = elim (expected op xs) [
  | none ↦ none
  | some (reply, xs') ↦ Option.map (λ rest. (reply ∷ rest.0, rest.1)) (expected_run ops xs')
]

module _ {ℓ} {A : Type ℓ} (allocator : Allocator A) where
  open allocator use {size_of, malloc, realloc}

  unfoldable pub run : List (Operation A) → Tank → Heap A → Outcome (List (Reply A) × Tank × Heap A)
  run [] t h = ok ([], t, h)
  run (op ∷ ops) t h = do
    (reply, t', h') ← perform allocator op t h
    (replies, t'', h'') ← run ops t' h'
    ok (reply ∷ replies, t'', h'')

  abbrev pub AreCalls : List (Operation A) → Type 0
  AreCalls [] = Unit
  AreCalls (op ∷ ops) = IsCall allocator op × AreCalls ops

  perform-Performs :
      (base h : Heap A) (t : Tank) (xs : List A)
      → Holds allocator base h t xs
      → (op : Operation A) → IsCall allocator op
      → Performs allocator base h t xs op (perform allocator op t h)
  unfolding perform expected size
  perform-Performs base h t xs holds (resizing n) call =
      perform-resizing allocator base h t xs holds n call
  perform-Performs base h t xs holds measuring call =
      answered (count t.filled) xs t h (ap (λ n. some (count n, xs)) (sym holds.count)) holds
  perform-Performs base h t xs holds (pushing x) call =
      perform-pushing allocator base h t xs holds x
  perform-Performs base h t xs holds popping call = perform-popping allocator base h t xs holds
  perform-Performs base h t xs holds (reading i) call =
      perform-reading allocator base h t xs holds i call

  -- What calls may do to a tank that holds `xs`, in the heap `h`. They run out of memory at a call that
  -- they come to, with `realloc` refusing what this call asks for.
  pub data Runs (base h : Heap A) (t : Tank) (xs : List A) (ops : List (Operation A))
      : Outcome (List (Reply A) × Tank × Heap A) → Type ℓ where
    ran :
        (replies : List (Reply A)) (xs' : List A) (t' : Tank) (h' : Heap A)
        → expected_run ops xs ≡ some (replies, xs')
        → Holds allocator base h' t' xs'
        → Runs base h t xs ops (ok (replies, t', h'))
    stopped : expected_run ops xs ≡ none → Runs base h t xs ops (exit Error.failed_assertion)
    starved :
        (before after : List (Operation A)) (op : Operation A) (replies : List (Reply A))
        (t' : Tank) (h' : Heap A) (xs' : List A) (n : ℕ)
        → ops ≡ before ++ (op ∷ after)
        → run before t h ≡ ok (replies, t', h')
        → Holds allocator base h' t' xs'
        → expected op xs' ≢ none
        → asked allocator op t' ≡ some n
        → 0 < n
        → realloc h' t'.items (n * size_of) ≡ none
        → Runs base h t xs ops (exit Error.failed_assertion)

  pub run-Runs :
      (base h : Heap A) (t : Tank) (xs : List A)
      → Holds allocator base h t xs
      → (ops : List (Operation A)) → AreCalls ops
      → Runs base h t xs ops (run ops t h)
  unfolding run expected_run
  run-Runs base h t xs holds [] calls = ran [] xs t h refl holds
  run-Runs base h t xs holds (op ∷ ops) (call, calls) =
      first _ refl (perform-Performs base h t xs holds op call)
        (λ t' h' xs' holds'. run-Runs base h' t' xs' holds' ops calls)
    where
      next :
          (reply : Reply A) (xs' : List A) (t' : Tank) (h' : Heap A)
          → perform allocator op t h ≡ ok (reply, t', h')
          → expected op xs ≡ some (reply, xs')
          → (r : Outcome (List (Reply A) × Tank × Heap A)) → Runs base h' t' xs' ops r
          → Runs base h t xs (op ∷ ops) (r >>= λ p. ok (reply ∷ p.0, p.1, p.2))
      next reply xs' t' h' done e r (ran replies xs'' t'' h'' e' holds') =
          ran (reply ∷ replies) xs'' t'' h'' (rw (e, expected_run, e')) holds'
      next reply xs' t' h' done e r (stopped e') = stopped (rw (e, expected_run, e'))
      next reply xs' t' h' done e r
            (starved before after op' replies t'' h'' xs'' n parts runs holds' due asks some_size
              given) =
          starved (op ∷ before) after op' (reply ∷ replies) t'' h'' xs'' n (ap (λ l. op ∷ l) parts)
            (rw (done, runs)) holds' due asks some_size given

      first :
          (r : Outcome (Reply A × Tank × Heap A))
          → perform allocator op t h ≡ r
          → Performs allocator base h t xs op r
          → ((t' : Tank) (h' : Heap A) (xs' : List A)
              → Holds allocator base h' t' xs'
              → Runs base h' t' xs' ops (run ops t' h'))
          → Runs base h t xs
              (op ∷ ops)
              (r >>= λ p. run ops p.1 p.2 >>= λ q. ok (p.0 ∷ q.0, q.1, q.2))
      first r done (answered reply xs' t' h' e holds') rest =
          next reply xs' t' h' done e _ (rest t' h' xs' holds')
      first r done (asserted e) rest = stopped (rw (e, expected_run))
      first r done (out_of_memory n asks some_size given due) rest =
          starved [] ops op [] t h xs n refl refl holds due asks some_size given
