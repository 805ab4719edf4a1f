-- ===== src/Queue/Dispatch.antt =====
-- The counter `dispatched` of the queue.
use pc_project_2024_mtr.Prelude.{ap, ℕ, suc, ◌≡◌, List, arith}
use pc_project_2024_mtr.Prelude.Int.{pos, pos-+ℤ, pos-ℤ_one}
use pc_project_2024_mtr.Queue.{Queue, register_dispatch, register_completion}
use pc_project_2024_mtr.Queue.Chain.{Represents}

module _ {ℓ} {A : Type ℓ} {q : Queue A} {xs : List A} where
  pub register_dispatch-Represents : Represents q xs → Represents (register_dispatch q) xs
  unfolding register_dispatch
  register_dispatch-Represents r = record {
    node = r.node;
    rest = r.rest;
    chain = r.chain;
    at_front = r.at_front;
    tasks = r.tasks;
    counted = r.counted;
    few = r.few;
    owned = r.owned;
  }

  pub register_completion-Represents : Represents q xs → Represents (register_completion q) xs
  unfolding register_completion
  register_completion-Represents r = record {
    node = r.node;
    rest = r.rest;
    chain = r.chain;
    at_front = r.at_front;
    tasks = r.tasks;
    counted = r.counted;
    few = r.few;
    owned = r.owned;
  }

module _ {ℓ} {A : Type ℓ} where
  pub dispatched-dispatch :
      (q : Queue A) (k m : ℕ)
      → q.dispatched ≡ pos k
      → m ≡ suc k
      → (register_dispatch q).dispatched ≡ pos m
  unfolding register_dispatch
  dispatched-dispatch q k m e h = rw (e, pos-+ℤ) (ap pos (omega arith))

  pub dispatched-completion :
      (q : Queue A) (k m : ℕ)
      → q.dispatched ≡ pos k
      → k ≡ suc m
      → (register_completion q).dispatched ≡ pos m
  unfolding register_completion
  dispatched-completion q k m e h = rw (e, h, pos-ℤ_one)
