-- ===== src/Pool/Invariant/Reach.antt =====
-- The invariant of the pool along its runs.
use pc_project_2024_mtr.Prelude.{◌∙◌, ap, sym, ℕ, ◌<◌, ◌≡◌, refl, [], ◌++◌, none, arith, ok}
use pc_project_2024_mtr.Prelude.Int.{pos}
use pc_project_2024_mtr.Prelude.Family.{total, total-assign, total_of_zero}
use pc_project_2024_mtr.Queue.{Queue, Allocator, create}
use pc_project_2024_mtr.Queue.Lifetime.{create-ok}
use pc_project_2024_mtr.Matrix.{Matrix}
use pc_project_2024_mtr.Product.Sequential.{Fits}
use pc_project_2024_mtr.Request.{Wrapper}
use pc_project_2024_mtr.Request.Line.{
  requests-covers, kills_left-requests, requests-Ordered, requests-AllTasks,
}
use pc_project_2024_mtr.Pool.{
  Worker, idle, Operands, size, System, Step, enqueue, dequeue, dispatch, compute, finish, complete,
  stop, init, Reach, start, later,
}
use pc_project_2024_mtr.Pool.Invariant.Ledger.{busy, stopped, holds}
use pc_project_2024_mtr.Pool.Invariant.Compute.{round_writes, compute-Ledger, advanced}
use pc_project_2024_mtr.Pool.Invariant.Steps.{
  Inv, enqueue-Inv, dequeue-Inv, dispatch-Inv, finish-Inv, complete-Inv, stop-Inv,
}

module _ (allocator : Allocator Wrapper) (ops : Operands) (operations n : ℕ) where
  -- Every step of the pool keeps the invariant.
  pub Step-Inv :
      (s t : System) → Step allocator ops n s t → Inv ops operations n s → Inv ops operations n t
  Step-Inv s t (enqueue e a) inv = enqueue-Inv allocator ops operations n s inv _ _ _ e a
  Step-Inv s t (dequeue i h e a) inv = dequeue-Inv allocator ops operations n s inv i _ _ h e a
  Step-Inv s t (dispatch i h e) inv = dispatch-Inv allocator ops operations n s inv i _ h e
  Step-Inv s t (compute k {t = task} {i} {row} {col} {cells} h e more c) inv = record {
    pending = inv.pending;
    represents = inv.represents;
    counted =
        inv.counted
        ∙ ap pos (
            omega (
              arith,
              ap busy e,
              total-assign busy n s.workers k
                  (advanced ops operations n (inv.pending ++ s.todo) s.workers s.products inv.ledger
                    k task i row col h e more)
                  h,
            ));
    ledger =
        compute-Ledger ops operations n (inv.pending ++ s.todo) s.workers s.products inv.ledger k
          task i row col h e more cells
          (round_writes ops operations n (inv.pending ++ s.todo) s.workers s.products inv.ledger k
            task i row col h e more cells c);
  }
  Step-Inv s t (finish k h e done) inv =
      finish-Inv allocator ops operations n s inv k _ _ _ _ h e done
  Step-Inv s t (complete i h e) inv = complete-Inv allocator ops operations n s inv i h e
  Step-Inv s t (stop i h e) inv = stop-Inv allocator ops operations n s inv i h e

  module _ (products : ℕ → Matrix)
      (fit : (o : ℕ)
        → o < operations
        → Fits (ops.operand_as o) (ops.operand_bs o) (products o)) where
    none_at_idle : (w : Worker → ℕ) → w idle ≡ 0 → total w n (λ _. idle) ≡ 0
    none_at_idle w e = total_of_zero w n (λ _. idle) (λ i h. e)

    init-Inv :
        (q : Queue Wrapper)
        → create allocator (λ _. none) ≡ ok q
        → Inv ops operations n (init ops operations n q products)
    init-Inv q e =
        let (rep, d) = create-ok allocator q e in
        record {
          pending = [];
          represents = rep;
          counted = d ∙ ap pos (sym (none_at_idle busy refl));
          ledger = record {
            ordered = requests-Ordered (size ops) operations n;
            ended = λ h. absurd (omega (arith, h, none_at_idle stopped refl));
            kills =
                omega
                  (arith, kills_left-requests (size ops) operations n, none_at_idle stopped refl);
            tasks = requests-AllTasks (size ops) operations n;
            members = λ i. tt;
            shapes = fit;
            once = λ o j.
                ground (
                  arith,
                  requests-covers (size ops) operations n o j,
                  none_at_idle (holds o j) refl,
                );
            correct = λ o j ho hj h.
                absurd (ground (arith, requests-covers (size ops) operations n o j, h));
          };
        }

    pub Reach-Inv :
        (s : System) → Reach allocator ops operations n products s → Inv ops operations n s
    Reach-Inv s (start e) = init-Inv _ e
    Reach-Inv s (later {s = r} reach step) = Step-Inv r s step (Reach-Inv r reach)
