-- ===== src/Chat/Room/Places.antt =====
-- `live_users` of hw/server.cpp and the number of threads that run.
use pc_project_2024_mtr.Prelude.{ℕ, ◌+◌, ◌≤◌, ◌≡◌, refl, Bool, true, false, arith}
use pc_project_2024_mtr.Prelude.Int.{pos_part, neg_part}
use pc_project_2024_mtr.Prelude.Family.{total, total_sum, total-eq-count}
use pc_project_2024_mtr.Chat.Settings.{Options}
use pc_project_2024_mtr.Chat.Handler.{Session, has_ended}
use pc_project_2024_mtr.Chat.Handler.Turns.{on}
use pc_project_2024_mtr.Chat.Room.{Room, Reach}
use pc_project_2024_mtr.Chat.Room.Invariant.{counted, closes_of, Reach-Inv}

-- 1 for a client whose thread has come to an end, for one whose thread runs, and for one whose name was
-- taken.
abbrev pub ended : Session → ℕ
ended s = on (has_ended s.phase)

abbrev pub runs : Session → ℕ
runs s = elim (has_ended s.phase) [ true ↦ 0 | false ↦ 1 ]

abbrev pub refused : Session → ℕ
refused s = on s.rejected

ended_or_runs : (b : Bool) → 1 ≡ on b + elim b as (λ _. ℕ) [ true ↦ 0 | false ↦ 1 ]
ended_or_runs true = refl
ended_or_runs false = refl

module _ (options : Options) (h : 1 ≤ pos_part options.max_concurrent_clients) (r : Room)
    (reach : Reach options r) where
  -- `live_users` is too small by the number of clients whose name was taken: it is the number of the
  -- threads that run, with one more where `main` has counted a client that has no thread, less that number.
  pub live_lem :
      pos_part r.live + total refused r.next r.sessions
      ≡ neg_part r.live + total runs r.next r.sessions + counted r.main
  live_lem =
      let i = Reach-Inv h reach in
      omega (
        arith,
        i.balance,
        total_sum closes_of ended refused r.next r.sessions (λ c. (i.register.each c).closed),
        total_sum (λ _. 1) ended runs r.next r.sessions
            (λ c. ended_or_runs (has_ended (r.sessions c).phase)),
        total-eq-count (λ _. 1) r.next r.sessions (λ c below. refl),
      )

  -- So the limit holds but for these: as many threads as the option allows run at the most, and one more
  -- for each client whose name was taken.
  pub runs-bound :
      total runs r.next r.sessions + counted r.main + neg_part options.max_concurrent_clients
      ≤ pos_part options.max_concurrent_clients + total refused r.next r.sessions
  runs-bound = let i = Reach-Inv h reach in omega (arith, live_lem, i.bounded)
