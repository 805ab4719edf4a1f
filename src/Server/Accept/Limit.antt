-- ===== src/Server/Accept/Limit.antt =====
-- How many handlers the server runs at a time, and the arguments that they free.
use pc_project_2024_mtr.Prelude.{ℕ, ◌+◌, ◌≤◌, ◌≡◌, ap, arith}
use pc_project_2024_mtr.Server.Accept.{
  max_concurrent_clients, Main, allocating, accepting, counting, spawning, ended, Server, Accept,
  interrupt, enter, leave, find_place, allocate, connect, refuse, break, count, spawn, fail, finish,
  release, Reach, start, later,
}

-- 1 where `main` has counted a client that has no thread.
abbrev pub counted : Main → ℕ
counted spawning = 1
counted _ = 0

-- 1 where `main` has seen a free place that it has not filled.
abbrev pub reserved : Main → ℕ
reserved allocating = 1
reserved accepting = 1
reserved counting = 1
reserved _ = 0

-- 1 where `main` holds an argument that no thread has.
abbrev pub held : Main → ℕ
held accepting = 1
held counting = 1
held spawning = 1
held _ = 0

-- 1 where the loop is over.
abbrev pub over : Main → ℕ
over ended = 1
over _ = 0

record Inv (s : Server) : Type 0 where
  live : s.live ≡ s.serving + counted s.main + s.failed
  places : s.live + reserved s.main ≤ max_concurrent_clients
  enough : s.serving + s.closing + held s.main + s.failed ≤ s.arguments
  few : s.arguments ≤ s.serving + s.closing + held s.main + s.failed + over s.main

Inv-Accept : {s t : Server} → Inv s → Accept s t → Inv t
Inv-Accept i interrupt = record { live = i.live; places = i.places; enough = i.enough; few = i.few }
Inv-Accept i (enter e f) =
    omega
      (arith, i.live, i.places, i.enough, i.few, ap counted e, ap reserved e, ap held e, ap over e)
Inv-Accept i (leave e f) =
    omega
      (arith, i.live, i.places, i.enough, i.few, ap counted e, ap reserved e, ap held e, ap over e)
Inv-Accept i (find_place e free) = omega (
  arith,
  i.live,
  i.places,
  i.enough,
  i.few,
  ap counted e,
  ap reserved e,
  ap held e,
  ap over e,
  free,
)
Inv-Accept i (allocate e) =
    omega
      (arith, i.live, i.places, i.enough, i.few, ap counted e, ap reserved e, ap held e, ap over e)
Inv-Accept i (connect e f) =
    omega
      (arith, i.live, i.places, i.enough, i.few, ap counted e, ap reserved e, ap held e, ap over e)
Inv-Accept i (refuse e f a) =
    omega (
      arith,
      i.live,
      i.places,
      i.enough,
      i.few,
      ap counted e,
      ap reserved e,
      ap held e,
      ap over e,
      a,
    )
Inv-Accept i (break e f) =
    omega
      (arith, i.live, i.places, i.enough, i.few, ap counted e, ap reserved e, ap held e, ap over e)
Inv-Accept i (count e) =
    omega
      (arith, i.live, i.places, i.enough, i.few, ap counted e, ap reserved e, ap held e, ap over e)
Inv-Accept i (spawn e) =
    omega
      (arith, i.live, i.places, i.enough, i.few, ap counted e, ap reserved e, ap held e, ap over e)
Inv-Accept i (fail e) =
    omega
      (arith, i.live, i.places, i.enough, i.few, ap counted e, ap reserved e, ap held e, ap over e)
Inv-Accept i (finish l v) = omega (arith, i.live, i.places, i.enough, i.few, l, v)
Inv-Accept i (release c a) = omega (arith, i.live, i.places, i.enough, i.few, c, a)

Reach-Inv : {s : Server} → Reach s → Inv s
Reach-Inv start = omega arith
Reach-Inv (later reach step) = Inv-Accept (Reach-Inv reach) step

-- In every interleaving of `main` with its handlers, at most 16 handlers have not yet taken themselves
-- off `live_handlers_count`. The counter is their number, with one more where `main` has counted a client
-- and not yet called `pthread_create`, and one more for each thread that could not be made, and it is
-- at most 16 too.
pub handlers_bound :
    (s : Server)
    → Reach s
    → (s.serving ≤ max_concurrent_clients)
      × (s.live ≡ s.serving + counted s.main + s.failed)
      × (s.live ≤ max_concurrent_clients)
handlers_bound s reach = let i = Reach-Inv reach in omega (arith, i.live, i.places)

-- When the loop has ended and all handlers are gone, at most one argument stays allocated beside those
-- of the threads that could not be made.
pub arguments_bound :
    (s : Server)
    → Reach s
    → s.main ≡ ended
    → s.serving ≡ 0
    → s.closing ≡ 0
    → s.arguments ≤ s.failed + 1
arguments_bound s reach e v c =
    let i = Reach-Inv reach in omega (arith, i.few, ap held e, ap over e, v, c)
